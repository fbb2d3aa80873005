-- ===== src/Http/ContentRange.antt =====
-- parseResumeContentRange (backend/internal/protocol/http/downloader.go).
use downpeed_fluter.Base.{
  map, ltb_ℤ, leb_ℤ, eqb_ℤ, ℕ, ◌+◌, not, ◌&&◌, ◌||◌, [], ◌∷◌, Option, none, some, Text, text,
  if◌then◌else◌, Outcome, ok, err, leb, ◌==◌, pos, negsuc, ℤ, ◌-64◌, ◌+64◌,
}
use downpeed_fluter.Errors.{DownloadError, resume_not_supported}
use downpeed_fluter.Strings.{trim_space}
use downpeed_fluter.Numbers.{parse_int}
use downpeed_fluter.Paths.{text_eq}

-- strings.Cut at one byte: what stands before its first place, and behind it.
unfoldable pub cut : ℕ → Text → Option (Text × Text)
cut at [] = none
cut at (c ∷ s) =
    let rest = cut at s in
    if c == at
    then some ([], s)
    else elim rest [ none ↦ none | some (before, after) ↦ some (c ∷ before, after) ]

-- ToLower, for ASCII: no other letter has one of "bytes" or "identity" as its lower case.
abbrev pub lower : ℕ → ℕ
lower c = if leb b'A' c && leb c b'Z' then c + 32 else c

abbrev pub checked_total : ℤ → ℤ → Option ℤ → Outcome DownloadError (ℤ × ℤ)
checked_total start end none = err resume_not_supported
checked_total start end (some total) =
    if leb_ℤ total end then err resume_not_supported else ok (total, (end -64 start) +64 pos 1)

abbrev pub parsed_range : Text → ℤ → Option ℤ → Option ℤ → Outcome DownloadError (ℤ × ℤ)
parsed_range total_value offset (some start) (some end) =
    if not (eqb_ℤ start offset) || ltb_ℤ end start
    then err resume_not_supported
    else if text_eq total_value (text "*")
    then ok (negsuc 0, (end -64 start) +64 pos 1)
    else checked_total start end (parse_int total_value)
parsed_range total_value offset _ _ = err resume_not_supported

abbrev pub cut_range : Text → ℤ → Option (Text × Text) → Outcome DownloadError (ℤ × ℤ)
cut_range total_value offset none = err resume_not_supported
cut_range total_value offset (some (start_value, end_value)) =
    parsed_range total_value offset (parse_int start_value) (parse_int end_value)

abbrev pub cut_spec : ℤ → Option (Text × Text) → Outcome DownloadError (ℤ × ℤ)
cut_spec offset none = err resume_not_supported
cut_spec offset (some (byte_range, total_value)) =
    cut_range total_value offset (cut b'-' byte_range)

abbrev pub cut_unit : ℤ → Option (Text × Text) → Outcome DownloadError (ℤ × ℤ)
cut_unit offset none = err resume_not_supported
cut_unit offset (some (unit, spec)) =
    if not (text_eq (map lower unit) (text "bytes"))
    then err resume_not_supported
    else cut_spec offset (cut b'/' (trim_space spec))

-- The total, which is -1 if it is not known, and the length of the range.
unfoldable pub parse_resume_content_range : Text → ℤ → Outcome DownloadError (ℤ × ℤ)
unfolding cut trim_space parse_int
parse_resume_content_range value offset = cut_unit offset (cut b' ' (trim_space value))
