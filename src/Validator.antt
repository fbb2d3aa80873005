-- ===== src/Validator.antt =====
-- The validator of a remote file: backend/internal/download/validator.go. Reading a date with
-- http.ParseTime and writing it in http.TimeFormat is the parameter `reformat`.
pub mod Normal
pub mod Tests
use downpeed_fluter.Errors.{DownloadError, invalid_request}
use downpeed_fluter.Base.{
  ℕ, Bool, true, false, not, ◌&&◌, ◌∷◌, ◌++◌, ◌==◌, ltb, Option, none, some, Outcome, ok, err, [],
  ◌||◌, if◌then◌else◌, Text, text,
}
use downpeed_fluter.Strings.{trim_space, is_empty, has_prefix}
use downpeed_fluter.Task.{ResourceValidator}

unfoldable pub strong_etag : ResourceValidator → Text
unfolding has_prefix
strong_etag validator =
    if is_empty validator.etag || has_prefix (text "W/") validator.etag then [] else validator.etag

unfoldable pub if_range_value : ResourceValidator → Text
unfolding strong_etag
if_range_value validator =
    if is_empty (strong_etag validator) then validator.last_modified else strong_etag validator

-- What follows the first quote of an opaque tag: up to the last character, which is a quote, no
-- quote, space or control character.
unfoldable pub closes_etag : Text → Bool
closes_etag [] = false
closes_etag (c ∷ []) = c == 34
closes_etag (c ∷ d ∷ s) =
    let rest = closes_etag (d ∷ s) in not (c == 34 || ltb c 0x21 || c == 0x7f) && rest

unfoldable pub valid_opaque_etag : Text → Bool
unfolding closes_etag
valid_opaque_etag [] = false
valid_opaque_etag (c ∷ s) = c == 34 && closes_etag s

-- HasPrefix and TrimPrefix in one: what follows the prefix.
unfoldable pub after_prefix : Text → Text → Option Text
after_prefix [] s = some s
after_prefix (p ∷ prefix) [] = none
after_prefix (p ∷ prefix) (c ∷ s) =
    let rest = after_prefix prefix s in if p == c then rest else none

abbrev pub normalize_split : Text → Option Text → Option Text
normalize_split value none = if valid_opaque_etag value then some value else none
normalize_split value (some opaque) =
    if valid_opaque_etag opaque then some (text "W/" ++ opaque) else none

-- normalizeETag behind TrimSpace: a weak tag is W/ and an opaque tag.
unfoldable pub normalize_trimmed : Text → Option Text
unfolding valid_opaque_etag after_prefix
normalize_trimmed value = normalize_split value (after_prefix (text "W/") value)

unfoldable pub normalize_etag : Text → Option Text
unfolding normalize_trimmed trim_space
normalize_etag value = normalize_trimmed (trim_space value)

abbrev pub or_empty : Option Text → Text
or_empty none = []
or_empty (some value) = value

unfoldable pub normalize_http_date : (Text → Option Text) → Text → Option Text
unfolding trim_space
normalize_http_date reformat value =
    if is_empty (trim_space value) then none else reformat (trim_space value)

unfoldable pub parse_resource_validator : (Text → Option Text) → Text → Text → ResourceValidator
unfolding normalize_etag normalize_http_date
parse_resource_validator reformat etag last_modified = record {
  etag = or_empty (normalize_etag etag);
  last_modified = or_empty (normalize_http_date reformat last_modified);
}

-- The trimmed headers have been read, or are empty.
abbrev pub checked_validator :
    Text → Text → ResourceValidator → Outcome DownloadError ResourceValidator
checked_validator etag last_modified validator =
    if not (is_empty etag) && is_empty validator.etag
    then err invalid_request
    else if not (is_empty last_modified) && is_empty validator.last_modified
    then err invalid_request
    else ok validator

unfoldable pub normalize_resource_validator :
    (Text → Option Text) → Text → Text → Outcome DownloadError ResourceValidator
unfolding parse_resource_validator trim_space
normalize_resource_validator reformat etag last_modified =
    checked_validator (trim_space etag) (trim_space last_modified)
      (parse_resource_validator reformat etag last_modified)
