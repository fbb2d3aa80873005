-- ===== src/Validator/Normal.antt =====
-- A validator in normal form is kept by putting it in normal form.
use downpeed_fluter.Base.{
  if◌then◌else◌, ℕ, ◌≡◌, refl, arith, Bool, true, false, [], ◌∷◌, ◌++◌, Option, none, some, Text,
  text, ok, ap, ◌∙◌, subst, sym,
}
use downpeed_fluter.Task.{ResourceValidator}
use downpeed_fluter.Strings.{is_empty, trim_space, trim, is_space, trim_left, trim_right}
use downpeed_fluter.Strings.Trim.{first_is, last_is, trim_kept}
use downpeed_fluter.Validator.{
  checked_validator, closes_etag, valid_opaque_etag, after_prefix, normalize_split,
  normalize_trimmed, normalize_etag, or_empty, normalize_http_date, parse_resource_validator,
  normalize_resource_validator,
}

-- A text with no space at either end, which is not empty.
pub record IsTrimmed (value : Text) : Type 0 where
  pub not_empty : is_empty value ≡ false
  pub no_first_space : first_is is_space value ≡ false
  pub no_last_space : last_is is_space value ≡ false

trim_space_kept : (value : Text) → IsTrimmed value → trim_space value ≡ value
unfolding trim_space
trim_space_kept value h = trim_kept is_space value h.no_first_space h.no_last_space

closes_last : (c : ℕ) (s : Text) → closes_etag s ≡ true → last_is is_space (c ∷ s) ≡ false
unfolding closes_etag is_space
closes_last c [] h = absurd (ground arith)
closes_last c (d ∷ []) h = ground arith
closes_last c (d ∷ e ∷ s) h = closes_last d (e ∷ s) (ground arith)

valid-IsTrimmed : (value : Text) → valid_opaque_etag value ≡ true → IsTrimmed value
unfolding valid_opaque_etag is_space
valid-IsTrimmed [] h = absurd (ground arith)
valid-IsTrimmed (c ∷ s) h = record {
  not_empty = refl;
  no_first_space = ground arith;
  no_last_space = closes_last c s (ground arith);
}

weak-IsTrimmed : (value : Text) → valid_opaque_etag value ≡ true → IsTrimmed (text "W/" ++ value)
unfolding valid_opaque_etag is_space
weak-IsTrimmed [] h = absurd (ground arith)
weak-IsTrimmed (c ∷ s) h = record {
  not_empty = refl;
  no_first_space = refl;
  no_last_space = closes_last c s (ground arith);
}

split_kept :
    (value v : Text) (rest : Option Text)
    → after_prefix (text "W/") value ≡ rest
    → normalize_split value rest ≡ some v
    → IsTrimmed v × (normalize_trimmed v ≡ some v)
unfolding normalize_trimmed after_prefix
split_kept value v none weak h =
    let valid : valid_opaque_etag value ≡ true = ground arith in
    let same : value ≡ v = ground arith in
    subst (λ (x : Text). IsTrimmed x × (normalize_trimmed x ≡ some x)) same
      (valid-IsTrimmed value valid, ap (normalize_split value) weak ∙ (h ∙ ap some (sym same)))
split_kept value v (some opaque) weak h =
    let valid : valid_opaque_etag opaque ≡ true = ground arith in
    let same : text "W/" ++ opaque ≡ v = ground arith in
    subst (λ (x : Text). IsTrimmed x × (normalize_trimmed x ≡ some x)) same
      (weak-IsTrimmed opaque valid, h ∙ ap some (sym same))

etag_kept :
    (value v : Text) → normalize_etag value ≡ some v → IsTrimmed v × (normalize_etag v ≡ some v)
unfolding normalize_etag normalize_trimmed
etag_kept value v h =
    let (trimmed, kept) =
      split_kept (trim_space value) v (after_prefix (text "W/") (trim_space value)) refl h in
    (trimmed, ap normalize_trimmed (trim_space_kept v trimmed) ∙ kept)

abbrev both : Text → Text → ResourceValidator
both etag last_modified = record { etag = etag; last_modified = last_modified }

checked_kept : (v : ResourceValidator) → checked_validator v.etag v.last_modified v ≡ ok v
checked_kept v = ground arith

module _ (reformat : Text → Option Text)
    (reformat_kept : (value v : Text)
      → reformat value ≡ some v
      → IsTrimmed v × (reformat v ≡ some v)) where
  date_kept :
      (value v : Text)
      → normalize_http_date reformat value ≡ some v
      → IsTrimmed v × (normalize_http_date reformat v ≡ some v)
  unfolding normalize_http_date
  date_kept value v h =
      let read : reformat (trim_space value) ≡ some v = ground arith in
      let (trimmed, kept) = reformat_kept (trim_space value) v read in
      (
        trimmed,
        ap (λ x. if is_empty x then none else reformat x) (trim_space_kept v trimmed)
            ∙ (ap (λ (b : Bool). if b then none else reformat v) trimmed.not_empty ∙ kept),
      )

  -- A field in normal form, or left out.
  Field : (Text → Option Text) → Text → Type 0
  Field normalize v = (trim_space v ≡ v) × (or_empty (normalize v) ≡ v)

  normal-Field :
      (normalize : Text → Option Text) (read : Option Text)
      → (normalize [] ≡ none)
      → ((v : Text) → read ≡ some v → IsTrimmed v × (normalize v ≡ some v))
      → Field normalize (or_empty read)
  unfolding Field trim_space trim trim_left trim_right
  normal-Field normalize none nothing kept = (refl, ap or_empty nothing)
  normal-Field normalize (some v) nothing kept =
      let (trimmed, same) = kept v refl in (trim_space_kept v trimmed, ap or_empty same)

  etag-Field : (value : Text) → Field normalize_etag (or_empty (normalize_etag value))
  unfolding normalize_etag normalize_trimmed trim_space trim trim_left trim_right
  etag-Field value =
      normal-Field normalize_etag (normalize_etag value) refl (λ v e. etag_kept value v e)

  date-Field :
      (value : Text)
      → Field (normalize_http_date reformat) (or_empty (normalize_http_date reformat value))
  unfolding normalize_http_date trim_space trim trim_left trim_right
  date-Field value =
      normal-Field (normalize_http_date reformat) (normalize_http_date reformat value) refl
        (λ v e. date_kept value v e)

  Fields : ResourceValidator → Type 0
  Fields v = Field normalize_etag v.etag × Field (normalize_http_date reformat) v.last_modified

  Fields-kept :
      (v : ResourceValidator)
      → Fields v
      → normalize_resource_validator reformat v.etag v.last_modified ≡ ok v
  unfolding Fields Field normalize_resource_validator parse_resource_validator
  Fields-kept v ((e, f), (d, g)) =
      let parsed : parse_resource_validator reformat v.etag v.last_modified ≡ v =
        ap (λ x. both x (or_empty (normalize_http_date reformat v.last_modified))) f
        ∙ ap (both v.etag) g in
      ap
        (λ x.
          checked_validator x (trim_space v.last_modified)
            (parse_resource_validator reformat v.etag v.last_modified))
        e
      ∙ ap
          (λ x.
            checked_validator v.etag x (parse_resource_validator reformat v.etag v.last_modified))
          d
      ∙ ap (checked_validator v.etag v.last_modified) parsed
      ∙ checked_kept v

  -- Where http.ParseTime reads what http.TimeFormat writes as the same date, and that is not
  -- empty and has no space at an end: what NormalizeResourceValidator accepts, as it is then
  -- stored, it accepts again and leaves as it is.
  pub normalized_kept :
      (etag last_modified : Text) (v : ResourceValidator)
      → normalize_resource_validator reformat etag last_modified ≡ ok v
      → normalize_resource_validator reformat v.etag v.last_modified ≡ ok v
  unfolding normalize_resource_validator parse_resource_validator Fields
  normalized_kept etag last_modified v h =
      let same : parse_resource_validator reformat etag last_modified ≡ v = ground arith in
      Fields-kept v (subst Fields same (etag-Field etag, date-Field last_modified))
