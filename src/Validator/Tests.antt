-- ===== src/Validator/Tests.antt =====
-- Validators put in normal form, where no text is a date.
use downpeed_fluter.Base.{◌≡◌, refl, arith, [], Option, none, some, Text, text, ok, err}
use downpeed_fluter.Errors.{invalid_request}
use downpeed_fluter.Task.{ResourceValidator}
use downpeed_fluter.Validator.{normalize_resource_validator, parse_resource_validator}
use downpeed_fluter.Validator.Normal.{IsTrimmed, normalized_kept}

abbrev no_date : Text → Option Text
no_date value = none

no_date_kept : (value v : Text) → no_date value ≡ some v → IsTrimmed v × (no_date v ≡ some v)
no_date_kept value v h = absurd (ground arith)

-- A weak tag with spaces around it.
abbrev weak : ResourceValidator
weak = record { etag = text "W/\"a\""; last_modified = [] }

weak_read : normalize_resource_validator no_date (text " W/\"a\" ") [] ≡ ok weak
unfolding normalize_resource_validator parse_resource_validator
weak_read = refl

normalized_kept_example :
    normalize_resource_validator no_date weak.etag weak.last_modified ≡ ok weak
normalized_kept_example = normalized_kept no_date no_date_kept (text " W/\"a\" ") [] weak weak_read

-- A tag without quotes is refused.
bare_refused : normalize_resource_validator no_date (text "abc") [] ≡ err invalid_request
unfolding normalize_resource_validator parse_resource_validator
bare_refused = refl
