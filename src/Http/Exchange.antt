-- ===== src/Http/Exchange.antt =====
-- What a transfer asks a server and gets from it: applyResourceValidator, isTemporaryHTTPStatus and
-- resourceValidatorChanged (backend/internal/protocol/http/downloader.go).
use downpeed_fluter.Base.{
  any, all, map, Table, insert, ℕ, ◌-◌, Bool, true, not, ◌&&◌, ◌||◌, List, [], ◌∷◌, Option, none,
  some, Text, text, if◌then◌else◌, leb, ◌==◌, ℤ,
}
use downpeed_fluter.Errors.{TransferError}
use downpeed_fluter.Validator.{if_range_value, strong_etag, parse_resource_validator}
use downpeed_fluter.Strings.{is_empty, trim_space}
use downpeed_fluter.Task.{ResourceValidator, TransferRequest}
use downpeed_fluter.Paths.{text_eq}
use downpeed_fluter.Http.ContentRange.{lower}

-- One call of Read on the body that is followed by others: its bytes, the answer of the limiter, how
-- many of the bytes were written before writing failed, if it did, and the context's error after it.
pub record Read : Type 0 where
  pub bytes : List ℕ
  pub limited : Option TransferError
  pub write_fails : Option (ℕ × TransferError)
  pub context_error : Option TransferError

-- The answer to a request: its headers, the URL that it came from, what Read gives, and the error that
-- the last call of Read comes with, none for io.EOF.
pub record Response : Type 0 where
  pub status : ℕ
  pub content_length : ℤ
  pub etag : Text
  pub last_modified : Text
  pub content_encoding : Text
  pub content_range : Text
  pub request_url : Option Text
  pub reads : List Read
  pub last : Read
  pub read_error : Option TransferError

-- The characters of a header's name.
abbrev is_token : ℕ → Bool
is_token c =
    (leb b'A' c && leb c b'Z')
    || (leb b'a' c && leb c b'z')
    || (leb b'0' c && leb c b'9')
    || any (λ x. x == c) (text "!#$%&'*+-.^_`|~")

abbrev upper : ℕ → ℕ
upper c = if leb b'a' c && leb c b'z' then c - 32 else c

-- Each letter at the start or behind a '-' is upper case, the others are lower case.
abbrev capitalised : Bool → Text → Text
capitalised at_start [] = []
capitalised at_start (c ∷ s) = (if at_start then upper c else lower c) ∷ capitalised (c == b'-') s

-- Header.Set: the name is written in its canonical form if it is a token.
unfoldable pub set_header : Text → Text → Table Text → Table Text
unfolding insert
set_header name value headers =
    insert (if all is_token name then capitalised true name else name) value headers

unfoldable pub is_temporary_http_status : ℕ → Bool
is_temporary_http_status status = status == 408 || status == 429 || leb 500 status

-- The header that is set, where the code returns true.
unfoldable pub apply_resource_validator : ResourceValidator → Bool → Option (Text × Text)
unfolding if_range_value strong_etag
apply_resource_validator validator range_request =
    if range_request
    then (if is_empty (if_range_value validator)
        then none
        else some (text "If-Range", if_range_value validator))
    else if not (is_empty (strong_etag validator))
    then some (text "If-Match", strong_etag validator)
    else if not (is_empty validator.last_modified)
    then some (text "If-Unmodified-Since", validator.last_modified)
    else none

abbrev pub differs : Text → Text → Bool
differs observed expected = not (is_empty observed) && not (text_eq observed expected)

abbrev pub validator_changed : ResourceValidator → ResourceValidator → Bool
validator_changed expected observed =
    if not (is_empty (strong_etag expected))
    then differs observed.etag expected.etag
    else if not (is_empty expected.last_modified)
    then differs observed.last_modified expected.last_modified
    else not (is_empty expected.etag) && differs observed.etag expected.etag

-- `reformat` is the rewriting of a date, as for ParseResourceValidator.
unfoldable pub resource_validator_changed :
    (Text → Option Text) → ResourceValidator → Response → Bool
unfolding strong_etag parse_resource_validator
resource_validator_changed reformat expected response =
    validator_changed expected
      (parse_resource_validator reformat response.etag response.last_modified)

-- strings.EqualFold with "identity"; an encoding that is not given is accepted too.
unfoldable pub is_encoded : Text → Bool
unfolding trim_space
is_encoded header =
    let encoding = trim_space header in
    not (is_empty encoding) && not (text_eq (map lower encoding) (text "identity"))

-- The range over the map, whose order is left open in Go.
abbrev given_headers : Table Text → Table Text → Table Text
given_headers [] headers = headers
given_headers ((name, value) ∷ rest) headers = given_headers rest (set_header name value headers)

-- What each request starts with.
unfoldable pub identity_headers : TransferRequest → Table Text
unfolding set_header
identity_headers input =
    set_header (text "Accept-Encoding") (text "identity") (given_headers input.headers [])
