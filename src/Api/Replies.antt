-- ===== src/Api/Replies.antt =====
-- The envelope of backend/pkg/api and the two ways to write it (backend/internal/httpapi/server.go).
use Prim.Native.String.{String}
use downpeed_fluter.Base.{ℕ, Bool, true, false, Option, Text, Outcome, ok, err}

pub record ApiError : Type 0 where
  pub code : String
  pub message : String
  pub retryable : Bool

-- An envelope holds either the value or the error; the other is nil.
pub record Reply {ℓ} (A : Type ℓ) : Type ℓ where
  pub status : ℕ
  pub content : Outcome ApiError A
  pub request_id : Text

abbrev pub write_json {ℓ} : {A : Type ℓ} → Text → ℕ → A → Reply A
write_json rid status value = record { status = status; content = ok value; request_id = rid }

abbrev pub write_api_error {ℓ} : {A : Type ℓ} → Text → ℕ → String → String → Bool → Reply A
write_api_error rid status code message retryable = record {
  status = status;
  content = err (record { code = code; message = message; retryable = retryable });
  request_id = rid;
}

-- What a second call of Decode finds.
pub data Rest : Type 0 where
  end_of_body another_value broken_rest : Rest

-- A request body, by what its decoder returns: of the first value, and of what follows it.
pub record Body {ℓ} (A : Type ℓ) : Type ℓ where
  pub value : Option A
  pub rest : Rest

abbrev pub ensure_json_end : Rest → Bool
ensure_json_end end_of_body = true
ensure_json_end another_value = false
ensure_json_end broken_rest = false
