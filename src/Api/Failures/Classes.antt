-- ===== src/Api/Failures/Classes.antt =====
-- How the errors of a service are reported (backend/internal/httpapi/tasks.go).
use downpeed_fluter.Base.{ℕ, ◌≡◌, ◌⊎◌, ◌≤◌, ◌<◌, arith, true, false}
use downpeed_fluter.Errors.{DownloadError, TransferError, sentinel, unexpected_eof, invalid_request}
use downpeed_fluter.Api.Replies.{ApiError}
use downpeed_fluter.Api.Failures.{task_service_api_error, sentinel_api_error}

abbrev pub Classified : ℕ × ApiError → Type 0
Classified (status, error) =
    ((((400 ≤ status) × (status < 500)) ⊎ (status ≡ 501)) × (error.retryable ≡ false))
    ⊎ ((status ≡ 500) × (error.retryable ≡ true))

sentinel-Classified : (e : DownloadError) → Classified (sentinel_api_error e)
unfolding sentinel_api_error
sentinel-Classified invalid_request = grind arith
sentinel-Classified _ = grind arith

-- Every error of a service is answered with a status of 400 to 499, 500 or 501, and exactly the
-- errors that are answered with 500 are said to be retryable.
pub error-Classified : (e : TransferError) → Classified (task_service_api_error e)
unfolding task_service_api_error
error-Classified (sentinel e) = sentinel-Classified e
error-Classified unexpected_eof = grind arith
error-Classified _ = grind arith
