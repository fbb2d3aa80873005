-- ===== src/Checkpoint.antt =====
-- The checkpoint of a segmented transfer: backend/internal/download/checkpoint.go.
pub mod Layout
pub mod Accepts
pub mod Tests
use downpeed_fluter.Base.{
  ℕ, suc, ◌+◌, ◌≡◌, Bool, not, ◌||◌, List, [], ◌∷◌, Option, none, some, length, ltb, leb, ◌==◌,
  if◌then◌else◌, ℤ, pos, ltb_ℤ, leb_ℤ, eqb_ℤ, ◌+64◌, ◌-64◌, Outcome, ok, err, ◌&&◌,
}
use downpeed_fluter.Errors.{DownloadError, partial_file_changed}

abbrev pub transfer_checkpoint_version : ℤ
transfer_checkpoint_version = pos 1

abbrev pub default_segmented_transfer_min_size : ℤ
default_segmented_transfer_min_size = pos 1048576

pub record SegmentProgress : Type 0 where
  pub start : ℤ
  pub end : ℤ
  pub completed : ℤ

pub record TransferCheckpoint : Type 0 where
  pub version : ℤ
  pub total : ℤ
  pub segments : List SegmentProgress

-- The loop of ValidateTransferCheckpoint: the end of the last segment and the bytes completed.
unfoldable pub validate_segments : ℤ → ℤ → ℤ → List SegmentProgress → Outcome DownloadError (ℤ × ℤ)
validate_segments total next_start downloaded [] = ok (next_start, downloaded)
validate_segments total next_start downloaded (segment ∷ rest) =
    let later =
      validate_segments total (segment.end +64 pos 1) (downloaded +64 segment.completed) rest in
    let size = segment.end -64 segment.start +64 pos 1 in
    if not (eqb_ℤ segment.start next_start)
      || ltb_ℤ segment.end segment.start
      || leb_ℤ total segment.end
    then err partial_file_changed
    else if ltb_ℤ segment.completed (pos 0) || ltb_ℤ size segment.completed
    then err partial_file_changed
    else later

-- What stands after the loop.
abbrev pub check_total : ℤ → Outcome DownloadError (ℤ × ℤ) → Outcome DownloadError ℤ
check_total total (err e) = err e
check_total total (ok (next_start, downloaded)) =
    if not (eqb_ℤ next_start total) || ltb_ℤ total downloaded
    then err partial_file_changed
    else ok downloaded

unfoldable pub validate_transfer_checkpoint :
    Option TransferCheckpoint → ℤ → Outcome DownloadError ℤ
validate_transfer_checkpoint none expected_total = err partial_file_changed
validate_transfer_checkpoint (some checkpoint) expected_total =
    if not (eqb_ℤ checkpoint.version transfer_checkpoint_version) || leb_ℤ checkpoint.total (pos 0)
    then err partial_file_changed
    else if ltb_ℤ (pos 0) expected_total && not (eqb_ℤ checkpoint.total expected_total)
    then err partial_file_changed
    else if length checkpoint.segments == 0 || ltb 64 (length checkpoint.segments)
    then err partial_file_changed
    else check_total checkpoint.total
        (validate_segments checkpoint.total (pos 0) (pos 0) checkpoint.segments)
