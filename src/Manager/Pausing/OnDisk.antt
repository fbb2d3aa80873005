-- ===== src/Manager/Pausing/OnDisk.antt =====
-- What is counted as downloaded when a run has stopped (reconciledPartialProgress of
-- backend/internal/download/manager.go).
use downpeed_fluter.Base.{
  ◌≡◌, refl, arith, Bool, true, false, Option, none, some, Outcome, ok, err, pos, ℤ, ◌≤ℤ◌, ◌<ℤ◌,
  if◌then◌else◌, ◌↔◌, ◌⊎◌, inl, inr,
}
use downpeed_fluter.Errors.{DownloadError}
use downpeed_fluter.Checkpoint.{TransferCheckpoint, validate_transfer_checkpoint}
use downpeed_fluter.Task.{Task, TransferRequest}
use downpeed_fluter.Manager.State.{Files, FileInfo, Stat, found, not_exist, stat_failed}
use downpeed_fluter.Manager.Runs.{partial_file_size}
use downpeed_fluter.Manager.Pausing.{
  reconciled_partial_progress, progress_on_disk, checked_size, nothing_yet, checked_against,
}

-- The partial file is missing and nothing is counted, or it is a regular file of that many bytes.
abbrev pub IsSizeOf : Stat → ℤ → Type 0
IsSizeOf stat d =
    ((stat ≡ not_exist) × (d ≡ pos 0))
    ⊎ ((info : FileInfo) × (stat ≡ found info) × (info.is_regular ≡ true) × (info.size ≡ d))

-- A count that agrees with the partial file. With no checkpoint, a file that may be fetched in
-- segments has none, and another one's has as many bytes, not more than a known size. With a
-- checkpoint, which is valid for the task's size and counts as much, the file has its full size.
abbrev pub OnDisk : Stat → Task → TransferRequest → Option TransferCheckpoint → ℤ → Type 0
OnDisk stat task request none d =
    if request.allow_segments
    then (stat ≡ not_exist) × (d ≡ pos 0)
    else IsSizeOf stat d × (pos 0 <ℤ task.total → d ≤ℤ task.total)
OnDisk stat task request (some checkpoint) d =
    (info : FileInfo) × (stat ≡ found info)
    × (info.is_regular ≡ true)
    × (info.size ≡ checkpoint.total)
    × (validate_transfer_checkpoint (some checkpoint) task.total ≡ ok d)

size-IsSizeOf : (stat : Stat) (d : ℤ) → (partial_file_size stat ≡ ok d) ↔ IsSizeOf stat d
unfolding partial_file_size
size-IsSizeOf not_exist d = (λ h. inl (refl, ground arith), λ h. ground arith)
size-IsSizeOf stat_failed d = (λ h. absurd (ground arith), λ h. ground arith)
size-IsSizeOf (found info) d =
    (λ h. inr (info, refl, ground arith, ground arith), λ h. ground arith)

checked_size_iff :
    (task : Task) (r : Outcome DownloadError ℤ) (d : ℤ)
    → (checked_size task r ≡ ok d) ↔ ((r ≡ ok d) × (pos 0 <ℤ task.total → d ≤ℤ task.total))
checked_size_iff task (err e) d = (λ h. ground arith, λ h. ground arith)
checked_size_iff task (ok size) d = (λ h. (ground arith, λ sized. ground arith), λ h. ground arith)

nothing_yet_iff :
    (stat : Stat) (d : ℤ) → (nothing_yet stat ≡ ok d) ↔ ((stat ≡ not_exist) × (d ≡ pos 0))
nothing_yet_iff not_exist d = (λ h. ground arith, λ h. ground arith)
nothing_yet_iff stat_failed d = (λ h. ground arith, λ h. ground arith)
nothing_yet_iff (found info) d = (λ h. ground arith, λ h. ground arith)

checked_against_iff :
    (checkpoint : TransferCheckpoint) (stat : Stat) (r : Outcome DownloadError ℤ) (d : ℤ)
    → (checked_against checkpoint stat r ≡ ok d) ↔ (
        (info : FileInfo) × (stat ≡ found info)
        × (info.is_regular ≡ true)
        × (info.size ≡ checkpoint.total)
        × (r ≡ ok d))
checked_against_iff checkpoint stat (err e) d = (λ h. ground arith, λ h. ground arith)
checked_against_iff checkpoint not_exist (ok n) d = (λ h. ground arith, λ h. ground arith)
checked_against_iff checkpoint stat_failed (ok n) d = (λ h. ground arith, λ h. ground arith)
checked_against_iff checkpoint (found info) (ok n) d =
    (λ h. (info, refl, ground arith, ground arith, ground arith), λ h. ground arith)

progress-OnDisk :
    (stat : Stat) (task : Task) (request : TransferRequest) (checkpoint : Option TransferCheckpoint)
    (d : ℤ)
    → (progress_on_disk stat task request checkpoint ≡ ok d) ↔ OnDisk stat task request checkpoint d
progress-OnDisk stat task request none d = whole request.allow_segments refl
  where
    counted :
        (checked_size task (partial_file_size stat) ≡ ok d)
        ↔ (IsSizeOf stat d × (pos 0 <ℤ task.total → d ≤ℤ task.total))
    counted =
        let (into, back) = checked_size_iff task (partial_file_size stat) d in
        (
          λ h. ((size-IsSizeOf stat d).0 (into h).0, (into h).1),
          λ h. back ((size-IsSizeOf stat d).1 h.0, h.1),
        )

    whole :
        (segmented : Bool)
        → request.allow_segments ≡ segmented
        → (progress_on_disk stat task request none ≡ ok d) ↔ OnDisk stat task request none d
    whole true e = rw e (nothing_yet_iff stat d)
    whole false e = rw e counted
progress-OnDisk stat task request (some checkpoint) d =
    checked_against_iff checkpoint stat (validate_transfer_checkpoint (some checkpoint) task.total)
      d

-- When a run has stopped, Pause and Resume go on from a number of bytes exactly if it agrees with what
-- the file system says of the partial file: with no checkpoint, the file is missing and the number is
-- 0, or it is a regular file of that many bytes, which are not more than a known size, but a file that
-- is fetched in segments has to be missing; with a checkpoint, the checkpoint is valid for the task's
-- size and counts that many, and the file is regular and has its full size.
pub reconciled-OnDisk :
    (files : Files) (task : Task) (request : TransferRequest) (d : ℤ)
    → (reconciled_partial_progress files task request ≡ ok d)
      ↔ OnDisk (files.lstat request.work_path) task request request.checkpoint d
unfolding reconciled_partial_progress
reconciled-OnDisk files task request d =
    progress-OnDisk (files.lstat request.work_path) task request request.checkpoint d
