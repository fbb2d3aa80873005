-- ===== src/Http/Workers/Stops.antt =====
-- A segmented transfer that is stopped between any two turns of its goroutines
-- (backend/internal/protocol/http/segmented_downloader.go).
use downpeed_fluter.Base.{
  dec_lt, All, map, Table, ℕ, suc, ◌+◌, ◌<◌, ◌≡◌, ◌∙◌, refl, ap, subst, arith, List, [], ◌∷◌,
  length, Option, some, Text, Outcome, ok, pos, ℤ, pos_part,
}
use downpeed_fluter.Checkpoint.{SegmentProgress, TransferCheckpoint, validate_transfer_checkpoint}
use downpeed_fluter.Checkpoint.Layout.{Tiles, Describes, received, received-le}
use downpeed_fluter.Checkpoint.Accepts.{validate_complete}
use downpeed_fluter.Http.Segment.{File}
use downpeed_fluter.Http.Workers.{
  Worker, Step, Reach, launch, segment_reads, shared_checkpoint, first, next, TransferRequest,
  TransferError, later, start, Response,
}
use downpeed_fluter.Http.Workers.Sound.{Has}
use downpeed_fluter.Http.Workers.Resumable.{
  Kept, Honest, Tiled, Reach-Tiled, launched-Tiled, Tiled-Tiles, Tiled-Kept,
}

Step-length :
    {file : File} {ws : List Worker} {file' : File} {ws' : List Worker}
    → Step file ws file' ws'
    → length ws' ≡ length ws
Step-length (first ws turn) = refl
Step-length (later w step) = ap suc (Step-length step)

Reach-length :
    {file : File} {ws : List Worker} {file' : File} {ws' : List Worker}
    → Reach file ws file' ws'
    → length ws' ≡ length ws
Reach-length start = refl
Reach-length (next reach step) = Step-length step ∙ Reach-length reach

length-map : {A B : Type 0} (f : A → B) (l : List A) → length (map f l) ≡ length l
length-map f [] = refl
length-map f (x ∷ l) = ap suc (length-map f l)

-- Segments that count all bytes have them all.
All-there :
    (resource : ℕ → ℕ) (file : File) (a t : ℕ) (segments : List SegmentProgress)
    → Tiles a t segments
    → All (Kept resource file) segments
    → a + received segments ≡ t
    → Has resource file a t
All-there resource file a t [] tiles kept full i low high = absurd (omega arith)
All-there resource file a t (segment ∷ segments) (b, c, same, order, fits, tiles) (kept, all_kept)
      full i low high =
    elim (dec_lt b i) [
      | yes k ↦
          All-there resource file (suc b) t segments tiles all_kept
            (omega (arith, full, counts, received-le (suc b) t segments tiles)) i k high
      | no k ↦
          subst (Kept resource file) same kept i low
            (omega (arith, full, counts, received-le (suc b) t segments tiles))
    ]
  where
    counts : pos_part segment.completed ≡ c
    counts = ap (λ (x : SegmentProgress). pos_part x.completed) same

-- A segmented transfer goes on from a checkpoint whose bytes are in the work file, and the server sends for each segment what
-- stands there, in pieces of at most 64 KiB. Whatever turns the goroutines take and whatever fails, at any
-- moment the checkpoint that they share is accepted, and the file has every byte that it counts; and if it
-- counts them all, the file is the server's. The file ends 64 KiB below 2 ^ 63.
pub any_stop_resumes :
    (resource : ℕ → ℕ) (reformat : Text → Option Text) (input : TransferRequest)
    (answer : Table Text → Outcome TransferError Response) (checkpoint : TransferCheckpoint)
    (expected : ℤ) (t d : ℕ) (file file' : File) (ws : List Worker)
    → Describes checkpoint expected t d
    → t + 65537 < 9223372036854775808
    → All (Kept resource file) checkpoint.segments
    → All
        (Honest resource (segment_reads reformat input checkpoint.total answer))
        checkpoint.segments
    → Reach file
        (map (launch (segment_reads reformat input checkpoint.total answer)) checkpoint.segments)
        file'
        ws
    → (d' : ℕ) × (validate_transfer_checkpoint (some (shared_checkpoint checkpoint ws)) expected
        ≡ ok (pos d'))
      × All (Kept resource file') (shared_checkpoint checkpoint ws).segments
      × (d' ≡ t → (i : ℕ) → i < t → file' i ≡ resource i)
any_stop_resumes resource reformat input answer checkpoint expected t d file file' ws h small kept
      honest reach =
    (
      received segments,
      validate_complete (shared_checkpoint checkpoint ws) expected t (received segments)
          (omega arith)
          (record {
            current = h.current;
            sized = h.sized;
            not_empty = h.not_empty;
            as_expected = h.as_expected;
            some_segments = omega (arith, h.some_segments, same_length);
            few_segments = omega (arith, h.few_segments, same_length);
            tiled = tiles;
            counted = refl;
          }),
      Tiled-Kept resource file' 0 t ws tiled,
      λ full i high.
          All-there resource file' 0 t segments tiles (Tiled-Kept resource file' 0 t ws tiled)
            (omega (arith, full)) i (omega arith) high,
    )
  where
    segments : List SegmentProgress
    segments = (shared_checkpoint checkpoint ws).segments

    tiled : Tiled resource file' 0 t ws
    tiled = Reach-Tiled resource t small reach (
        launched-Tiled resource (segment_reads reformat input checkpoint.total answer) file 0 t
          checkpoint.segments small h.tiled kept honest)

    tiles : Tiles 0 t segments
    tiles = Tiled-Tiles resource file' 0 t ws tiled

    same_length : length segments ≡ length checkpoint.segments
    same_length =
        length-map (λ w. w.segment) ws
        ∙ Reach-length reach
        ∙ length-map (launch (segment_reads reformat input checkpoint.total answer))
            checkpoint.segments
