-- ===== src/Http/Workers.antt =====
-- The goroutines of a segmented transfer, which share the work file and the checkpoint, in any order
-- (backend/internal/protocol/http/segmented_downloader.go, downloadSegmented).
pub mod Sound
pub mod Resumable
pub mod Stops
use downpeed_fluter.Base.{
  ◌^◌, dec_lt, on_test, All, ◌↔◌, Text-discrete, if_pos, if_neg, ite, Option-cases, is_some, any,
  all, map, ltb_ℤ, leb_ℤ, eqb_ℤ, Table, lookup, insert, delete, Member, length-append, ℕ, zero, suc,
  ◌+◌, ◌-◌, ◌*◌, ◌/◌, ◌%◌, ◌≤◌, ◌<◌, ◌≡◌, ◌≢◌, ◌∙◌, ◌⊎◌, inl, inr, refl, sym, ap, subst, arith,
  Bool, true, false, not, ◌&&◌, ◌||◌, List, [], ◌∷◌, ◌++◌, length, Option, none, some, Text, text,
  if◌then◌else◌, Outcome, ok, err, Bool-cases, ltb, leb, ◌==◌, pos, negsuc, ℤ, ◌-64◌, ◌+64◌,
}
use downpeed_fluter.Checkpoint.{SegmentProgress, TransferCheckpoint}
use downpeed_fluter.Http.Segment.{
  File, Progress, take_bytes, segment_start, segment_remaining, check_segment_response,
  segment_headers, or_else,
}
use downpeed_fluter.Http.Exchange.{Read, Response}
use downpeed_fluter.Task.{TransferRequest}
use downpeed_fluter.Errors.{TransferError}

-- A segment of the checkpoint, and what the goroutine that transfers it has: what it still reads, the last
-- call of Read included, how many bytes it received, and how many of them onWrite was not told yet.
pub record Worker : Type 0 where
  pub segment : SegmentProgress
  pub start : ℤ
  pub remaining : ℤ
  pub received : ℤ
  pub unreported : ℤ
  pub reads : List Read

-- What the loop over the body reads, if there is one.
unfoldable pub segment_reads :
    (Text → Option Text)
    → TransferRequest
    → ℤ
    → (Table Text → Outcome TransferError Response)
    → SegmentProgress
    → List Read
unfolding check_segment_response segment_headers segment_remaining
segment_reads reformat input total answer segment = elim (answer (segment_headers input segment)) [
  | err e ↦ []
  | ok response ↦
      if is_some (
        check_segment_response reformat input (segment_start segment) (segment_remaining segment)
          total response)
      then []
      else response.reads ++ response.last ∷ []
]

-- A goroutine is started for each segment that is not complete.
unfoldable pub launch : (SegmentProgress → List Read) → SegmentProgress → Worker
unfolding segment_remaining
launch reads segment = record {
  segment = segment;
  start = segment_start segment;
  remaining = segment_remaining segment;
  received = pos 0;
  unreported = pos 0;
  reads =
      if eqb_ℤ segment.completed ((segment.end -64 segment.start) +64 pos 1)
      then []
      else reads segment;
}

-- A goroutine reads no more once it fails; a context that is cancelled is looked at after onWrite.
abbrev pub after_read : Read → List Read → Worker → Progress × Option TransferError → File × Worker
after_read r reads w (p, some e) = (p.file, record w { received = p.received; reads = [] })
after_read r reads w (p, none) = (
  p.file,
  record w {
    received = p.received;
    unreported = pos (length r.bytes);
    reads = elim r.context_error [ some e ↦ [] | none ↦ reads ];
  },
)

-- One round of the loop up to onWrite.
unfoldable pub read_turn : Read → List Read → File → Worker → File × Worker
unfolding take_bytes
read_turn r reads file w =
    after_read r reads w
      (take_bytes w.start w.remaining r (record { file = file; received = w.received }))

-- onWrite: reportProgress counts the bytes.
abbrev pub count_segment : ℤ → SegmentProgress → SegmentProgress
count_segment count segment = record segment { completed = segment.completed +64 count }

unfoldable pub report_turn : Worker → Worker
report_turn w = record w { segment = count_segment w.unreported w.segment; unreported = pos 0 }

pub data Turn (file : File) (w : Worker) : File → Worker → Type 0 where
  reading :
      (r : Read) (reads : List Read)
      → w.reads ≡ r ∷ reads
      → w.unreported ≡ pos 0
      → Turn file w ((read_turn r reads file w).0) ((read_turn r reads file w).1)
  reporting : Turn file w file (report_turn w)

-- It is the turn of any of the goroutines.
pub data Step : File → List Worker → File → List Worker → Type 0 where
  first :
      {file file' : File} {w w' : Worker} (ws : List Worker)
      → Turn file w file' w'
      → Step file (w ∷ ws) file' (w' ∷ ws)
  later :
      {file file' : File} {ws ws' : List Worker} (w : Worker)
      → Step file ws file' ws'
      → Step file (w ∷ ws) file' (w ∷ ws')

pub data Reach (file : File) (ws : List Worker) : File → List Worker → Type 0 where
  start : Reach file ws file ws
  next :
      {file' file'' : File} {ws' ws'' : List Worker}
      → Reach file ws file' ws'
      → Step file' ws' file'' ws''
      → Reach file ws file'' ws''

-- The checkpoint that the goroutines share.
abbrev pub shared_checkpoint : TransferCheckpoint → List Worker → TransferCheckpoint
shared_checkpoint checkpoint ws = record checkpoint { segments = map (λ w. w.segment) ws }
