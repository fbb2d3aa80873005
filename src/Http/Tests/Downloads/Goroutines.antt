-- ===== src/Http/Tests/Downloads/Goroutines.antt =====
-- Two goroutines that share a file of four bytes.
use downpeed_fluter.Base.{
  All, Text-discrete, map, Table, lookup, ℕ, ◌*◌, ◌<◌, ◌≡◌, inr, refl, ap, arith, false, List, [],
  ◌∷◌, none, some, Text, text, if◌then◌else◌, Outcome, ok, err, pos, ◌+64◌, ◌-64◌,
}
use downpeed_fluter.Errors.{TransferError, remote_temporary, sentinel}
use downpeed_fluter.Http.Exchange.{identity_headers, Response}
use downpeed_fluter.Checkpoint.{SegmentProgress, TransferCheckpoint, validate_transfer_checkpoint}
use downpeed_fluter.Checkpoint.Layout.{Describes}
use downpeed_fluter.Http.Segment.{File}
use downpeed_fluter.Http.Tests.Downloads.{request, read_of, partial}
use downpeed_fluter.Http.Workers.{
  Worker, Reach, launch, segment_reads, read_turn, report_turn, shared_checkpoint, next, start,
  later, first, reading, reporting,
}
use downpeed_fluter.Http.Workers.Resumable.{Kept, Honest}
use downpeed_fluter.Http.Workers.Stops.{any_stop_resumes}
use downpeed_fluter.Http.Exchange.{Read, identity_headers}
use downpeed_fluter.Paths.{text_eq}

-- The byte at each place of the file on the server.
abbrev tens : ℕ → ℕ
tens i = i * 10

abbrev nothing_yet : File
nothing_yet i = 0

abbrev two_halves : TransferCheckpoint
two_halves = record {
  version = pos 1;
  total = pos 4;
  segments =
      record { start = pos 0; end = pos 1; completed = pos 1 }
      ∷ record { start = pos 2; end = pos 3; completed = pos 0 }
      ∷ [];
}

-- The second half is sent; the request for the first one fails.
abbrev second_only : Table Text → Outcome TransferError Response
second_only headers =
    if elim (lookup (text "Range") headers) [
      | none ↦ false
      | some range ↦ text_eq range (text "bytes=2-3")
    ]
    then ok (record partial {
      content_range = text "bytes 2-3/4";
      content_length = pos 2;
      reads = read_of (20 ∷ []) ∷ [];
      last = read_of (30 ∷ []);
    })
    else err (sentinel remote_temporary)

abbrev reads_of : SegmentProgress → List Read
reads_of = segment_reads (λ t. none) request (pos 4) second_only

second_reads :
    reads_of (record { start = pos 2; end = pos 3; completed = pos 0 })
    ≡ read_of (20 ∷ []) ∷ read_of (30 ∷ []) ∷ []
unfolding segment_reads Text-discrete ◌+64◌ ◌-64◌ identity_headers lookup
second_reads = refl

Kept-at_start : All (Kept tens nothing_yet) two_halves.segments
Kept-at_start = (
  (λ i low high. ap (λ n. n * 10) (zero_only i high)),
  ((λ i low high. absurd (omega arith)), tt),
)
  where
    zero_only : (i : ℕ) → i < 1 → 0 ≡ i
    zero_only i high = omega arith

Honest-server : All (Honest tens reads_of) two_halves.segments
unfolding segment_reads Text-discrete ◌+64◌ ◌-64◌ identity_headers lookup
Honest-server = (tt, (((refl, tt), omega arith, ((refl, tt), omega arith, tt)), tt))

-- The first goroutine has failed. The second has read twice, and has only reported the first bytes.
abbrev failed : Worker
failed = launch reads_of (record { start = pos 0; end = pos 1; completed = pos 1 })

abbrev begun : Worker
begun = launch reads_of (record { start = pos 2; end = pos 3; completed = pos 0 })

abbrev once : File × Worker
once = read_turn (read_of (20 ∷ [])) (read_of (30 ∷ []) ∷ []) nothing_yet begun

abbrev twice : File × Worker
twice = read_turn (read_of (30 ∷ [])) [] once.0 (report_turn once.1)

two_reads :
    Reach nothing_yet (map (launch reads_of) two_halves.segments) twice.0 (failed ∷ twice.1 ∷ [])
unfolding launch segment_reads read_turn report_turn Text-discrete ◌+64◌ ◌-64◌ identity_headers
    lookup
two_reads =
    next
      (next
        (next start (
          later failed (first [] (reading (read_of (20 ∷ [])) (read_of (30 ∷ []) ∷ []) refl refl))))
        (later failed (first [] reporting)))
      (later failed (first [] (reading (read_of (30 ∷ [])) [] refl refl)))

two_halves-Describes : Describes two_halves (pos 4) 4 1
two_halves-Describes = record {
  current = refl;
  sized = refl;
  not_empty = omega arith;
  as_expected = inr refl;
  some_segments = omega arith;
  few_segments = omega arith;
  tiled = (1, 1, refl, omega arith, omega arith, (3, 0, refl, omega arith, omega arith, refl));
  counted = refl;
}

any_stop_resumes_example :
    (d : ℕ) × (validate_transfer_checkpoint
        (some (shared_checkpoint two_halves (failed ∷ twice.1 ∷ [])))
        (pos 4)
      ≡ ok (pos d))
    × All (Kept tens twice.0) (shared_checkpoint two_halves (failed ∷ twice.1 ∷ [])).segments
    × (d ≡ 4 → (i : ℕ) → i < 4 → twice.0 i ≡ tens i)
any_stop_resumes_example =
    any_stop_resumes tens (λ t. none) request second_only two_halves (pos 4) 4 1 nothing_yet twice.0
      (failed ∷ twice.1 ∷ []) two_halves-Describes (omega arith) Kept-at_start Honest-server
      two_reads

-- Two bytes are counted, though three are there.
counted_so_far :
    (shared_checkpoint two_halves (failed ∷ twice.1 ∷ [])).segments
    ≡ record { start = pos 0; end = pos 1; completed = pos 1 }
      ∷ record { start = pos 2; end = pos 3; completed = pos 1 }
      ∷ []
unfolding launch segment_reads read_turn report_turn Text-discrete ◌+64◌ ◌-64◌ identity_headers
    lookup
counted_so_far = refl
