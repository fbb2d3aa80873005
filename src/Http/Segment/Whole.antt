-- ===== src/Http/Segment/Whole.antt =====
-- A segment's transfer writes the segment and nothing else
-- (backend/internal/protocol/http/segmented_downloader.go).
use downpeed_fluter.Base.{
  on_test, All, all, eqb_ℤ, ℕ, suc, ◌+◌, ◌-◌, ◌≤◌, ◌<◌, ◌≡◌, ◌∙◌, ◌⊎◌, inl, inr, refl, ap, arith,
  false, not, List, [], ◌∷◌, length, Option, none, some, Text, Outcome, ok, err, pos, ℤ, ◌-64◌,
  ◌+64◌, +64-pos, -64-pos, Table,
}
use downpeed_fluter.Http.Segment.{
  File, write_at, Progress, put, TransferError, finished, Response, download_segment,
  SegmentProgress, segment_remaining, segment_start, DownloadError, TransferRequest,
  received_segment, or_url, answered_segment, segment_headers,
}
use downpeed_fluter.Http.Segment.Exact.{Within, Looped, Fits, body_of, loop-Looped}

pub write_at-outside :
    (at : ℕ) (b : List ℕ) (file : File) (i : ℕ)
    → (i < at) ⊎ (at + length b ≤ i)
    → write_at at b file i ≡ file i
unfolding write_at
write_at-outside at [] file i h = refl
write_at-outside at (x ∷ b) file i h =
    write_at-outside (suc at) b (put at x file) i (further at (length b) i h)
    ∙ put_elsewhere at x file i (length b) h
  where
    further : (at n i : ℕ) → (i < at) ⊎ (at + suc n ≤ i) → (i < suc at) ⊎ (suc at + n ≤ i)
    further at n i (inl p) = inl (omega arith)
    further at n i (inr p) = inr (omega arith)

    put_elsewhere :
        (at x : ℕ) (file : File) (i n : ℕ) → (i < at) ⊎ (at + suc n ≤ i) → put at x file i ≡ file i
    put_elsewhere at x file i n (inl p) = ground arith
    put_elsewhere at x file i n (inr p) = ground arith

-- From the place `from` to the place `to`: nothing else is changed, and where the transfer succeeds it
-- has put the body there, which is as long.
abbrev pub Exact : ℕ → ℕ → File → List ℕ → Progress × Outcome TransferError Text → Type 0
Exact from to file body (p, result) =
    ((i : ℕ) → (i < from) ⊎ (to < i) → p.file i ≡ file i)
    × ((url : Text)
        → result ≡ ok url
        → (p.file ≡ write_at from body file)
          × (from + length body ≡ suc to)
          × (p.received ≡ pos (length body)))

module _ (from to : ℕ) (file : File) (order : from ≤ to)
    (small : to + 65537 < 9223372036854775808) where
  room : from + (suc to - from) + 65536 < 9223372036854775808
  room = omega arith

  outside :
      (p : Progress)
      → Within from (suc to - from) file room p
      → (i : ℕ) → (i < from) ⊎ (to < i)
      → p.file i ≡ file i
  outside p (b, same, fits) i h =
      ap (λ (f : File). f i) same
      ∙ write_at-outside from b file i (elim h [ inl k ↦ inl k | inr k ↦ inr (omega arith) ])

  finished-Exact :
      (body : List ℕ) (url : Text) (x : Progress × Option TransferError)
      → Looped from (suc to - from) file room body x
      → Exact from to file body (finished (pos (suc to - from)) url x)
  finished-Exact body url (p, some e) h = (outside p h, λ url' k. cc)
  finished-Exact body url (p, none) h =
      on_test (Exact from to file body) (not (eqb_ℤ p.received (pos (suc to - from))))
        (λ _. (outside p (body, h.writes, h.within), λ url' k. cc))
        (λ all. (
          outside p (body, h.writes, h.within),
          λ url' k. (h.writes, complete (length body) p.received h.counts all, h.counts),
        ))
    where
      complete :
          (k : ℕ) (r : ℤ)
          → r ≡ pos k
          → not (eqb_ℤ r (pos (suc to - from))) ≡ false
          → from + k ≡ suc to
      complete k r is all = ground arith

-- What a segment that is not complete still needs.
abbrev pub Needs : SegmentProgress → ℕ → ℕ → Type 0
Needs segment from to =
    (done : ℕ) × (segment.completed ≡ pos done)
    × (done ≤ from)
    × (segment.start ≡ pos (from - done))
    × (segment.end ≡ pos to)
    × (from ≤ to)

abbrev pub body_in : Outcome TransferError Response → List ℕ
body_in (err e) = []
body_in (ok response) = body_of response.reads response.last

abbrev pub FitsIn : Outcome TransferError Response → Type 0
FitsIn (err e) = Unit {0}
FitsIn (ok response) = All Fits response.reads × Fits response.last

start_at :
    (segment : SegmentProgress) (from to : ℕ)
    → Needs segment from to
    → to + 65537 < 9223372036854775808
    → segment_start segment ≡ pos from
start_at segment from to (done, completed, low, start, _, order) small =
    ap (λ x. x +64 segment.completed) start
    ∙ ap (λ x. pos (from - done) +64 x) completed
    ∙ +64-pos (from - done) done (omega arith)
    ∙ ap pos (omega arith)

remaining_at :
    (segment : SegmentProgress) (from to : ℕ)
    → Needs segment from to
    → to + 65537 < 9223372036854775808
    → segment_remaining segment ≡ pos (suc to - from)
unfolding segment_remaining
remaining_at segment from to (done, completed, low, start, end, order) small =
    ap (λ x. (segment.end -64 x) +64 pos 1)
      (start_at segment from to (done, completed, low, start, end, order) small)
    ∙ ap (λ x. (x -64 pos from) +64 pos 1) end
    ∙ ap (λ x. x +64 pos 1) (-64-pos to from order (omega arith))
    ∙ +64-pos (to - from) 1 (omega arith)
    ∙ ap pos (omega arith)

checked-Exact :
    (url : Text) (segment : SegmentProgress) (from to : ℕ) (file : File) (response : Response)
    (o : Option DownloadError)
    → Needs segment from to
    → to + 65537 < 9223372036854775808
    → FitsIn (ok response)
    → Exact from to file (body_in (ok response)) (received_segment url segment file response o)
unfolding write_at
checked-Exact url segment from to file response (some e) needs small fits =
    ((λ i h. refl), λ url' k. cc)
checked-Exact url segment from to file response none needs small (few, few') =
    rw (start_at segment from to needs small, remaining_at segment from to needs small)
      (finished-Exact from to file needs.5 small (body_in (ok response))
        (or_url url response.request_url) _
        (loop-Looped from (suc to - from) file (room from to file needs.5 small) [] response.reads
          response.last response.read_error (record { file = file; received = pos 0 })
          (record { writes = refl; counts = refl; within = omega arith }) few few'))

answered-Exact :
    (reformat : Text → Option Text) (input : TransferRequest) (url : Text) (file : File)
    (segment : SegmentProgress) (total : ℤ) (answer : Outcome TransferError Response) (from to : ℕ)
    → Needs segment from to
    → to + 65537 < 9223372036854775808
    → FitsIn answer
    → Exact from to file
        (body_in answer)
        (answered_segment reformat input url file segment total answer)
unfolding answered_segment
answered-Exact reformat input url file segment total (err e) from to needs small fits =
    ((λ i h. refl), λ url' k. cc)
answered-Exact reformat input url file segment total (ok response) from to needs small fits =
    checked-Exact url segment from to file response _ needs small fits

-- Whatever the server sends, in pieces of at most 64 KiB, and whatever fails, the transfer of a segment
-- changes no byte of the work file outside the places that the segment still needs; and if it succeeds,
-- the body that was sent stands in exactly these places, and as many bytes have been reported. The
-- segment ends 64 KiB below 2 ^ 63.
pub segment-Exact :
    (reformat : Text → Option Text) (input : TransferRequest) (url : Text) (file : File)
    (segment : SegmentProgress) (total : ℤ) (answer : Table Text → Outcome TransferError Response)
    (from to : ℕ)
    → Needs segment from to
    → to + 65537 < 9223372036854775808
    → FitsIn (answer (segment_headers input segment))
    → Exact from to file
        (body_in (answer (segment_headers input segment)))
        (download_segment reformat input url file segment total answer)
unfolding download_segment
segment-Exact reformat input url file segment total answer from to needs small fits =
    answered-Exact reformat input url file segment total (answer (segment_headers input segment))
      from to needs small fits
