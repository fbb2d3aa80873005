-- ===== src/Http/Stream/Delivers.antt =====
-- What a transfer that is not cut into segments leaves on the disk
-- (backend/internal/protocol/http/downloader.go).
use downpeed_fluter.Base.{
  on_test, ltb_ℤ, eqb_ℤ, ℕ, ◌<◌, ◌≡◌, ◌∙◌, inl, refl, sym, ap, subst, arith, true, false, not, ◌&&◌,
  List, [], ◌++◌, length, Option, none, some, Text, if◌then◌else◌, Outcome, ok, err, pos, negsuc, ℤ,
  on_option, on_either,
}
use mathlib.Core.List.{append-nil}
use downpeed_fluter.Http.Download.{
  World, Disk, free_entry, linked_as, absent, publish_completed_file, regular, LinkAnswer,
  clean_work, linked, link_exists, link_failed, check_transfer, open_work,
}
use downpeed_fluter.Http.Download.Free.{is_free, checked_free}
use downpeed_fluter.Http.Download.Left.{
  held, Opens, Left, clean_work-Left, counted_before, open_work-Opens, held_before,
}
use downpeed_fluter.Http.Stream.{
  Stream, request_headers, complete_file, stream_loop, published, failed_with, streamed, has_size,
  answered_with, requested, opened, transferred, download, is_segmented, TransferRequest,
  TransferResult, TransferError, or_else, ParsedUrl, Response, DownloadError, check_response,
  or_url,
}
use downpeed_fluter.Http.Stream.Grows.{Grown, stream_loop-Grown}
use downpeed_fluter.Http.Segment.Whole.{body_in}

-- The bytes that the server sends, none if all were there.
abbrev pub sent_by : World → TransferRequest → List ℕ
sent_by world input =
    if ltb_ℤ (pos 0) input.expected_size && eqb_ℤ input.offset input.expected_size
    then []
    else body_in (world.answer (request_headers input))

-- Success: nothing stood at the destination, and now it has the bytes that were there and those that were
-- sent, as many as were expected. Failure: the destination is as it was, and the work file as cleaning
-- leaves it.
abbrev pub Delivered :
    World → TransferRequest → Disk → Disk × Outcome TransferError TransferResult → Type 0
Delivered world input d (d', ok result) =
    (d.destination ≡ absent)
    × (world.appeared ≡ absent)
    × (d' ≡ record {
      work = if world.remove_fails then regular (held d.work ++ sent_by world input) else absent;
      destination = regular (held d.work ++ sent_by world input);
    })
    × (result.size ≡ pos (length (held d.work ++ sent_by world input)))
    × (ltb_ℤ (pos 0) input.expected_size ≡ true → result.size ≡ input.expected_size)
Delivered world input d (d', err e) =
    (d'.destination ≡ d.destination) × Left world world.cause d.work d'.work

same_ℤ : (a b : ℤ) → eqb_ℤ a b ≡ true → a ≡ b
same_ℤ (pos n) (pos k) h = ap pos (ground arith)
same_ℤ (pos n) (negsuc k) h = absurd (ground arith)
same_ℤ (negsuc n) (pos k) h = absurd (ground arith)
same_ℤ (negsuc n) (negsuc k) h = ap negsuc (ground arith)

module _ (world : World) (input : TransferRequest) (d : Disk) (free : d.destination ≡ absent) where
  abbrev whole : List ℕ
  whole = held d.work ++ sent_by world input

  -- The result tells the size of the whole file.
  abbrev Sized : List ℕ → TransferResult → Type 0
  Sized now result =
      (now ≡ whole)
      × (result.size ≡ pos (length whole))
      × (ltb_ℤ (pos 0) input.expected_size ≡ true → result.size ≡ input.expected_size)

  linked-Delivered :
      (now : List ℕ) (result : TransferResult) (answer : LinkAnswer)
      → Left world world.cause d.work (clean_work world input.offset now)
      → Sized now result
      → world.appeared ≡ absent
      → Delivered world input d (
          published world input.offset now result
            (linked_as world answer (record d { work = regular now })))
  linked-Delivered now result linked left sized appeared = (
    free,
    appeared,
    ap
        (λ b. record {
          work = if world.remove_fails then regular b else absent;
          destination = regular b;
        })
        sized.0,
    sized.1,
    sized.2,
  )
  linked-Delivered now result link_exists left sized appeared = (refl, left)
  linked-Delivered now result link_failed left sized appeared = (refl, left)

  complete_file-Delivered :
      (now : List ℕ) (result : TransferResult)
      → Left world world.cause d.work (clean_work world input.offset now)
      → Sized now result
      → Delivered world input d (complete_file world input.offset now result d)
  unfolding complete_file publish_completed_file
  complete_file-Delivered now result left sized =
      on_option (Delivered world input d)
        (λ o. elim o [
          | some e ↦ failed_with world input.offset now d e
          | none ↦
              published world input.offset now result
                (publish_completed_file world (record d { work = regular now }))
        ])
        (or_else world.sync world.close)
        (on_either (Delivered world input d)
          (λ o. published world input.offset now result (elim o [
            | some e ↦ (record d { work = regular now }, some e)
            | none ↦ linked_as world world.link (record d { work = regular now })
          ]))
          (free_entry world.appeared)
          (λ h. linked-Delivered now result world.link left sized (is_free world.appeared h))
          (λ e _. (refl, left)))
        (λ e _. (refl, left))

  has_expected :
      (total downloaded : ℤ)
      → not (has_size input total downloaded) ≡ false
      → ltb_ℤ (pos 0) input.expected_size ≡ true
      → downloaded ≡ input.expected_size
  has_expected total downloaded h positive = same_ℤ downloaded input.expected_size (ground arith)

  module _ (before : List ℕ) (opens : Opens input.offset d.work before) where
    extended :
        (now part : List ℕ)
        → now ≡ before ++ part
        → Left world world.cause d.work (clean_work world input.offset now)
    extended now part same =
        subst (λ (b : List ℕ). Left world world.cause d.work (clean_work world input.offset b))
          (sym same) (clean_work-Left world input.offset part opens)

    streamed-Delivered :
        (url : Text) (total : ℤ) (x : Stream × Option TransferError)
        → Grown before (sent_by world input) x
        → Delivered world input d (streamed world input url total d x)
    streamed-Delivered url total (s, some e) (part, same) = (refl, extended s.bytes part same)
    streamed-Delivered url total (s, none) g =
        on_test (Delivered world input d) (not (has_size input total s.downloaded))
          (λ _. (refl, extended s.bytes (sent_by world input) g.holds))
          (λ h.
            complete_file-Delivered s.bytes (record { final_url = url; size = s.downloaded })
              (extended s.bytes (sent_by world input) g.holds)
              (
                g.holds ∙ as_held (sent_by world input),
                g.counts ∙ ap (λ b. pos (length b)) (as_held (sent_by world input)),
                has_expected total s.downloaded h,
              ))
      where
        as_held : (part : List ℕ) → before ++ part ≡ held d.work ++ part
        as_held part = ap (λ b. b ++ part) (sym (held_before world input.offset opens))

    answered-Delivered :
        (url : ParsedUrl) (response : Response) (checked : Outcome DownloadError ℤ)
        → body_in (ok response) ≡ sent_by world input
        → length (held d.work ++ sent_by world input) < 9223372036854775808
        → Delivered world input d (answered_with world input url before d response checked)
    answered-Delivered url response (err e) same small =
        (refl, extended before [] (sym (append-nil before)))
    answered-Delivered url response (ok total) same small =
        streamed-Delivered (or_url url.printed response.request_url) total _ (
          subst
            (λ (b : List ℕ). Grown before b (
              stream_loop response.reads response.last response.read_error
                (record { bytes = before; downloaded = input.offset })))
            same
            (stream_loop-Grown before [] response.reads response.last response.read_error
              (record { bytes = before; downloaded = input.offset })
              (record {
                holds = sym (append-nil before);
                counts =
                    counted_before world input.offset opens
                    ∙ ap (λ b. pos (length b)) (sym (append-nil before));
              })
              (subst (λ (b : List ℕ). length b < 9223372036854775808)
                (ap (λ b. b ++ sent_by world input) (held_before world input.offset opens)
                  ∙ ap (λ b. before ++ b) (sym same))
                small)))

    requested-Delivered :
        (url : ParsedUrl) (answer : Outcome TransferError Response)
        → body_in answer ≡ sent_by world input
        → length (held d.work ++ sent_by world input) < 9223372036854775808
        → Delivered world input d (requested world input url before d answer)
    requested-Delivered url (err e) same small =
        (refl, extended before [] (sym (append-nil before)))
    requested-Delivered url (ok response) same small =
        answered-Delivered url response (check_response world.reformat input response) same small

  pub opened-Delivered :
      (url : ParsedUrl) (o : Outcome DownloadError (List ℕ))
      → ((before : List ℕ) → o ≡ ok before → Opens input.offset d.work before)
      → length (held d.work ++ sent_by world input) < 9223372036854775808
      → Delivered world input d (opened world input url d o)
  opened-Delivered url (err e) opens small = (refl, inl refl)
  opened-Delivered url (ok before) opens small =
      on_test (Delivered world input d)
        (ltb_ℤ (pos 0) input.expected_size && eqb_ℤ input.offset input.expected_size)
        (λ there.
          complete_file-Delivered before (record { final_url = url.printed; size = input.offset })
            (extended before (opens before refl) before [] (sym (append-nil before)))
            (
              no_more before (opens before refl) there,
              counted_before world input.offset (opens before refl)
                  ∙ ap (λ b. pos (length b)) (no_more before (opens before refl) there),
              λ _. same_ℤ input.offset input.expected_size (ground arith),
            ))
        (λ not_there.
          requested-Delivered before (opens before refl) url (world.answer (request_headers input))
            (sym (
              ap (λ t. if t then [] else body_in (world.answer (request_headers input))) not_there))
            small)
    where
      no_more :
          (before : List ℕ)
          → Opens input.offset d.work before
          → (ltb_ℤ (pos 0) input.expected_size && eqb_ℤ input.offset input.expected_size) ≡ true
          → before ≡ whole
      no_more before o there =
          sym (append-nil before)
          ∙ ap (λ b. b ++ []) (sym (held_before world input.offset o))
          ∙ ap
              (λ t.
                held d.work ++ (if t then [] else body_in (world.answer (request_headers input))))
              (sym there)

-- Download of a file that is not cut into segments, all of whose bytes are fewer than 2 ^ 63. If it
-- succeeds, nothing stood at the destination, neither before nor when the file was complete; now the
-- bytes that the work file had and all those that the server sent, if any were missing, stand there, and
-- the work file is gone, unless it could not be removed; the result tells the size, which is the expected
-- one, if one is known. If it fails, the destination is as it was and so is the work file, but that bytes
-- may stand behind those that were there if the transfer was paused or stopped or the file could not be
-- removed or cut, and that a cancelled transfer removes it.
pub download-Delivered :
    (segmented : Disk → Disk × Outcome TransferError TransferResult) (world : World)
    (input : TransferRequest) (d : Disk)
    → is_segmented input ≡ false
    → length (held d.work ++ sent_by world input) < 9223372036854775808
    → Delivered world input d (download segmented world input d)
unfolding download
download-Delivered segmented world input d whole small =
    on_outcome (check_transfer world input d) refl
  where
    on_outcome :
        (o : Outcome DownloadError ParsedUrl)
        → check_transfer world input d ≡ o
        → Delivered world input d (transferred segmented world input d o)
    on_outcome (err e) h = (refl, inl refl)
    on_outcome (ok url) h =
        on_test (Delivered world input d) (is_segmented input) (λ segments. cc)
          (λ _.
            opened-Delivered world input d (checked_free world input d url h) url
              (open_work world input.offset d.work) (open_work-Opens world input.offset d.work)
              small)
