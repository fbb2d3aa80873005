-- ===== src/Http/Stream.antt =====
-- Download from the opened work file on: the request, the checks of the answer, the loop over the body
-- and the end (backend/internal/protocol/http/downloader.go).
pub mod Grows
pub mod Delivers
use downpeed_fluter.Base.{
  ◌^◌, dec_lt, on_test, All, ◌↔◌, Text-discrete, if_pos, if_neg, ite, Option-cases, is_some, any,
  all, map, ltb_ℤ, leb_ℤ, eqb_ℤ, Table, lookup, insert, delete, Member, length-append, ℕ, zero, suc,
  ◌+◌, ◌-◌, ◌*◌, ◌/◌, ◌%◌, ◌≤◌, ◌<◌, ◌≡◌, ◌≢◌, ◌∙◌, ◌⊎◌, inl, inr, refl, sym, ap, subst, arith,
  Bool, true, false, not, ◌&&◌, ◌||◌, List, [], ◌∷◌, ◌++◌, length, Option, none, some, Text, text,
  if◌then◌else◌, Outcome, ok, err, Bool-cases, ltb, leb, ◌==◌, pos, negsuc, ℤ, take, pos_part,
  ◌+64◌,
}
use downpeed_fluter.Numbers.{format_uint}
use downpeed_fluter.Task.{TransferRequest, TransferResult}
use downpeed_fluter.Http.Exchange.{
  Read, Response, is_temporary_http_status, apply_resource_validator, resource_validator_changed,
  is_encoded, set_header, identity_headers,
}
use downpeed_fluter.Http.Download.{
  Disk, World, check_transfer, publish_completed_file, clean_work, open_work, regular,
}
use downpeed_fluter.Errors.{
  DownloadError, TransferError, resume_not_supported, file_consistency, sentinel, remote_temporary,
  remote_changed, remote_rejected,
}
use downpeed_fluter.Manager.Create.{ParsedUrl}
use downpeed_fluter.Checkpoint.{default_segmented_transfer_min_size}
use downpeed_fluter.Http.Segment.{or_else, or_url}
use downpeed_fluter.Http.ContentRange.{parse_resume_content_range}

-- The headers of the request.
unfoldable pub request_headers : TransferRequest → Table Text
unfolding set_header format_uint apply_resource_validator
request_headers input =
    let identity = identity_headers input in
    let ranged =
      if ltb_ℤ (pos 0) input.offset
      then set_header (text "Range")
          (text "bytes=" ++ (format_uint 10 (pos_part input.offset) ++ text "-")) identity
      else identity in
    elim (apply_resource_validator input.validator (ltb_ℤ (pos 0) input.offset)) [
      | none ↦ ranged
      | some (name, value) ↦ set_header name value ranged
    ]

abbrev pub conditional : TransferRequest → Bool
conditional input = is_some (apply_resource_validator input.validator (ltb_ℤ (pos 0) input.offset))

-- The total of a resumed transfer.
abbrev pub resumed_total : Response → Outcome DownloadError (ℤ × ℤ) → Outcome DownloadError ℤ
resumed_total response (err e) = err e
resumed_total response (ok (total, range_length)) =
    if leb_ℤ (pos 0) response.content_length && not (eqb_ℤ response.content_length range_length)
    then err resume_not_supported
    else ok total

abbrev pub expected_total : TransferRequest → Outcome DownloadError ℤ → Outcome DownloadError ℤ
expected_total input (err e) = err e
expected_total input (ok total) =
    if ltb_ℤ (pos 0) input.expected_size
      && leb_ℤ (pos 0) total
      && not (eqb_ℤ total input.expected_size)
    then err file_consistency
    else ok total

-- The checks of the answer, and the total that it tells, which is negative if it is not known.
unfoldable pub check_response :
    (Text → Option Text) → TransferRequest → Response → Outcome DownloadError ℤ
unfolding is_temporary_http_status apply_resource_validator resource_validator_changed is_encoded
    parse_resume_content_range
check_response reformat input response =
    let resumes = ltb_ℤ (pos 0) input.offset in
    if is_temporary_http_status response.status
    then err remote_temporary
    else if response.status == 412 && conditional input
    then err remote_changed
    else if resumes && not (response.status == 206)
    then (if conditional input then err remote_changed else err resume_not_supported)
    else if eqb_ℤ input.offset (pos 0) && (ltb response.status 200 || leb 300 response.status)
    then err remote_rejected
    else if resource_validator_changed reformat input.validator response
    then err remote_changed
    else if is_encoded response.content_encoding
    then err file_consistency
    else expected_total input (
        if resumes
        then resumed_total response (parse_resume_content_range response.content_range input.offset)
        else ok response.content_length)

-- The work file, and how many bytes of the whole file there are.
pub record Stream : Type 0 where
  pub bytes : List ℕ
  pub downloaded : ℤ

abbrev pub appended : Read → Stream → Option (ℕ × TransferError) → Stream × Option TransferError
appended r s (some (count, e)) = (record s { bytes = s.bytes ++ take count r.bytes }, some e)
appended r s none = (
  record { bytes = s.bytes ++ r.bytes; downloaded = s.downloaded +64 pos (length r.bytes) },
  none,
)

unfoldable pub append_bytes : Read → Stream → Stream × Option TransferError
append_bytes r s =
    if length r.bytes == 0
    then (s, none)
    else elim r.limited [ some e ↦ (s, some e) | none ↦ appended r s r.write_fails ]

unfoldable pub stream_loop :
    List Read → Read → Option TransferError → Stream → Stream × Option TransferError
unfolding append_bytes
stream_loop [] last read_error s =
    let (s', failure) = append_bytes last s in (s', or_else failure read_error)
stream_loop (r ∷ reads) last read_error s =
    let (s', failure) = append_bytes r s in
    elim (or_else failure r.context_error) [
      | some e ↦ (s', some e)
      | none ↦ stream_loop reads last read_error s'
    ]

-- The work file is left as the deferred function leaves it.
abbrev pub failed_with :
    World → ℤ → List ℕ → Disk → TransferError → Disk × Outcome TransferError TransferResult
failed_with world offset now d e = (record d { work = clean_work world offset now }, err e)

abbrev pub published :
    World
    → ℤ
    → List ℕ
    → TransferResult
    → Disk × Option DownloadError
    → Disk × Outcome TransferError TransferResult
published world offset now result (d, some e) = failed_with world offset now d (sentinel e)
published world offset now result (d, none) = (d, ok result)

-- Sync, Close, and the publication.
unfoldable pub complete_file :
    World → ℤ → List ℕ → TransferResult → Disk → Disk × Outcome TransferError TransferResult
unfolding publish_completed_file clean_work
complete_file world offset now result d = elim (or_else world.sync world.close) [
  | some e ↦ failed_with world offset now d e
  | none ↦
      published world offset now result
        (publish_completed_file world (record d { work = regular now }))
]

abbrev pub has_size : TransferRequest → ℤ → ℤ → Bool
has_size input total downloaded =
    not (leb_ℤ (pos 0) total && not (eqb_ℤ downloaded total))
    && not (ltb_ℤ (pos 0) input.expected_size && not (eqb_ℤ downloaded input.expected_size))

abbrev pub streamed :
    World
    → TransferRequest
    → Text
    → ℤ
    → Disk
    → Stream × Option TransferError
    → Disk × Outcome TransferError TransferResult
streamed world input url total d (s, some e) = failed_with world input.offset s.bytes d e
streamed world input url total d (s, none) =
    if not (has_size input total s.downloaded)
    then failed_with world input.offset s.bytes d (sentinel file_consistency)
    else complete_file world input.offset s.bytes (record { final_url = url; size = s.downloaded })
        d

abbrev pub answered_with :
    World
    → TransferRequest
    → ParsedUrl
    → List ℕ
    → Disk
    → Response
    → Outcome DownloadError ℤ
    → Disk × Outcome TransferError TransferResult
answered_with world input url before d response (err e) =
    failed_with world input.offset before d (sentinel e)
answered_with world input url before d response (ok total) =
    streamed world input (or_url url.printed response.request_url) total d (
      stream_loop response.reads response.last response.read_error
        (record { bytes = before; downloaded = input.offset }))

abbrev pub requested :
    World
    → TransferRequest
    → ParsedUrl
    → List ℕ
    → Disk
    → Outcome TransferError Response
    → Disk × Outcome TransferError TransferResult
requested world input url before d (err e) = failed_with world input.offset before d e
requested world input url before d (ok response) =
    answered_with world input url before d response (check_response world.reformat input response)

-- All the bytes may be there already.
abbrev pub opened :
    World
    → TransferRequest
    → ParsedUrl
    → Disk
    → Outcome DownloadError (List ℕ)
    → Disk × Outcome TransferError TransferResult
opened world input url d (err e) = (d, err (sentinel e))
opened world input url d (ok before) =
    if ltb_ℤ (pos 0) input.expected_size && eqb_ℤ input.offset input.expected_size
    then complete_file world input.offset before
        (record { final_url = url.printed; size = input.offset }) d
    else requested world input url before d (world.answer (request_headers input))

abbrev pub is_segmented : TransferRequest → Bool
is_segmented input =
    is_some input.checkpoint
    || (input.allow_segments && leb_ℤ default_segmented_transfer_min_size input.expected_size)

abbrev pub transferred :
    (Disk → Disk × Outcome TransferError TransferResult)
    → World
    → TransferRequest
    → Disk
    → Outcome DownloadError ParsedUrl
    → Disk × Outcome TransferError TransferResult
transferred segmented world input d (err e) = (d, err (sentinel e))
transferred segmented world input d (ok url) =
    if is_segmented input
    then segmented d
    else opened world input url d (open_work world input.offset d.work)

-- Download, where `segmented` is downloadSegmented. Progress is not reported here.
unfoldable pub download :
    (Disk → Disk × Outcome TransferError TransferResult)
    → World
    → TransferRequest
    → Disk
    → Disk × Outcome TransferError TransferResult
unfolding check_transfer open_work complete_file check_response stream_loop request_headers
    clean_work
download segmented world input d =
    transferred segmented world input d (check_transfer world input d)
