-- ===== src/Http/Segment.antt =====
-- downloadSegment (backend/internal/protocol/http/segmented_downloader.go).
pub mod Exact
pub mod Whole
use downpeed_fluter.Base.{
  ◌^◌, dec_lt, on_test, All, ◌↔◌, Text-discrete, if_pos, if_neg, ite, Option-cases, is_some, any,
  all, map, ltb_ℤ, leb_ℤ, eqb_ℤ, Table, lookup, insert, delete, Member, length-append, ℕ, zero, suc,
  ◌+◌, ◌-◌, ◌*◌, ◌/◌, ◌%◌, ◌≤◌, ◌<◌, ◌≡◌, ◌≢◌, ◌∙◌, ◌⊎◌, inl, inr, refl, sym, ap, subst, arith,
  Bool, true, false, not, ◌&&◌, ◌||◌, List, [], ◌∷◌, ◌++◌, length, Option, none, some, Text, text,
  if◌then◌else◌, Outcome, ok, err, Bool-cases, ltb, leb, ◌==◌, pos, negsuc, ℤ, ◌+64◌, pos_part,
  ◌-64◌, take,
}
use downpeed_fluter.Checkpoint.{SegmentProgress}
use downpeed_fluter.Http.Exchange.{
  Read, is_temporary_http_status, apply_resource_validator, Response, resource_validator_changed,
  is_encoded, identity_headers, set_header,
}
use downpeed_fluter.Errors.{
  DownloadError, TransferError, unexpected_eof, sentinel, resume_not_supported, remote_temporary,
  remote_changed, file_consistency,
}
use downpeed_fluter.Task.{TransferRequest}
use downpeed_fluter.Http.ContentRange.{parse_resume_content_range}
use downpeed_fluter.Numbers.{format_uint}

-- The bytes of the work file, by their places.
abbrev pub File : Type 0
File = ℕ → ℕ

abbrev pub put : ℕ → ℕ → File → File
put at byte file place = if place == at then byte else file place

-- writeAllAt
unfoldable pub write_at : ℕ → List ℕ → File → File
write_at at [] file = file
write_at at (byte ∷ bytes) file = write_at (suc at) bytes (put at byte file)

-- Where the segment goes on, and how much of it is missing.
abbrev pub segment_start : SegmentProgress → ℤ
segment_start segment = segment.start +64 segment.completed

unfoldable pub segment_remaining : SegmentProgress → ℤ
segment_remaining segment = (segment.end -64 segment_start segment) +64 pos 1

-- The file, and how many bytes were received.
pub record Progress : Type 0 where
  pub file : File
  pub received : ℤ

abbrev pub written :
    ℤ → Read → Progress → Option (ℕ × TransferError) → Progress × Option TransferError
written start r p (some (count, e)) = (
  record p { file = write_at (pos_part (start +64 p.received)) (take count r.bytes) p.file },
  some e,
)
written start r p none = (
  record {
    file = write_at (pos_part (start +64 p.received)) r.bytes p.file;
    received = p.received +64 pos (length r.bytes);
  },
  none,
)

-- What is done with the bytes of one call of Read.
unfoldable pub take_bytes : ℤ → ℤ → Read → Progress → Progress × Option TransferError
unfolding write_at
take_bytes start remaining r p =
    if length r.bytes == 0
    then (p, none)
    else if ltb_ℤ remaining (p.received +64 pos (length r.bytes))
    then (p, some (sentinel resume_not_supported))
    else elim r.limited [ some e ↦ (p, some e) | none ↦ written start r p r.write_fails ]

abbrev pub or_else : Option TransferError → Option TransferError → Option TransferError
or_else none e = e
or_else (some e) later = some e

-- The loop. The last call of Read comes with io.EOF or another error.
unfoldable pub read_loop :
    ℤ → ℤ → List Read → Read → Option TransferError → Progress → Progress × Option TransferError
unfolding take_bytes
read_loop start remaining [] last read_error p =
    let (p', failure) = take_bytes start remaining last p in (p', or_else failure read_error)
read_loop start remaining (r ∷ reads) last read_error p =
    let (p', failure) = take_bytes start remaining r p in
    elim (or_else failure r.context_error) [
      | some e ↦ (p', some e)
      | none ↦ read_loop start remaining reads last read_error p'
    ]

abbrev pub finished :
    ℤ → Text → Progress × Option TransferError → Progress × Outcome TransferError Text
finished remaining url (p, some e) = (p, err e)
finished remaining url (p, none) =
    if not (eqb_ℤ p.received remaining) then (p, err unexpected_eof) else (p, ok url)

abbrev pub is_range : ℤ → ℤ → Outcome DownloadError (ℤ × ℤ) → Bool
is_range total remaining (err e) = false
is_range total remaining (ok (reported_total, reported_length)) =
    eqb_ℤ reported_total total && eqb_ℤ reported_length remaining

abbrev pub or_url : Text → Option Text → Text
or_url url none = url
or_url url (some other) = other

-- The checks of the answer, in the order of the code.
unfoldable pub check_segment_response :
    (Text → Option Text) → TransferRequest → ℤ → ℤ → ℤ → Response → Option DownloadError
unfolding is_temporary_http_status apply_resource_validator resource_validator_changed is_encoded
    parse_resume_content_range
check_segment_response reformat input start remaining total response =
    if is_temporary_http_status response.status
    then some remote_temporary
    else if not (response.status == 206)
    then (if is_some (apply_resource_validator input.validator true)
        then some remote_changed
        else some resume_not_supported)
    else if resource_validator_changed reformat input.validator response
    then some remote_changed
    else if is_encoded response.content_encoding
    then some file_consistency
    else if not (is_range total remaining (parse_resume_content_range response.content_range start))
    then some resume_not_supported
    else if leb_ℤ (pos 0) response.content_length && not (eqb_ℤ response.content_length remaining)
    then some resume_not_supported
    else none

abbrev pub received_segment :
    Text
    → SegmentProgress
    → File
    → Response
    → Option DownloadError
    → Progress × Outcome TransferError Text
received_segment url segment file response (some e) =
    (record { file = file; received = pos 0 }, err (sentinel e))
received_segment url segment file response none =
    finished (segment_remaining segment) (or_url url response.request_url) (
      read_loop (segment_start segment) (segment_remaining segment) response.reads response.last
        response.read_error (record { file = file; received = pos 0 }))

unfoldable pub answered_segment :
    (Text → Option Text)
    → TransferRequest
    → Text
    → File
    → SegmentProgress
    → ℤ
    → Outcome TransferError Response
    → Progress × Outcome TransferError Text
unfolding check_segment_response read_loop segment_remaining
answered_segment reformat input url file segment total (err e) =
    (record { file = file; received = pos 0 }, err e)
answered_segment reformat input url file segment total (ok response) =
    received_segment url segment file response (
      check_segment_response reformat input (segment_start segment) (segment_remaining segment)
        total response)

-- A Go int64 as %d prints it.
abbrev printed_int : ℤ → Text
printed_int (pos n) = format_uint 10 n
printed_int (negsuc n) = b'-' ∷ format_uint 10 (suc n)

unfoldable pub segment_headers : TransferRequest → SegmentProgress → Table Text
unfolding identity_headers set_header format_uint apply_resource_validator
segment_headers input segment =
    let ranged =
      set_header (text "Range")
        (text "bytes="
          ++ (printed_int (segment_start segment) ++ (text "-" ++ printed_int segment.end)))
        (identity_headers input) in
    elim (apply_resource_validator input.validator true) [
      | none ↦ ranged
      | some (name, value) ↦ set_header name value ranged
    ]

-- The segment's transfer, where a request with its headers is answered, or is an error; and what onWrite
-- was told in all.
unfoldable pub download_segment :
    (Text → Option Text)
    → TransferRequest
    → Text
    → File
    → SegmentProgress
    → ℤ
    → (Table Text → Outcome TransferError Response)
    → Progress × Outcome TransferError Text
unfolding answered_segment segment_headers
download_segment reformat input url file segment total answer =
    answered_segment reformat input url file segment total (answer (segment_headers input segment))
