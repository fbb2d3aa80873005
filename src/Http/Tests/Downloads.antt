-- ===== src/Http/Tests/Downloads.antt =====
-- Transfers over HTTP: a segment, and a file that is not cut into segments.
pub mod Goroutines
use downpeed_fluter.Base.{
  Text-discrete, ℕ, ◌≡◌, refl, arith, true, false, List, [], ◌∷◌, Option, none, some, text, Outcome,
  ok, err, pos, ◌+64◌, ◌-64◌,
}
use downpeed_fluter.Checkpoint.{SegmentProgress}
use downpeed_fluter.Task.{TransferRequest, TransferResult}
use downpeed_fluter.Http.Segment.{File, download_segment}
use downpeed_fluter.Http.Segment.Whole.{Exact, segment-Exact}
use downpeed_fluter.Http.Download.{World, Disk, absent, regular, linked}
use downpeed_fluter.Http.Stream.{download, request_headers}
use downpeed_fluter.Http.Exchange.{identity_headers}
use downpeed_fluter.Http.Stream.Delivers.{Delivered, download-Delivered}
use downpeed_fluter.Http.Exchange.{Read, Response}
use downpeed_fluter.Errors.{
  DownloadError, TransferError, unexpected_eof, sentinel, invalid_request, transfer_paused,
}

abbrev read_of : List ℕ → Read
read_of bytes = record { bytes = bytes; limited = none; write_fails = none; context_error = none }

-- Three of the ten bytes of a file, from the place 4 on.
abbrev partial : Response
partial = record {
  status = 206;
  content_length = pos 3;
  etag = text "\"a\"";
  last_modified = [];
  content_encoding = [];
  content_range = text "bytes 4-6/10";
  request_url = none;
  reads = read_of (7 ∷ 8 ∷ []) ∷ [];
  last = read_of (9 ∷ []);
  read_error = none;
}

abbrev request : TransferRequest
request = record {
  url = text "http://h/f";
  headers = [];
  destination = text "/d/f";
  work_path = text "/d/f.part";
  offset = pos 4;
  expected_size = pos 7;
  accept_ranges = true;
  allow_segments = true;
  validator = record { etag = text "\"a\""; last_modified = [] };
  checkpoint = none;
}

abbrev second : SegmentProgress
second = record { start = pos 3; end = pos 6; completed = pos 1 }

abbrev zeros : File
zeros i = 0

segment-Exact_example : Exact 4 6 zeros (7 ∷ 8 ∷ 9 ∷ []) (
    download_segment
      (λ t. none)
      request
      (text "http://h/f")
      zeros
      second
      (pos 10)
      (λ headers. ok partial))
segment-Exact_example =
    segment-Exact (λ t. none) request (text "http://h/f") zeros second (pos 10)
      (λ headers. ok partial) 4 6 (1, refl, omega arith, refl, refl, omega arith) (omega arith)
      ((omega arith, tt), omega arith)

segment_run :
    (download_segment
      (λ t. none)
      request
      (text "http://h/f")
      zeros
      second
      (pos 10)
      (λ headers. ok partial)).1
    ≡ ok (text "http://h/f")
unfolding download_segment Text-discrete ◌+64◌ ◌-64◌
segment_run = refl

-- The remaining three bytes of a file of seven are asked for with If-Range and appended.
abbrev answering : Option DownloadError → Response → World
answering cause response = record {
  parse_request_uri = λ t. some (record { scheme = text "http"; host = text "h"; printed = t });
  reformat = λ t. none;
  is_directory = λ t. true;
  open_fails = false;
  answer = λ headers. ok response;
  sync = none;
  close = none;
  appeared = absent;
  link = linked;
  remove_fails = false;
  truncate_fails = false;
  cause = cause;
}

abbrev rest_of_seven : Response
rest_of_seven = record partial { content_range = text "bytes 4-6/7" }

abbrev half_done : Disk
half_done = record { work = regular (3 ∷ 4 ∷ 5 ∷ 6 ∷ []); destination = absent }

abbrev unsegmented : Disk → Disk × Outcome TransferError TransferResult
unsegmented d = (d, err (sentinel invalid_request))

download-Delivered_example :
    Delivered
      (answering none rest_of_seven)
      request
      half_done
      (download unsegmented (answering none rest_of_seven) request half_done)
download-Delivered_example =
    download-Delivered unsegmented (answering none rest_of_seven) request half_done refl
      (omega arith)

download_run : download unsegmented (answering none rest_of_seven) request half_done ≡ (
  record { work = absent; destination = regular (3 ∷ 4 ∷ 5 ∷ 6 ∷ 7 ∷ 8 ∷ 9 ∷ []) },
  ok (record { final_url = text "http://h/f"; size = pos 7 }),
)
unfolding download Text-discrete ◌+64◌ ◌-64◌
download_run = refl

-- The server breaks off: the work file is rolled back, unless the transfer is paused.
abbrev broken_off : Response
broken_off = record rest_of_seven { read_error = some unexpected_eof; last = read_of [] }

download_broken :
    download unsegmented (answering none broken_off) request half_done
    ≡ (half_done, err unexpected_eof)
unfolding download Text-discrete ◌+64◌ ◌-64◌
download_broken = refl

download_paused :
    (download unsegmented (answering (some transfer_paused) broken_off) request half_done).0
    ≡ record { work = regular (3 ∷ 4 ∷ 5 ∷ 6 ∷ 7 ∷ 8 ∷ []); destination = absent }
unfolding download Text-discrete ◌+64◌ ◌-64◌
download_paused = refl

-- A name is made canonical, and what the transfer sets takes the place of what was given.
headers_run :
    request_headers
      (record request { headers = (text "x-key", text "1") ∷ (text "range", text "bytes=0-") ∷ [] })
    ≡ (text "X-Key", text "1")
      ∷ (text "Range", text "bytes=4-")
      ∷ (text "Accept-Encoding", text "identity")
      ∷ (text "If-Range", text "\"a\"")
      ∷ []
unfolding request_headers identity_headers Text-discrete
headers_run = refl
