-- ===== src/Http/Download.antt =====
-- Download and publishCompletedFile (backend/internal/protocol/http/downloader.go), for a file that is
-- not cut into segments.
pub mod Left
pub mod Free
use downpeed_fluter.Base.{
  ◌^◌, dec_lt, on_test, All, ◌↔◌, Text-discrete, if_pos, if_neg, ite, Option-cases, is_some, any,
  all, map, ltb_ℤ, leb_ℤ, eqb_ℤ, Table, lookup, insert, delete, Member, length-append, ℕ, zero, suc,
  ◌+◌, ◌-◌, ◌*◌, ◌/◌, ◌%◌, ◌≤◌, ◌<◌, ◌≡◌, ◌≢◌, ◌∙◌, ◌⊎◌, inl, inr, refl, sym, ap, subst, arith,
  Bool, true, false, not, ◌&&◌, ◌||◌, List, [], ◌∷◌, ◌++◌, length, Option, none, some, Text, text,
  if◌then◌else◌, Outcome, ok, err, Bool-cases, ltb, leb, ◌==◌, pos, negsuc, ℤ, take, pos_part,
}
use downpeed_fluter.Manager.Create.{ParsedUrl}
use downpeed_fluter.Errors.{
  DownloadError, destination_exists, TransferError, invalid_destination, atomic_publish,
  partial_file_changed, transfer_paused, invalid_request, transfer_shutdown, transfer_canceled,
}
use downpeed_fluter.Paths.{is_abs, dir, text_eq}
use downpeed_fluter.Http.Exchange.{Response}
use downpeed_fluter.Task.{TransferRequest}
use downpeed_fluter.Strings.{is_empty}

-- What stands at a path.
pub data Entry : Type 0 where
  absent : Entry
  regular : List ℕ → Entry
  special : Entry
  unreadable : Entry

-- The two paths of a transfer, which is alone in changing the first one.
pub record Disk : Type 0 where
  pub work : Entry
  pub destination : Entry

pub data LinkAnswer : Type 0 where
  linked : LinkAnswer
  link_exists : LinkAnswer
  link_failed : LinkAnswer

-- What a transfer meets: url.ParseRequestURI, the rewriting of a date, whether Stat finds a directory,
-- whether opening the work file fails, the answer to a request with its headers or the error of making
-- or sending it, the errors of Sync and Close, what stands at the destination when the transfer is done,
-- the answer of Link, whether Remove and Truncate fail, and the cause for which the context was
-- cancelled, if it was.
pub record World : Type 0 where
  pub parse_request_uri : Text → Option ParsedUrl
  pub reformat : Text → Option Text
  pub is_directory : Text → Bool
  pub open_fails : Bool
  pub answer : Table Text → Outcome TransferError Response
  pub sync : Option TransferError
  pub close : Option TransferError
  pub appeared : Entry
  pub link : LinkAnswer
  pub remove_fails : Bool
  pub truncate_fails : Bool
  pub cause : Option DownloadError

-- Lstat of a destination that has to be free.
abbrev pub free_entry : Entry → Option DownloadError
free_entry absent = none
free_entry unreadable = some invalid_destination
free_entry _ = some destination_exists

-- The work file is linked to the destination, and then removed; that it cannot be is passed over.
abbrev pub linked_as : World → LinkAnswer → Disk → Disk × Option DownloadError
linked_as world linked d =
    (record { work = if world.remove_fails then d.work else absent; destination = d.work }, none)
linked_as world link_exists d = (d, some destination_exists)
linked_as world link_failed d = (d, some atomic_publish)

unfoldable pub publish_completed_file : World → Disk → Disk × Option DownloadError
publish_completed_file world d = elim (free_entry world.appeared) [
  | some e ↦ (d, some e)
  | none ↦ linked_as world world.link d
]

unfoldable pub check_parsed :
    World → TransferRequest → Disk → ParsedUrl → Outcome DownloadError ParsedUrl
unfolding is_abs dir
check_parsed world input d url =
    if is_empty url.host
      || (not (text_eq url.scheme (text "http")) && not (text_eq url.scheme (text "https")))
    then err invalid_request
    else if not (is_abs input.destination)
    then err invalid_destination
    else if not (is_abs input.work_path)
        || not (text_eq (dir input.work_path) (dir input.destination))
        || text_eq input.work_path input.destination
    then err invalid_destination
    else if not (world.is_directory (dir input.destination))
    then err invalid_destination
    else if ltb_ℤ input.offset (pos 0)
    then err invalid_request
    else if ltb_ℤ (pos 0) input.expected_size && ltb_ℤ input.expected_size input.offset
    then err partial_file_changed
    else elim (free_entry d.destination) [ some e ↦ err e | none ↦ ok url ]

unfoldable pub check_transfer : World → TransferRequest → Disk → Outcome DownloadError ParsedUrl
unfolding check_parsed
check_transfer world input d = elim (world.parse_request_uri input.url) [
  | none ↦ err invalid_request
  | some url ↦ check_parsed world input d url
]

-- The bytes of the work file that is opened: a new one, or one of the size that was received.
unfoldable pub open_work : World → ℤ → Entry → Outcome DownloadError (List ℕ)
open_work world offset entry =
    if eqb_ℤ offset (pos 0)
    then (elim entry [
      | absent ↦ if world.open_fails then err invalid_destination else ok []
      | unreadable ↦ err invalid_destination
      | _ ↦ err destination_exists
    ])
    else elim entry [
      | absent ↦ err invalid_destination
      | unreadable ↦ err invalid_destination
      | special ↦ err partial_file_changed
      | regular bytes ↦
          if not (eqb_ℤ (pos (length bytes)) offset)
          then err partial_file_changed
          else if world.open_fails
          then err invalid_destination
          else ok bytes
    ]

-- The work file is removed, or cut to a size; that it cannot be is passed over.
abbrev pub removed_work : World → List ℕ → Entry
removed_work world now = if world.remove_fails then regular now else absent

abbrev pub truncated_work : World → ℤ → List ℕ → Entry
truncated_work world offset now =
    if world.truncate_fails then regular now else regular (take (pos_part offset) now)

-- What the deferred function does with the work file of a transfer that is not complete.
abbrev pub clean_for : World → Option DownloadError → ℤ → List ℕ → Entry
clean_for world (some transfer_paused) offset now = regular now
clean_for world (some transfer_shutdown) offset now = regular now
clean_for world (some transfer_canceled) offset now = removed_work world now
clean_for world _ offset now =
    if ltb_ℤ (pos 0) offset then truncated_work world offset now else removed_work world now

unfoldable pub clean_work : World → ℤ → List ℕ → Entry
clean_work world offset now = clean_for world world.cause offset now
