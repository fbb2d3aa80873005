-- ===== src/Http/Download/Free.antt =====
-- A transfer is only begun when nothing stands at its destination
-- (backend/internal/protocol/http/downloader.go).
use downpeed_fluter.Base.{
  ltb_ℤ, ◌≡◌, refl, not, ◌&&◌, ◌||◌, none, some, text, ok, err, pos, on_option, unless,
}
use downpeed_fluter.Http.Download.{
  World, Entry, Disk, free_entry, check_parsed, check_transfer, TransferRequest, absent, regular,
  ParsedUrl, special, is_empty, text_eq, unreadable, invalid_request, is_abs, dir,
}

pub is_free : (entry : Entry) → free_entry entry ≡ none → entry ≡ absent
is_free absent h = refl
is_free (regular b) h = cc
is_free special h = cc
is_free unreadable h = cc

parsed_free :
    (world : World) (input : TransferRequest) (d : Disk) (parsed url : ParsedUrl)
    → check_parsed world input d parsed ≡ ok url
    → d.destination ≡ absent
unfolding check_parsed
parsed_free world input d parsed url h =
    unless
      (is_empty parsed.host
        || (not (text_eq parsed.scheme (text "http"))
            && not (text_eq parsed.scheme (text "https"))))
      _
      (unless (not (is_abs input.destination)) _ (
        unless
          (not (is_abs input.work_path)
            || not (text_eq (dir input.work_path) (dir input.destination))
            || text_eq input.work_path input.destination)
          _
          (unless (not (world.is_directory (dir input.destination))) _ (
            unless (ltb_ℤ input.offset (pos 0)) _ (
              unless (ltb_ℤ (pos 0) input.expected_size && ltb_ℤ input.expected_size input.offset) _
                (passed d.destination))))))
      h
  where
    passed :
        (entry : Entry)
        → elim (free_entry entry) [ some e ↦ err e | none ↦ ok parsed ] ≡ ok url
        → entry ≡ absent
    passed absent k = refl
    passed (regular b) k = cc
    passed special k = cc
    passed unreadable k = cc

pub checked_free :
    (world : World) (input : TransferRequest) (d : Disk) (url : ParsedUrl)
    → check_transfer world input d ≡ ok url
    → d.destination ≡ absent
unfolding check_transfer
checked_free world input d url h =
    on_option (λ x. x ≡ ok url → d.destination ≡ absent)
      (λ o. elim o [ none ↦ err invalid_request | some parsed ↦ check_parsed world input d parsed ])
      (world.parse_request_uri input.url) (λ k. cc)
      (λ parsed _ k. parsed_free world input d parsed url k) h
