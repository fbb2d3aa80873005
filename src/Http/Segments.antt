-- ===== src/Http/Segments.antt =====
-- How a file is cut into segments: newTransferCheckpoint of
-- backend/internal/protocol/http/segmented_downloader.go, and the start of downloadSegmented.
use native.Mathlib.Nat.{div-add-mod, mod-lt}
use downpeed_fluter.Base.{
  ℕ, zero, suc, ◌+◌, ◌-◌, ◌*◌, ◌/◌, ◌%◌, ◌≤◌, ◌<◌, ◌≡◌, refl, List, [], ◌∷◌, Option, none, some,
  arith, length, ltb, if◌then◌else◌, ℤ, pos, sub_ℕ, ltb_ℤ, eqb_ℤ, int64_limit, Outcome, ok, err,
  subst, inr, All, pos_part, ◌⊎◌, ◌<ℤ◌,
}
use downpeed_fluter.Errors.{DownloadError, invalid_request, partial_file_changed}
use downpeed_fluter.Checkpoint.{
  SegmentProgress, TransferCheckpoint, transfer_checkpoint_version,
  default_segmented_transfer_min_size, validate_transfer_checkpoint,
}
use downpeed_fluter.Checkpoint.Layout.{Tiles, received, Describes}
use downpeed_fluter.Checkpoint.Accepts.{validate_complete, validate_sound}

abbrev pub segmented_connection_count : ℕ
segmented_connection_count = 4

-- The loop, with `left` rounds to go. A total is not negative where the code calls it.
unfoldable pub segments_from : ℕ → ℕ → ℕ → ℕ → ℕ → List SegmentProgress
segments_from base remainder start index zero = []
segments_from base remainder start index (suc left) =
    let size = if ltb index remainder then base + 1 else base in
    record { start = pos start; end = sub_ℕ (start + size) 1; completed = pos 0 }
    ∷ segments_from base remainder (start + size) (index + 1) left

unfoldable pub new_transfer_checkpoint : ℕ → ℕ → TransferCheckpoint
unfolding segments_from
new_transfer_checkpoint total connection_count = record {
  version = transfer_checkpoint_version;
  total = pos total;
  segments =
      segments_from (total / connection_count) (total % connection_count) 0 0 connection_count;
}

-- The number of segments from `index` on that are one byte longer.
abbrev longer : ℕ → ℕ → ℕ → ℕ
longer remainder index zero = 0
longer remainder index (suc left) =
    (if ltb index remainder then 1 else 0) + longer remainder (index + 1) left

longer-le :
    (remainder index left : ℕ)
    → remainder ≤ index + left
    → index + longer remainder index left ≡ (if ltb index remainder then remainder else index)
longer-le remainder index zero h = ground arith
longer-le remainder index (suc left) h = ground (arith, longer-le remainder (index + 1) left)

tile_cons :
    (start size t : ℕ) (r : List SegmentProgress)
    → 0 < size
    → Tiles (start + size) t r
    → Tiles start t
        (record { start = pos start; end = sub_ℕ (start + size) 1; completed = pos 0 } ∷ r)
tile_cons start size t r h k =
    let behind : start + size ≡ suc (start + size - 1) = omega arith in
    (start + size - 1, 0, ground arith, omega arith, omega arith, subst (λ u. Tiles u t r) behind k)

-- The length of segment `index`.
abbrev size_at : ℕ → ℕ → ℕ → ℕ
size_at base remainder index = if ltb index remainder then base + 1 else base

segments_from-Tiles :
    (base remainder start index left : ℕ)
    → 0 < base
    → Tiles start
        (start + left * base + longer remainder index left)
        (segments_from base remainder start index left)
unfolding segments_from
segments_from-Tiles base remainder start index zero h = omega arith
segments_from-Tiles base remainder start index (suc left) h =
    let size : ℕ = size_at base remainder index in
    let rest : List SegmentProgress =
      segments_from base remainder (start + size) (index + 1) left in
    let reach : start + size + left * base + longer remainder (index + 1) left
        ≡ start + suc left * base + longer remainder index (suc left) =
      ground arith in
    tile_cons start size _ rest (ground arith) (
      subst (λ u. Tiles (start + size) u rest) reach
        (segments_from-Tiles base remainder (start + size) (index + 1) left h))

length-segments_from :
    (base remainder start index left : ℕ)
    → length (segments_from base remainder start index left) ≡ left
unfolding segments_from
length-segments_from base remainder start index zero = refl
length-segments_from base remainder start index (suc left) = omega (
  arith,
  length-segments_from base remainder (start + size_at base remainder index) (index + 1) left,
)

received-segments_from :
    (base remainder start index left : ℕ)
    → received (segments_from base remainder start index left) ≡ 0
unfolding segments_from
received-segments_from base remainder start index zero = refl
received-segments_from base remainder start index (suc left) = omega (
  arith,
  received-segments_from base remainder (start + size_at base remainder index) (index + 1) left,
)

-- A new checkpoint, of any number of segments from 1 to 64 and a file of at least that many bytes
-- (and of an int64 size), describes that file with no byte received.
pub new-Describes :
    (total count : ℕ)
    → 0 < count
    → count ≤ 64
    → count ≤ total
    → total < int64_limit
    → Describes (new_transfer_checkpoint total count) (pos total) total 0
unfolding new_transfer_checkpoint
new-Describes total count h k l m =
    let base : ℕ = total / count in
    let remainder : ℕ = total % count in
    record {
      current = refl;
      sized = refl;
      not_empty = omega arith;
      as_expected = inr refl;
      some_segments = omega (arith, length-segments_from base remainder 0 0 count);
      few_segments = omega (arith, length-segments_from base remainder 0 0 count);
      tiled =
          subst (λ u. Tiles 0 u (segments_from base remainder 0 0 count))
            (ground (
              arith,
              longer-le remainder 0 count,
              div-add-mod total count,
              mod-lt total {m = count} h,
            ))
            (segments_from-Tiles base remainder 0 0 count grind
              (arith, div-add-mod total count, mod-lt total {m = count} h));
      counted = omega (arith, received-segments_from base remainder 0 0 count);
    }

-- A segment is the rounded-down share of the file, or one byte more.
abbrev pub Balanced : ℕ → List SegmentProgress → Type 0
Balanced base =
    All λ s. (s.end ≡ sub_ℕ (pos_part s.start + base) 1) ⊎ (s.end ≡ pos (pos_part s.start + base))

segments_from-Balanced :
    (base remainder start index left : ℕ)
    → Balanced base (segments_from base remainder start index left)
unfolding segments_from
segments_from-Balanced base remainder start index zero = tt
segments_from-Balanced base remainder start index (suc left) = (
  ground arith,
  segments_from-Balanced base remainder (start + size_at base remainder index) (index + 1) left,
)

abbrev pub at_offset :
    TransferCheckpoint → ℤ → Outcome DownloadError ℤ → Outcome DownloadError TransferCheckpoint
at_offset checkpoint offset (err e) = err partial_file_changed
at_offset checkpoint offset (ok downloaded) =
    if eqb_ℤ downloaded offset then ok checkpoint else err partial_file_changed

-- Where downloadSegmented starts: from the stored checkpoint, or a new one if the size is known and
-- large enough; a checkpoint that is not valid, or not at the request's offset, is refused.
unfoldable pub starting_checkpoint :
    Option TransferCheckpoint → ℤ → ℤ → Outcome DownloadError TransferCheckpoint
unfolding new_transfer_checkpoint
starting_checkpoint stored expected_size offset =
    let checked = λ (checkpoint : TransferCheckpoint).
      at_offset checkpoint offset (validate_transfer_checkpoint (some checkpoint) expected_size) in
    elim stored [
      | some checkpoint ↦ checked checkpoint
      | none ↦
          if ltb_ℤ expected_size default_segmented_transfer_min_size
          then err invalid_request
          else checked (new_transfer_checkpoint (pos_part expected_size) segmented_connection_count)
    ]

-- A large enough file of an int64 size starts in four segments of a quarter each, rounded down, or
-- one byte more, that tile it, with nothing received.
pub starting_checkpoint_fresh :
    (total : ℕ)
    → 1048576 ≤ total
    → total < int64_limit
    → (c : TransferCheckpoint) × (starting_checkpoint none (pos total) (pos 0) ≡ ok c)
      × Describes c (pos total) total 0
      × (length c.segments ≡ 4)
      × Balanced (total / 4) c.segments
unfolding starting_checkpoint
starting_checkpoint_fresh total h k =
    let c : TransferCheckpoint = new_transfer_checkpoint total 4 in
    let d : Describes c (pos total) total 0 =
      new-Describes total 4 (omega arith) (omega arith) (omega arith) k in
    (
      c,
      ground (arith, validate_complete c (pos total) total 0 k d),
      d,
      length-segments_from (total / 4) (total % 4) 0 0 4,
      segments_from-Balanced (total / 4) (total % 4) 0 0 4,
    )

-- What a transfer starts from always describes the file, with as many bytes received as the offset.
pub starting_checkpoint_sound :
    (stored : Option TransferCheckpoint) (expected_size offset : ℤ) {c : TransferCheckpoint}
    → starting_checkpoint stored expected_size offset ≡ ok c
    → c.total <ℤ pos int64_limit
    → (t : ℕ) × (d : ℕ) × (offset ≡ pos d) × Describes c expected_size t d
unfolding starting_checkpoint
starting_checkpoint_sound stored expected_size offset {c} h lim =
    let e : validate_transfer_checkpoint (some c) expected_size ≡ ok offset = ground arith in
    let (t, d, e', v) = validate_sound c expected_size offset lim e in (t, d, e', v)
