-- ===== src/Checkpoint/Accepts.antt =====
-- ValidateTransferCheckpoint accepts exactly the checkpoints that describe a file.
use downpeed_fluter.Base.{
  ℕ, suc, ◌+◌, ◌-◌, ◌≤◌, ◌<◌, ◌≡◌, refl, List, [], ◌∷◌, arith, ℤ, pos, int64_limit, +64-pos,
  -64-pos, ok, ◌<ℤ◌, some, ◌≤ℤ◌, ◌⊎◌, negsuc, length, subst,
}
use downpeed_fluter.Checkpoint.{
  SegmentProgress, validate_segments, validate_transfer_checkpoint, TransferCheckpoint,
}
use downpeed_fluter.Checkpoint.Layout.{
  Tiles, Tiles-le, received, Describes, covering, covering_one, received-le,
}

-- The loop goes through a tiling, with no int64 sum out of range.
validate_segments-Tiles :
    (a d t : ℕ) (l : List SegmentProgress)
    → t < int64_limit
    → d ≤ a
    → Tiles a t l
    → validate_segments (pos t) (pos a) (pos d) l ≡ ok (pos t, pos (d + received l))
unfolding validate_segments
validate_segments-Tiles a d t [] lim k h = ground arith
validate_segments-Tiles a d t (s ∷ r) lim k (b, c, e, p, q, h) = ground (
  arith,
  +64-pos b 1,
  +64-pos d c,
  -64-pos b a,
  +64-pos (b - a) 1,
  Tiles-le (suc b) t r h,
  validate_segments-Tiles (suc b) (d + c) t r lim (omega arith) h,
)

-- A segment that passes the tests goes on from byte a, and the loop goes on behind it.
accepted_segment :
    (a d t : ℕ) (start end completed : ℤ) (r : List SegmentProgress) (n m : ℤ)
    → t < int64_limit
    → d ≤ a
    → validate_segments
        (pos t)
        (pos a)
        (pos d)
        (record { start = start; end = end; completed = completed } ∷ r)
      ≡ ok (n, m)
    → (b : ℕ) × (c : ℕ) × (start ≡ pos a)
      × (end ≡ pos b)
      × (completed ≡ pos c)
      × (a ≤ b)
      × (a + c ≤ suc b)
      × (b < t)
      × (validate_segments (pos t) (pos (suc b)) (pos (d + c)) r ≡ ok (n, m))
unfolding validate_segments
accepted_segment a d t (pos a') (pos b) (pos c) r n m lim k h = (
  b,
  c,
  ground (arith, -64-pos b a'),
  refl,
  refl,
  ground (arith, -64-pos b a'),
  ground (arith, -64-pos b a', +64-pos (b - a') 1),
  ground arith,
  ground (arith, +64-pos b 1, +64-pos d c, -64-pos b a', +64-pos (b - a') 1),
)
accepted_segment a d t start end completed r n m lim k h = absurd (ground arith)

Tiles-validate_segments :
    (a d t : ℕ) (l : List SegmentProgress) (n m : ℤ)
    → t < int64_limit
    → d ≤ a
    → a ≤ t
    → validate_segments (pos t) (pos a) (pos d) l ≡ ok (n, m)
    → (k : ℕ) × (n ≡ pos k) × (m ≡ pos (d + received l)) × Tiles a k l
unfolding validate_segments
Tiles-validate_segments a d t [] n m lim k le h = (a, ground arith, ground arith, refl)
Tiles-validate_segments a d t (s ∷ r) n m lim k le h =
    let (b, c, e0, e1, e2, p, q, lt, later) =
      accepted_segment a d t s.start s.end s.completed r n m lim k h in
    let (z, en, em, tiles) =
      Tiles-validate_segments (suc b) (d + c) t r n m lim (omega arith) lt later in
    (
      z,
      en,
      ground arith,
      (b, c, λ i. record { start = e0 i; end = e1 i; completed = e2 i }, p, q, tiles),
    )

-- The tests before and after the loop.
validate_inv :
    (checkpoint : TransferCheckpoint) (expected r : ℤ)
    → validate_transfer_checkpoint (some checkpoint) expected ≡ ok r
    → (checkpoint.version ≡ pos 1)
      × (pos 0 <ℤ checkpoint.total)
      × ((expected ≤ℤ pos 0) ⊎ (expected ≡ checkpoint.total))
      × (0 < length checkpoint.segments)
      × (length checkpoint.segments ≤ 64)
      × (validate_segments checkpoint.total (pos 0) (pos 0) checkpoint.segments
          ≡ ok (checkpoint.total, r))
unfolding validate_transfer_checkpoint
validate_inv checkpoint expected r h =
    (ground arith, ground arith, ground arith, ground arith, ground arith, ground arith)

positive : (z : ℤ) → pos 0 <ℤ z → (t : ℕ) × (z ≡ pos t) × (0 < t)
positive (pos t) h = (t, refl, omega arith)
positive (negsuc n) h = absurd (omega arith)

-- Whatever checkpoint with an int64 total is accepted, against whatever expected size, describes a
-- file: version 1, between 1 and 64 segments that tile all bytes of it, none with more bytes
-- received than it is long, the expected size (if one is given) its size; and the number returned
-- is the sum of the bytes received.
pub validate_sound :
    (checkpoint : TransferCheckpoint) (expected r : ℤ)
    → checkpoint.total <ℤ pos int64_limit
    → validate_transfer_checkpoint (some checkpoint) expected ≡ ok r
    → (t : ℕ) × (d : ℕ) × (r ≡ pos d) × Describes checkpoint expected t d
validate_sound checkpoint expected r lim h =
    let (v, p, e, q, l, k) = validate_inv checkpoint expected r h in
    let (t, et, tp) = positive checkpoint.total p in
    let (z, ez, er, tiles) =
      Tiles-validate_segments 0 0 t checkpoint.segments (pos t) r (ground arith) (omega arith)
        (omega arith) (rw et at k) in
    let same : z ≡ t = ground arith in
    (
      t,
      received checkpoint.segments,
      ground arith,
      record {
        current = v;
        sized = et;
        not_empty = tp;
        as_expected = ground arith;
        some_segments = q;
        few_segments = l;
        tiled = subst (λ u. Tiles 0 u checkpoint.segments) same tiles;
        counted = refl;
      },
    )

-- Every checkpoint that describes a file of an int64 size is accepted, with the number of bytes
-- received: no sum in the loop leaves the range of int64.
pub validate_complete :
    (checkpoint : TransferCheckpoint) (expected : ℤ) (t d : ℕ)
    → t < int64_limit
    → Describes checkpoint expected t d
    → validate_transfer_checkpoint (some checkpoint) expected ≡ ok (pos d)
unfolding validate_transfer_checkpoint
validate_complete checkpoint expected t d lim h = ground (
  arith,
  validate_segments-Tiles 0 0 t checkpoint.segments lim (omega arith) h.tiled,
  received-le 0 t checkpoint.segments h.tiled,
)

-- In an accepted checkpoint every byte of the file is in exactly one segment, and no more bytes
-- are counted than the file has.
pub accepted_covers :
    (checkpoint : TransferCheckpoint) (expected r : ℤ) (x : ℕ)
    → checkpoint.total <ℤ pos int64_limit
    → validate_transfer_checkpoint (some checkpoint) expected ≡ ok r
    → pos x <ℤ checkpoint.total
    → (covering x checkpoint.segments ≡ 1) × (pos 0 ≤ℤ r) × (r ≤ℤ checkpoint.total)
accepted_covers checkpoint expected r x lim h k =
    let (t, d, e, v) = validate_sound checkpoint expected r lim h in
    (
      covering_one x 0 t checkpoint.segments v.tiled (omega arith) (ground (arith, v.sized)),
      ground arith,
      ground (arith, received-le 0 t checkpoint.segments v.tiled, v),
    )
