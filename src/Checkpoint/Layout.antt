-- ===== src/Checkpoint/Layout.antt =====
-- What a checkpoint describes, stated without the code: segments that tile a file from end to end.
use downpeed_fluter.Base.{
  ℕ, suc, ◌+◌, ◌≤◌, ◌<◌, ◌≡◌, refl, List, [], ◌∷◌, arith, ◌&&◌, if◌then◌else◌, ℤ, pos, pos_part,
  leb_ℤ, length, ◌⊎◌, ◌≤ℤ◌,
}
use downpeed_fluter.Checkpoint.{SegmentProgress, TransferCheckpoint}

-- The segments follow one another from byte a up to byte t, and none holds more than its length.
abbrev pub Tiles : ℕ → ℕ → List SegmentProgress → Type 0
Tiles a t [] = a ≡ t
Tiles a t (s ∷ r) =
    (b : ℕ) × (c : ℕ) × (s ≡ record { start = pos a; end = pos b; completed = pos c })
    × (a ≤ b)
    × (a + c ≤ suc b)
    × Tiles (suc b) t r

-- The bytes that the segments have received.
abbrev pub received : List SegmentProgress → ℕ
received [] = 0
received (s ∷ r) = pos_part s.completed + received r

-- How many of the segments hold byte x.
abbrev pub covering : ℕ → List SegmentProgress → ℕ
covering x [] = 0
covering x (s ∷ r) = (if leb_ℤ s.start (pos x) && leb_ℤ (pos x) s.end then 1 else 0) + covering x r

-- A checkpoint of a file of the expected size, of which d bytes are there.
pub record Describes (checkpoint : TransferCheckpoint) (expected : ℤ) (t d : ℕ) : Type 0 where
  pub current : checkpoint.version ≡ pos 1
  pub sized : checkpoint.total ≡ pos t
  pub not_empty : 0 < t
  pub as_expected : (expected ≤ℤ pos 0) ⊎ (expected ≡ pos t)
  pub some_segments : 0 < length checkpoint.segments
  pub few_segments : length checkpoint.segments ≤ 64
  pub tiled : Tiles 0 t checkpoint.segments
  pub counted : d ≡ received checkpoint.segments

pub Tiles-le : (a t : ℕ) (l : List SegmentProgress) → Tiles a t l → a ≤ t
Tiles-le a t [] h = omega arith
Tiles-le a t (s ∷ r) (b, c, e, p, q, h) = omega (arith, Tiles-le (suc b) t r h)

-- No more can be received than the file has bytes left.
pub received-le : (a t : ℕ) (l : List SegmentProgress) → Tiles a t l → a + received l ≤ t
received-le a t [] h = omega arith
received-le a t (s ∷ r) (b, c, e, p, q, h) = ground (arith, received-le (suc b) t r h)

pub covering_below : (x a t : ℕ) (l : List SegmentProgress) → Tiles a t l → x < a → covering x l ≡ 0
covering_below x a t [] h k = refl
covering_below x a t (s ∷ r) (b, c, e, p, q, h) k = ground (arith, covering_below x (suc b) t r h)

-- Every byte from a up to t is in exactly one segment.
pub covering_one :
    (x a t : ℕ) (l : List SegmentProgress) → Tiles a t l → a ≤ x → x < t → covering x l ≡ 1
covering_one x a t [] h k m = absurd (omega arith)
covering_one x a t (s ∷ r) (b, c, e, p, q, h) k m =
    ground (arith, covering_below x (suc b) t r h, covering_one x (suc b) t r h)
