-- ===== src/Checkpoint/Tests.antt =====
-- A checkpoint of two segments, and the theorems on it.
use downpeed_fluter.Base.{◌+64◌, ◌-64◌, ℕ, ◌≡◌, refl, arith, [], ◌∷◌, some, pos, inr, ok, err, ◌≤ℤ◌}
use downpeed_fluter.Errors.{partial_file_changed}
use downpeed_fluter.Checkpoint.{validate_segments, TransferCheckpoint, validate_transfer_checkpoint}
use downpeed_fluter.Checkpoint.Layout.{Describes, covering}
use downpeed_fluter.Checkpoint.Accepts.{validate_sound, validate_complete, accepted_covers}

-- Bytes 0 to 5 with 2 received, and 6 to 9 with all.
abbrev halves : TransferCheckpoint
halves = record {
  version = pos 1;
  total = pos 10;
  segments =
      record { start = pos 0; end = pos 5; completed = pos 2 }
      ∷ record { start = pos 6; end = pos 9; completed = pos 4 }
      ∷ [];
}

halves-Describes : Describes halves (pos 10) 10 6
halves-Describes = record {
  current = refl;
  sized = refl;
  not_empty = omega arith;
  as_expected = inr refl;
  some_segments = omega arith;
  few_segments = omega arith;
  tiled =
      (5, 2, refl, omega arith, omega arith, (9, 4, refl, omega arith, omega arith, omega arith));
  counted = omega arith;
}

halves_counted : validate_transfer_checkpoint (some halves) (pos 10) ≡ ok (pos 6)
unfolding validate_transfer_checkpoint validate_segments ◌+64◌ ◌-64◌
halves_counted = refl

validate_sound_example : (t : ℕ) × (d : ℕ) × (pos 6 ≡ pos d) × Describes halves (pos 10) t d
validate_sound_example = validate_sound halves (pos 10) (pos 6) (omega arith) halves_counted

validate_complete_example : validate_transfer_checkpoint (some halves) (pos 10) ≡ ok (pos 6)
validate_complete_example = validate_complete halves (pos 10) 10 6 (omega arith) halves-Describes

accepted_covers_example : (covering 7 halves.segments ≡ 1) × (pos 0 ≤ℤ pos 6) × (pos 6 ≤ℤ pos 10)
accepted_covers_example =
    accepted_covers halves (pos 10) (pos 6) 7 (omega arith) halves_counted (omega arith)

-- A gap between the segments is refused.
abbrev with_gap : TransferCheckpoint
with_gap = record halves {
  segments =
      record { start = pos 0; end = pos 4; completed = pos 2 }
      ∷ record { start = pos 6; end = pos 9; completed = pos 4 }
      ∷ [];
}

gap_refused : validate_transfer_checkpoint (some with_gap) (pos 10) ≡ err partial_file_changed
unfolding validate_transfer_checkpoint validate_segments ◌+64◌ ◌-64◌
gap_refused = refl
