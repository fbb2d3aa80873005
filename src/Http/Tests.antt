-- ===== src/Http/Tests.antt =====
-- Files cut into segments.
pub mod Downloads
use downpeed_fluter.Base.{◌+64◌, ◌-64◌, ℕ, ◌≡◌, refl, arith, ◌/◌, [], ◌∷◌, none, pos, ok, length}
use downpeed_fluter.Checkpoint.{validate_transfer_checkpoint, validate_segments, TransferCheckpoint}
use downpeed_fluter.Checkpoint.Layout.{Describes}
use downpeed_fluter.Http.Segments.{
  segments_from, new_transfer_checkpoint, starting_checkpoint, Balanced, new-Describes,
  starting_checkpoint_fresh, starting_checkpoint_sound,
}

-- Ten bytes in four segments: 3, 3, 2 and 2.
ten_in_four : new_transfer_checkpoint 10 4 ≡ record {
  version = pos 1;
  total = pos 10;
  segments =
      record { start = pos 0; end = pos 2; completed = pos 0 }
      ∷ record { start = pos 3; end = pos 5; completed = pos 0 }
      ∷ record { start = pos 6; end = pos 7; completed = pos 0 }
      ∷ record { start = pos 8; end = pos 9; completed = pos 0 }
      ∷ [];
}
unfolding new_transfer_checkpoint segments_from
ten_in_four = refl

new-Describes_example : Describes (new_transfer_checkpoint 10 4) (pos 10) 10 0
new-Describes_example = new-Describes 10 4 (omega arith) (omega arith) (omega arith) (omega arith)

starting_checkpoint_fresh_example :
    (c : TransferCheckpoint) × (starting_checkpoint none (pos 1048577) (pos 0) ≡ ok c)
    × Describes c (pos 1048577) 1048577 0
    × (length c.segments ≡ 4)
    × Balanced (1048577 / 4) c.segments
starting_checkpoint_fresh_example = starting_checkpoint_fresh 1048577 (omega arith) (omega arith)

fresh_start :
    starting_checkpoint none (pos 1048577) (pos 0) ≡ ok (new_transfer_checkpoint 1048577 4)
unfolding starting_checkpoint new_transfer_checkpoint segments_from validate_transfer_checkpoint
    validate_segments ◌+64◌ ◌-64◌
fresh_start = refl

starting_checkpoint_sound_example :
    (t : ℕ) × (d : ℕ) × (pos 0 ≡ pos d)
    × Describes (new_transfer_checkpoint 1048577 4) (pos 1048577) t d
unfolding new_transfer_checkpoint
starting_checkpoint_sound_example =
    starting_checkpoint_sound none (pos 1048577) (pos 0) fresh_start (omega arith)
