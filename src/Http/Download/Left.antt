-- ===== src/Http/Download/Left.antt =====
-- What opening the work file requires, and how a transfer that is not complete leaves it
-- (backend/internal/protocol/http/downloader.go).
use downpeed_fluter.Base.{
  on_test, ltb_ℤ, eqb_ℤ, ℕ, ◌+◌, ◌<◌, ◌≡◌, ◌⊎◌, inl, inr, refl, sym, ap, subst, arith, true, false,
  not, List, [], ◌∷◌, ◌++◌, length, Option, some, if◌then◌else◌, Outcome, ok, ltb, pos, negsuc, ℤ,
  take, Bool,
}
use downpeed_fluter.Http.Download.{
  World, Entry, open_work, clean_work, absent, regular, DownloadError, transfer_paused,
  transfer_shutdown, transfer_canceled, special, unreadable, truncated_work, clean_for,
  removed_work,
}

-- The bytes of a work file, none if there is none.
abbrev pub held : Entry → List ℕ
held (regular bytes) = bytes
held _ = []

pub take-append : (b c : List ℕ) → take (length b) (b ++ c) ≡ b
take-append [] [] = refl
take-append [] (x ∷ c) = refl
take-append (x ∷ b) c = ap (λ s. x ∷ s) (take-append b c)

-- The work file that a transfer from `offset` on opens, whose bytes are `before`.
pub data Opens (offset : ℤ) : Entry → List ℕ → Type 0 where
  fresh : offset ≡ pos 0 → Opens offset absent []
  continued :
      (before : List ℕ)
      → 0 < length before
      → offset ≡ pos (length before)
      → Opens offset (regular before) before

-- Why there may be more bytes in the work file: the transfer was paused or shut down, or the system
-- refused to remove the file or to cut it.
abbrev pub Extends : World → Option DownloadError → Type 0
Extends world cause =
    (cause ≡ some transfer_paused)
    ⊎ (cause ≡ some transfer_shutdown)
    ⊎ (world.remove_fails ≡ true)
    ⊎ (world.truncate_fails ≡ true)

-- The work file is as it was; or for one of these reasons bytes stand behind those that were there; or it
-- was cancelled, and is gone.
abbrev pub Left : World → Option DownloadError → Entry → Entry → Type 0
Left world cause old new =
    (new ≡ old)
    ⊎ (Extends world cause × (part : List ℕ) × (new ≡ regular (held old ++ part)))
    ⊎ ((cause ≡ some transfer_canceled) × (new ≡ absent))

ok_inj : {E A : Type 0} {x y : A} → ◌≡◌ {A = Outcome E A} (ok x) (ok y) → x ≡ y
ok_inj e = cc

at_zero : (a : ℤ) → eqb_ℤ a (pos 0) ≡ true → a ≡ pos 0
at_zero (pos n) h = ap pos (ground arith)
at_zero (negsuc n) h = absurd (ground arith)

at_length :
    (n : ℕ) (a : ℤ)
    → eqb_ℤ a (pos 0) ≡ false
    → not (eqb_ℤ (pos n) a) ≡ false
    → (0 < n) × (a ≡ pos n)
at_length n (pos k) h h' = (ground arith, ap pos (ground arith))
at_length n (negsuc k) h h' = absurd (ground arith)

module _ (world : World) (offset : ℤ) where
  pub open_work-Opens :
      (entry : Entry) (before : List ℕ)
      → open_work world offset entry ≡ ok before
      → Opens offset entry before
  unfolding open_work
  open_work-Opens absent before h =
      on_test (λ x. x ≡ ok before → Opens offset absent before) (eqb_ℤ offset (pos 0))
        (λ at_start.
          on_test (λ x. x ≡ ok before → Opens offset absent before) world.open_fails (λ _ k. cc)
            (λ _ k.
              subst (λ b. Opens offset absent b) (ok_inj k) (fresh (at_zero offset at_start))))
        (λ _ k. cc) h
  open_work-Opens (regular bytes) before h =
      on_test (λ x. x ≡ ok before → Opens offset (regular bytes) before) (eqb_ℤ offset (pos 0))
        (λ _ k. cc)
        (λ later.
          on_test (λ x. x ≡ ok before → Opens offset (regular bytes) before)
            (not (eqb_ℤ (pos (length bytes)) offset)) (λ _ k. cc)
            (λ same.
              on_test (λ x. x ≡ ok before → Opens offset (regular bytes) before) world.open_fails
                (λ _ k. cc)
                (λ _ k.
                  subst (λ b. Opens offset (regular bytes) b) (ok_inj k)
                    (continued bytes (at_length (length bytes) offset later same).0
                      (at_length (length bytes) offset later same).1))))
        h
  open_work-Opens special before h =
      on_test (λ x. x ≡ ok before → Opens offset special before) (eqb_ℤ offset (pos 0)) (λ _ k. cc)
        (λ _ k. cc) h
  open_work-Opens unreadable before h =
      on_test (λ x. x ≡ ok before → Opens offset unreadable before) (eqb_ℤ offset (pos 0))
        (λ _ k. cc) (λ _ k. cc) h

  pub held_before : {old : Entry} {before : List ℕ} → Opens offset old before → held old ≡ before
  held_before (fresh zero_offset) = refl
  held_before (continued before some_bytes same) = refl

  pub counted_before :
      {old : Entry} {before : List ℕ} → Opens offset old before → offset ≡ pos (length before)
  counted_before (fresh zero_offset) = zero_offset
  counted_before (continued before some_bytes same) = same

module _ (world : World) (offset : ℤ) where
  -- More bytes than before.
  longer :
      {old : Entry} {before : List ℕ} (part : List ℕ) (cause : Option DownloadError)
      → Opens offset old before
      → Extends world cause
      → Left world cause old (regular (before ++ part))
  longer part cause opens why =
      inr (inl (why, part, ap (λ b. regular (b ++ part)) (sym (held_before world offset opens))))

  rolled_back :
      {old : Entry} {before : List ℕ} (part : List ℕ) (cause : Option DownloadError)
      → Opens offset old before
      → Left world cause old (
          if ltb_ℤ (pos 0) offset
          then truncated_work world offset (before ++ part)
          else removed_work world (before ++ part))
  rolled_back {old} part cause (fresh zero_offset) =
      subst
        (λ (o : ℤ).
          Left world cause absent
            (if ltb_ℤ (pos 0) o then truncated_work world o part else removed_work world part))
        (sym zero_offset)
        (on_test (Left world cause absent) world.remove_fails
          (λ fails. longer part cause (fresh zero_offset) (inr (inr (inl fails)))) (λ _. inl refl))
  rolled_back {old} part cause (continued before some_bytes same) =
      subst
        (λ (o : ℤ). Left world cause (regular before) (
          if ltb_ℤ (pos 0) o
          then truncated_work world o (before ++ part)
          else removed_work world (before ++ part)))
        (sym same)
        (subst
          (λ (t : Bool). Left world cause (regular before) (
            if t
            then truncated_work world (pos (length before)) (before ++ part)
            else removed_work world (before ++ part)))
          (sym (is_before (length before) some_bytes))
          (on_test (Left world cause (regular before)) world.truncate_fails
            (λ fails. longer part cause (continued before some_bytes same) (inr (inr (inr fails))))
            (λ _. inl (ap regular (take-append before part)))))
    where
      is_before : (n : ℕ) → 0 < n → ltb 0 (n + 0) ≡ true
      is_before n h = ground arith

  cleaned :
      {old : Entry} {before : List ℕ} (part : List ℕ)
      → Opens offset old before
      → (cause : Option DownloadError)
      → Left world cause old (clean_for world cause offset (before ++ part))
  cleaned part opens (some transfer_paused) = longer part (some transfer_paused) opens (inl refl)
  cleaned part opens (some transfer_shutdown) =
      longer part (some transfer_shutdown) opens (inr (inl refl))
  cleaned {old} part opens (some transfer_canceled) =
      on_test (Left world (some transfer_canceled) old) world.remove_fails
        (λ fails. longer part (some transfer_canceled) opens (inr (inr (inl fails))))
        (λ _. inr (inr (refl, refl)))
  cleaned part opens cause = rolled_back part cause opens

  pub clean_work-Left :
      {old : Entry} {before : List ℕ} (part : List ℕ)
      → Opens offset old before
      → Left world world.cause old (clean_work world offset (before ++ part))
  unfolding clean_work
  clean_work-Left part opens = cleaned part opens world.cause
