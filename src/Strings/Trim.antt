-- ===== src/Strings/Trim.antt =====
-- What Trim leaves, and what it leaves alone.
use downpeed_fluter.Base.{ℕ, ◌≡◌, refl, Bool, false, [], ◌∷◌, All, Text, on_test, ap, ◌∙◌}
use downpeed_fluter.Strings.{trim_left, trim_right, keep_before, trim}

abbrev pub first_is : (ℕ → Bool) → Text → Bool
first_is p [] = false
first_is p (c ∷ s) = p c

abbrev pub last_is : (ℕ → Bool) → Text → Bool
last_is p [] = false
last_is p (c ∷ []) = p c
last_is p (c ∷ d ∷ s) = last_is p (d ∷ s)

module _ {ℓ} (P : ℕ → Type ℓ) (drop : ℕ → Bool) where
  pub All-trim_left : (s : Text) → All P s → All P (trim_left drop s)
  unfolding trim_left
  All-trim_left [] h = tt
  All-trim_left (c ∷ s) h = on_test (All P) (drop c) (λ _. All-trim_left s h.1) (λ _. h)

  pub All-keep_before : (c : ℕ) (s : Text) → P c → All P s → All P (keep_before drop c s)
  All-keep_before c [] p h = on_test (All P) (drop c) (λ _. tt) (λ _. (p, tt))
  All-keep_before c (d ∷ s) p h = (p, h)

  pub All-trim_right : (s : Text) → All P s → All P (trim_right drop s)
  unfolding trim_right
  All-trim_right [] h = tt
  All-trim_right (c ∷ s) h = All-keep_before c (trim_right drop s) h.0 (All-trim_right s h.1)

  pub All-trim : (s : Text) → All P s → All P (trim drop s)
  unfolding trim
  All-trim s h = All-trim_right (trim_left drop s) (All-trim_left s h)

module _ (drop : ℕ → Bool) where
  pub first-trim_left : (s : Text) → first_is drop (trim_left drop s) ≡ false
  unfolding trim_left
  first-trim_left [] = refl
  first-trim_left (c ∷ s) =
      on_test (λ t. first_is drop t ≡ false) (drop c) (λ _. first-trim_left s) (λ e. e)

  pub first-keep_before :
      (c : ℕ) (s : Text) → drop c ≡ false → first_is drop (keep_before drop c s) ≡ false
  first-keep_before c [] e = rw e e
  first-keep_before c (d ∷ s) e = e

  pub first-trim_right :
      (s : Text) → first_is drop s ≡ false → first_is drop (trim_right drop s) ≡ false
  unfolding trim_right
  first-trim_right [] e = refl
  first-trim_right (c ∷ s) e = first-keep_before c (trim_right drop s) e

  pub last-keep_before :
      (c : ℕ) (s : Text) → last_is drop s ≡ false → last_is drop (keep_before drop c s) ≡ false
  last-keep_before c [] e = on_test (λ t. last_is drop t ≡ false) (drop c) (λ _. refl) (λ k. k)
  last-keep_before c (d ∷ s) e = e

  pub last-trim_right : (s : Text) → last_is drop (trim_right drop s) ≡ false
  unfolding trim_right
  last-trim_right [] = refl
  last-trim_right (c ∷ s) = last-keep_before c (trim_right drop s) (last-trim_right s)

  pub keep_before_kept :
      (c : ℕ) (s : Text) → last_is drop (c ∷ s) ≡ false → keep_before drop c s ≡ c ∷ s
  keep_before_kept c [] e = rw e refl
  keep_before_kept c (d ∷ s) e = refl

  pub trim_right_kept : (s : Text) → last_is drop s ≡ false → trim_right drop s ≡ s
  unfolding trim_right
  trim_right_kept [] e = refl
  trim_right_kept (c ∷ []) e = keep_before_kept c [] e
  trim_right_kept (c ∷ d ∷ s) e =
      ap (keep_before drop c) (trim_right_kept (d ∷ s) e) ∙ keep_before_kept c (d ∷ s) e

  pub trim_left_kept : (s : Text) → first_is drop s ≡ false → trim_left drop s ≡ s
  unfolding trim_left
  trim_left_kept [] e = refl
  trim_left_kept (c ∷ s) e = rw e refl

  pub trim_kept : (s : Text) → first_is drop s ≡ false → last_is drop s ≡ false → trim drop s ≡ s
  unfolding trim
  trim_kept s e f = ap (trim_right drop) (trim_left_kept s e) ∙ trim_right_kept s f
