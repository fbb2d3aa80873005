-- ===== src/Manager/Destination/Copies.antt =====
-- The names that selectHTTPDestination tries are all different, so that it finds a free one
-- (backend/internal/download/filename.go).
use downpeed_fluter.Base.{
  ℕ, zero, suc, ◌+◌, ◌≤◌, ◌<◌, ◌≡◌, ◌≢◌, ◌∙◌, ◌⊎◌, inl, inr, refl, sym, ap, subst, arith, Bool,
  true, false, not, ◌&&◌, List, [], ◌∷◌, ◌++◌, length, Option, some, Text, text, Outcome, ok,
  Bool-cases, length-append, Table, dec_lt, Member, pigeonhole, Text-discrete,
}
use mathlib.Core.List.{append-nil}
use downpeed_fluter.Paths.{ext}
use downpeed_fluter.Manager.Destination.{
  copy_file_name, trim_suffix, candidate, format_uint, Files, Task, DownloadError, select_loop,
  free_at, Selected, uniquify, selected, is_free, Stat, select_http_destination, stat_failed,
  path_exists, Manager, is_occupied, found,
}
use downpeed_fluter.Numbers.Digits.{format_uint_inj}
use downpeed_fluter.Manager.State.{not_exist}

length-ext-le : (s : Text) → length (ext s) ≤ length s
unfolding ext
length-ext-le [] = omega arith
length-ext-le (c ∷ s) = ground (arith, length-ext-le s)

trim_suffix-nil : (s : Text) → trim_suffix s [] ≡ s
unfolding trim_suffix
trim_suffix-nil [] = refl
trim_suffix-nil (c ∷ s) = ground (arith, trim_suffix-nil s)

longer : (c : ℕ) (s t : Text) → length t ≤ length s → (c ∷ s) ≢ t
longer c s t h e = absurd (omega (arith, ap length e))

trim_suffix-ext : (s : Text) → trim_suffix s (ext s) ++ ext s ≡ s
unfolding trim_suffix ext
trim_suffix-ext [] = refl
trim_suffix-ext (c ∷ s) = ground (
  arith,
  trim_suffix-ext s,
  trim_suffix-nil s,
  append-nil s,
  longer c s (ext s) (length-ext-le s),
)

append_cancel_left : (p s t : Text) → p ++ s ≡ p ++ t → s ≡ t
append_cancel_left [] s t e = e
append_cancel_left (c ∷ p) s t e = append_cancel_left p s t (cc)

append_cancel_right : (s t q : Text) → s ++ q ≡ t ++ q → s ≡ t
append_cancel_right [] [] q e = refl
append_cancel_right [] (d ∷ t) q e = absurd (omega (arith, ap length e, length-append (d ∷ t) q))
append_cancel_right (c ∷ s) [] q e = absurd (omega (arith, ap length e, length-append (c ∷ s) q))
append_cancel_right (c ∷ s) (d ∷ t) q e = ground (arith, append_cancel_right s t q)

copy_file_name_inj : (f : Text) (j k : ℕ) → copy_file_name f j ≡ copy_file_name f k → j ≡ k
unfolding copy_file_name
copy_file_name_inj f j k e = format_uint_inj 10 j k (omega arith) (omega arith) (
    append_cancel_right _ _ _
      (append_cancel_left (text " (") _ _ (append_cancel_left (trim_suffix f (ext f)) _ _ e)))

copy_file_name_new : (f : Text) (k : ℕ) → copy_file_name f k ≢ f
unfolding copy_file_name
copy_file_name_new f k e = absurd (
    omega (
      arith,
      ap length (append_cancel_left (trim_suffix f (ext f)) _ _ (e ∙ sym (trim_suffix-ext f))),
      length-append (format_uint 10 k) (b')' ∷ ext f),
    ))

candidate-suc : (f : Text) (k : ℕ) → candidate f (suc k) ≡ copy_file_name f (suc k)
unfolding candidate
candidate-suc f k = ground arith

candidate-zero : (f : Text) → candidate f 0 ≡ f
unfolding candidate
candidate-zero f = refl

-- No two copies of a name have the same name.
pub candidate_inj : (f : Text) (j k : ℕ) → candidate f j ≡ candidate f k → j ≡ k
candidate_inj f zero zero e = refl
candidate_inj f zero (suc k) e =
    absurd (copy_file_name_new f (suc k) (sym (candidate-suc f k) ∙ sym e ∙ candidate-zero f))
candidate_inj f (suc j) zero e =
    absurd (copy_file_name_new f (suc j) (sym (candidate-suc f j) ∙ e ∙ candidate-zero f))
candidate_inj f (suc j) (suc k) e =
    copy_file_name_inj f (suc j) (suc k) (sym (candidate-suc f j) ∙ e ∙ candidate-suc f k)

module _ (files : Files) (tasks : Table Task) (directory : Text) (file_name : Text) where
  abbrev pub free_copy : ℕ → Outcome DownloadError Bool
  free_copy k = free_at files tasks (selected directory file_name k)

  -- The first copy that is free, from one on, is what the loop answers.
  abbrev pub Answers : Option (Outcome DownloadError Selected) → ℕ → ℕ → Type 0
  Answers answer from i =
      (answer ≡ some (ok (selected directory file_name i)))
      × (free_copy i ≡ ok true)
      × ((l : ℕ) → from ≤ l → l < i → free_copy l ≡ ok false)

  Answers-later :
      (answer : Option (Outcome DownloadError Selected)) (k i : ℕ)
      → free_copy k ≡ ok false
      → Answers answer (suc k) i
      → Answers answer k i
  Answers-later answer k i here (answer_is, free, before) = (
    answer_is,
    free,
    λ l a b. elim (dec_lt k l) [
      | yes more ↦ before l (omega arith) b
      | no less ↦ subst (λ (n : ℕ). free_copy n ≡ ok false) (omega arith) here
    ],
  )

  find :
      (fuel k j : ℕ)
      → ((i : ℕ) → (free_copy i ≡ ok true) ⊎ (free_copy i ≡ ok false))
      → (free_copy j ≡ ok false → ⊥)
      → k ≤ j
      → j < k + fuel
      → (i : ℕ) × (i ≤ j)
        × Answers (select_loop files uniquify tasks directory file_name fuel k) k i
  unfolding select_loop
  find zero k j known free from upto = absurd (omega arith)
  find (suc fuel) k j known free from upto = elim (known k) [
    | inl here ↦ (k, from, (rw here refl, here, λ l a b. absurd (omega arith)))
    | inr here ↦
        let (i, low, a) =
          find fuel (suc k) j known free
            (elim (dec_lt k j) [
              | yes more ↦ more
              | no less ↦
                  absurd (free (subst (λ (n : ℕ). free_copy n ≡ ok false) (omega arith) here))
            ])
            (omega arith) in
        (i, low, Answers-later _ k i here (rw here a))
  ]

  path_readable : (stat : Stat) → stat ≢ stat_failed → (b : Bool) × (path_exists stat ≡ ok b)
  path_readable (found info) h = (true, refl)
  path_readable not_exist h = (false, refl)
  path_readable stat_failed h = absurd (h refl)

  known_at :
      (taken : Bool) {e e' : Outcome DownloadError Bool}
      → (b : Bool) × (e ≡ ok b)
      → (b : Bool) × (e' ≡ ok b)
      → (is_free taken e e' ≡ ok true) ⊎ (is_free taken e e' ≡ ok false)
  known_at taken (b, p) (b', q) =
      rw (p, q)
        (elim (Bool-cases (not taken && not b && not b')) [
          | inl h ↦ inl (ap ok h)
          | inr h ↦ inr (ap ok h)
        ])

  copy_known :
      ((path : Text) → files.lstat path ≢ stat_failed)
      → (k : ℕ) → (free_copy k ≡ ok true) ⊎ (free_copy k ≡ ok false)
  unfolding free_at
  copy_known readable k =
      let s = selected directory file_name k in
      known_at (is_occupied s.destination tasks) (path_readable _ (readable s.destination))
        (path_readable _ (readable s.work_path))

select-renames :
    (fuel : ℕ) (files : Files) (m : Manager) (directory file_name : Text)
    → m.file_conflict_policy ≡ uniquify
    → select_http_destination fuel files m directory file_name
      ≡ select_loop files uniquify m.tasks directory file_name fuel 0
unfolding select_http_destination
select-renames fuel files m directory file_name rename =
    ap (λ p. select_loop files p m.tasks directory file_name fuel 0) rename

low_enough : (i k n : ℕ) → i ≤ k → k ≤ n → i ≤ n
low_enough i k n p q = omega arith

-- If files that exist are renamed, the file system can be read, and all the copies of the name that
-- are taken, by a task that is not over, a file or a partial file, have one of the given names, then
-- the loop ends after at most one round more than there are names, with the first copy that is free.
pub select_finds_copy :
    (files : Files) (m : Manager) (directory file_name : Text) (names : List Text)
    → m.file_conflict_policy ≡ uniquify
    → ((path : Text) → files.lstat path ≢ stat_failed)
    → ((k : ℕ)
        → free_copy files m.tasks directory file_name k ≡ ok false
        → Member (candidate file_name k) names)
    → (i : ℕ) × (i ≤ length names)
      × Answers files m.tasks directory file_name
          (select_http_destination (suc (length names)) files m directory file_name)
          0
          i
select_finds_copy files m directory file_name names rename readable busy =
    let (k, low, out) =
      pigeonhole Text-discrete (candidate file_name) names
        (λ j k _ _. candidate_inj file_name j k) in
    let (i, first, a) =
      find files m.tasks directory file_name (suc (length names)) 0 k
        (copy_known files m.tasks directory file_name readable) (λ taken. out (busy k taken))
        (omega arith) (omega arith) in
    (
      i,
      low_enough i k (length names) first low,
      subst
          (λ (o : Option (Outcome DownloadError Selected)).
            Answers files m.tasks directory file_name o 0 i)
          (sym (select-renames (suc (length names)) files m directory file_name rename)) a,
    )
