-- ===== src/Manager/Destination/Chosen.antt =====
-- selectHTTPDestination answers under either policy (backend/internal/download/filename.go).
use downpeed_fluter.Base.{
  sym, ◌∙◌, dec_lt, ℕ, zero, suc, ◌+◌, ◌≤◌, ◌<◌, ◌≡◌, refl, subst, arith, Bool, true, false, List,
  length, Option, none, some, Text, Outcome, ok, err, Table, pigeonhole, Text-discrete, Member,
  on_test, dec_lt,
}
use mathlib.Core.Option.{some, none}
use downpeed_fluter.Manager.State.{Files}
use downpeed_fluter.Manager.Destination.{
  select_http_destination, Manager, FileConflictPolicy, Task, select_loop, free_at, DownloadError,
  Selected, selected, candidate, tried, is_uniquify,
}
use downpeed_fluter.Manager.Destination.Copies.{candidate_inj}

-- What the loop answers is a copy of the name, free, and the first one that is not taken; it is the name
-- itself, where copies are not made. And it answers.
abbrev pub Chosen :
    Files
    → FileConflictPolicy
    → Table Task
    → Text
    → Text
    → Option (Outcome DownloadError Selected)
    → Type 0
Chosen files policy tasks directory file_name none = ⊥
Chosen files policy tasks directory file_name (some (err e)) = Unit {0}
Chosen files policy tasks directory file_name (some (ok s)) =
    (k : ℕ) × (s ≡ selected directory file_name k)
    × (free_at files tasks (selected directory file_name k) ≡ ok true)
    × ((i : ℕ) → i < k → free_at files tasks (selected directory file_name i) ≡ ok false)
    × (is_uniquify policy ≡ false → k ≡ 0)

module _ (files : Files) (policy : FileConflictPolicy) (tasks : Table Task) (directory : Text)
    (file_name : Text) where
  -- All copies before the k-th are taken.
  abbrev Passed : ℕ → Type 0
  Passed k =
      ((i : ℕ) → i < k → free_at files tasks (selected directory file_name i) ≡ ok false)
      × (is_uniquify policy ≡ false → k ≡ 0)

  Passed-next :
      (k : ℕ)
      → Passed k
      → free_at files tasks (selected directory file_name k) ≡ ok false
      → is_uniquify policy ≡ true
      → Passed (suc k)
  Passed-next k (taken, first) here copies = (
    λ i below. elim (dec_lt i k) [
      | yes h ↦ taken i h
      | no h ↦
          subst (λ (n : ℕ). free_at files tasks (selected directory file_name n) ≡ ok false)
            (omega arith) here
    ],
    λ none_made. absurd (true≢false (sym copies ∙ none_made)),
  )
    where
      true≢false : true ≡ false → ⊥
      true≢false e = cc

  Chosen-tried :
      (k j : ℕ) (o : Outcome DownloadError Bool) (rest : Option (Outcome DownloadError Selected))
      → free_at files tasks (selected directory file_name k) ≡ o
      → (free_at files tasks (selected directory file_name j) ≡ ok false → ⊥)
      → k ≤ j
      → Passed k
      → (suc k ≤ j → Passed (suc k) → Chosen files policy tasks directory file_name rest)
      → Chosen files policy tasks directory file_name
          (tried policy (selected directory file_name k) o rest)
  Chosen-tried k j (err e) rest here free from passed later = tt
  Chosen-tried k j (ok true) rest here free from passed later = (k, refl, here, passed.0, passed.1)
  Chosen-tried k j (ok false) rest here free from passed later =
      on_test (Chosen files policy tasks directory file_name) (is_uniquify policy)
        (λ copies.
          later
            (elim (dec_lt k j) [
              | yes h ↦ h
              | no h ↦ absurd (
                  free (
                    subst
                      (λ (n : ℕ). free_at files tasks (selected directory file_name n) ≡ ok false)
                      (omega arith) here))
            ])
            (Passed-next k passed here copies))
        (λ _. tt)

  Chosen-select_loop :
      (fuel k j : ℕ)
      → (free_at files tasks (selected directory file_name j) ≡ ok false → ⊥)
      → k ≤ j
      → j < k + fuel
      → Passed k
      → Chosen files policy tasks directory file_name
          (select_loop files policy tasks directory file_name fuel k)
  unfolding select_loop
  Chosen-select_loop zero k j free from upto passed = absurd (omega arith)
  Chosen-select_loop (suc fuel) k j free from upto passed =
      Chosen-tried k j _ _ refl free from passed
        (λ more passed'. Chosen-select_loop fuel (suc k) j free more (omega arith) passed')

-- The names of all copies that are taken are among the given ones.
abbrev pub TakenAmong : Files → Table Task → Text → Text → List Text → Type 0
TakenAmong files tasks directory file_name names =
    (k : ℕ)
    → free_at files tasks (selected directory file_name k) ≡ ok false
    → Member (candidate file_name k) names

pub select-Chosen :
    (fuel : ℕ) (files : Files) (m : Manager) (directory file_name : Text) (names : List Text)
    → TakenAmong files m.tasks directory file_name names
    → length names < fuel
    → Chosen files m.file_conflict_policy m.tasks directory file_name
        (select_http_destination fuel files m directory file_name)
unfolding select_http_destination
select-Chosen fuel files m directory file_name names busy enough =
    let (k, low, out) =
      pigeonhole Text-discrete (candidate file_name) names
        (λ j k _ _. candidate_inj file_name j k) in
    Chosen-select_loop files m.file_conflict_policy m.tasks directory file_name fuel 0 k
      (λ taken. out (busy k taken)) (omega arith) (omega arith)
      ((λ i below. absurd (omega arith)), λ _. refl)
