-- ===== src/Manager/Create/Ids.antt =====
-- Create finds an ID that is not taken (backend/internal/download/manager.go).
use downpeed_fluter.Base.{
  ◌^◌, ℕ, zero, suc, ◌+◌, ◌/◌, ◌%◌, ◌≤◌, ◌<◌, ◌≡◌, ◌≢◌, ◌∙◌, inl, inr, refl, sym, ap, subst, arith,
  List, [], ◌∷◌, ◌++◌, length, Option, none, some, Text, ltb, on_test, All, Table, lookup, Member,
  Option-cases, Text-discrete, if_neg, dec_lt, pigeonhole,
}
use downpeed_fluter.Numbers.{digit, format_loop, format_uint}
use downpeed_fluter.Manager.Create.{Surroundings, task_id, format_uint, Task, id_at, id_loop}
use downpeed_fluter.Numbers.Digits.{format_uint_inj}

-- No hexadecimal digit is a dash.
digit-ne-dash : (d : ℕ) → digit d ≢ b'-'
digit-ne-dash d e = ground arith

NoDash : Text → Type 0
NoDash s = All (λ (c : ℕ). c ≢ b'-') s

format_loop-NoDash : (fuel n : ℕ) (acc : Text) → NoDash acc → NoDash (format_loop 16 fuel n acc)
unfolding format_loop NoDash
format_loop-NoDash zero n acc h = h
format_loop-NoDash (suc fuel) n acc h =
    on_test NoDash (ltb n 16) (λ _. (digit-ne-dash n, h))
      (λ _. format_loop-NoDash fuel (n / 16) (digit (n % 16) ∷ acc) (digit-ne-dash (n % 16), h))

after_dash : (s t u v : Text) → NoDash s → NoDash t → s ++ (b'-' ∷ u) ≡ t ++ (b'-' ∷ v) → u ≡ v
unfolding NoDash
after_dash [] [] u v p q e = cc
after_dash [] (d ∷ t) u v p (q, qs) e = absurd (q (cc))
after_dash (c ∷ s) [] u v (p, ps) q e = absurd (p (cc))
after_dash (c ∷ s) (d ∷ t) u v (p, ps) (q, qs) e = after_dash s t u v ps qs (cc)

-- IDs with different sequence numbers are different.
task_id_inj : (a b j k : ℕ) → task_id a j ≡ task_id b k → j % 2 ^ 64 ≡ k % 2 ^ 64
unfolding task_id format_uint NoDash
task_id_inj a b j k e = format_uint_inj 16 (j % 2 ^ 64) (k % 2 ^ 64) (omega arith) (omega arith) (
    after_dash (format_uint 16 (a / 1000000)) (format_uint 16 (b / 1000000)) _ _
      (format_loop-NoDash (suc (a / 1000000)) (a / 1000000) [] tt)
      (format_loop-NoDash (suc (b / 1000000)) (b / 1000000) [] tt) e)

same_number : (s j k : ℕ) → j < 2 ^ 64 → k < 2 ^ 64 → (s + j) % 2 ^ 64 ≡ (s + k) % 2 ^ 64 → j ≡ k
same_number s j k p q e = omega arith

reordered :
    (s j k : ℕ)
    → (s + j + 1) % 2 ^ 64 ≡ (s + k + 1) % 2 ^ 64
    → (s + 1 + j) % 2 ^ 64 ≡ (s + 1 + k) % 2 ^ 64
reordered s j k e = omega arith

none-ne-some : {A : Type 0} {a : A} → ◌≢◌ {A = Option A} none (some a)
none-ne-some e = cc

module _ (around : Surroundings) (tasks : Table Task) (sequence : ℕ) where
  abbrev pub id_of : ℕ → Text
  id_of drawn = (id_at around sequence drawn).id

  after_taken :
      (drawn j : ℕ) {task : Task}
      → drawn ≤ j
      → lookup (id_of drawn) tasks ≡ some task
      → lookup (id_of j) tasks ≡ none
      → suc drawn ≤ j
  after_taken drawn j {task} from there free = elim (dec_lt drawn j) [
    | yes h ↦ h
    | no h ↦ absurd (
        none-ne-some
          (sym (subst (λ (n : ℕ). lookup (id_of n) tasks ≡ none) (omega arith) free) ∙ there))
  ]

  id_of_inj : (n j k : ℕ) → n < 2 ^ 64 → j ≤ n → k ≤ n → id_of j ≡ id_of k → j ≡ k
  id_of_inj n j k small p q e =
      same_number (sequence + 1) j k (omega arith) (omega arith)
        (reordered (sequence) j k (task_id_inj _ _ (sequence + j + 1) (sequence + k + 1) e))

  find_id :
      (fuel drawn j : ℕ)
      → lookup (id_of j) tasks ≡ none
      → drawn ≤ j
      → j < drawn + fuel
      → (i : ℕ) × (i ≤ j)
        × (id_loop around tasks sequence fuel drawn ≡ some (id_at around sequence i))
        × (lookup (id_of i) tasks ≡ none)
  unfolding id_loop
  find_id zero drawn j free from upto = absurd (omega arith)
  find_id (suc fuel) drawn j free from upto = elim (Option-cases (lookup (id_of drawn) tasks)) [
    | inl here ↦ (drawn, from, rw here refl, here)
    | inr (task, there) ↦
        let (i, low, found_is, new) =
          find_id fuel (suc drawn) j free (after_taken drawn j from there free) (omega arith) in
        (i, low, rw there found_is, new)
  ]

keys : Table Task → List Text
keys [] = []
keys ((id, task) ∷ rest) = id ∷ keys rest

lookup-not_key :
    (id : Text) (tasks : Table Task) → (Member id (keys tasks) → ⊥) → lookup id tasks ≡ none
unfolding keys lookup
lookup-not_key id [] out = refl
lookup-not_key id ((j, task) ∷ rest) out = elim (Text-discrete j id) [
  | yes e ↦ absurd (out (inl (sym e)))
  | no ne ↦ rw (if_neg _ ne) (lookup-not_key id rest (λ m. out (inr m)))
]

length-keys : (tasks : Table Task) → length (keys tasks) ≡ length tasks
unfolding keys
length-keys [] = refl
length-keys (e ∷ rest) = ap suc (length-keys rest)

-- The loop that draws an ID ends within one round more than there are tasks, with the first ID that
-- is not taken, if there are less than 2 ^ 64 tasks.
pub id_loop-fresh :
    (around : Surroundings) (tasks : Table Task) (sequence fuel : ℕ)
    → length tasks < 2 ^ 64
    → length tasks < fuel
    → (i : ℕ) × (i ≤ length tasks)
      × (id_loop around tasks sequence fuel 0 ≡ some (id_at around sequence i))
      × (lookup (id_at around sequence i).id tasks ≡ none)
id_loop-fresh around tasks sequence fuel few enough =
    let count = length-keys tasks in
    let (k, low, out) =
      pigeonhole Text-discrete (id_of around tasks sequence) (keys tasks)
        (λ j k p q. id_of_inj around tasks sequence (length (keys tasks)) j k (omega arith) p q) in
    let (i, first, is, new) =
      find_id around tasks sequence fuel 0 k (lookup-not_key _ tasks out) (omega arith)
        (omega arith) in
    (i, omega arith, is, new)
