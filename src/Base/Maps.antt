-- ===== src/Base/Maps.antt =====
-- A Go map keyed by text, as an association list. Go's order of iteration is left open by it.
use Prim.Native.Nat.{ℕ, suc, ◌+◌, ◌≤◌}
use mathlib.Core.Path.{◌≡◌, refl}
use mathlib.Core.Logic.{ite}
use mathlib.Core.List.{List, [], ◌∷◌, ◌++◌}
use mathlib.Core.Option.{Option, none, some}
use native.Mathlib.Omega.{arith}
use downpeed_fluter.Base.Lists.{length}
use downpeed_fluter.Base.Codes.{Text, Text-discrete}

abbrev pub Table {ℓ} : Type ℓ → Type ℓ
Table V = List (Text × V)

module _ {ℓ} {V : Type ℓ} where
  unfoldable pub lookup : Text → Table V → Option V
  lookup k [] = none
  lookup k ((j, v) ∷ m) = ite (Text-discrete j k) (some v) (lookup k m)

  unfoldable pub insert : Text → V → Table V → Table V
  insert k v [] = (k, v) ∷ []
  insert k v ((j, w) ∷ m) = ite (Text-discrete j k) ((k, v) ∷ m) ((j, w) ∷ insert k v m)

  unfoldable pub delete : Text → Table V → Table V
  delete k [] = []
  delete k ((j, v) ∷ m) = let rest = delete k m in ite (Text-discrete j k) rest ((j, v) ∷ rest)

  pub lookup-insert :
      (k j : Text) (v : V) (m : Table V)
      → lookup j (insert k v m) ≡ ite (Text-discrete k j) (some v) (lookup j m)
  unfolding lookup insert
  lookup-insert k j v [] = refl
  lookup-insert k j v ((i, w) ∷ m) = ground (arith, lookup-insert k j v m)

  pub lookup-delete :
      (k j : Text) (m : Table V) → lookup j (delete k m) ≡ ite (Text-discrete k j) none (lookup j m)
  unfolding lookup delete
  lookup-delete k j [] = ground arith
  lookup-delete k j ((i, w) ∷ m) = ground (arith, lookup-delete k j m)

  pub length-insert-le : (k : Text) (v : V) (m : Table V) → length (insert k v m) ≤ suc (length m)
  unfolding insert
  length-insert-le k v [] = omega arith
  length-insert-le k v ((i, w) ∷ m) = ground (arith, length-insert-le k v m)

  pub length-insert-new :
      (k : Text) (v : V) (m : Table V) → lookup k m ≡ none → length (insert k v m) ≡ suc (length m)
  unfolding lookup insert
  length-insert-new k v [] h = refl
  length-insert-new k v ((i, w) ∷ m) h = ground (arith, length-insert-new k v m)

  pub length-delete-le : (k : Text) (m : Table V) → length (delete k m) ≤ length m
  unfolding delete
  length-delete-le k [] = omega arith
  length-delete-le k ((i, w) ∷ m) = ground (arith, length-delete-le k m)

-- How often a text stands in a list.
unfoldable pub count : Text → List Text → ℕ
count k [] = 0
count k (j ∷ xs) = let rest = count k xs in ite (Text-discrete j k) (suc rest) rest

-- The list without a text, wherever it stands.
unfoldable pub remove : Text → List Text → List Text
remove k [] = []
remove k (j ∷ xs) = let rest = remove k xs in ite (Text-discrete j k) rest (j ∷ rest)

pub count-append : (k : Text) (xs ys : List Text) → count k (xs ++ ys) ≡ count k xs + count k ys
unfolding count
count-append k [] ys = omega arith
count-append k (x ∷ xs) ys = ground (arith, count-append k xs ys)

pub count-remove :
    (k j : Text) (xs : List Text) → count j (remove k xs) ≡ ite (Text-discrete k j) 0 (count j xs)
unfolding count remove
count-remove k j [] = ground arith
count-remove k j (x ∷ xs) = ground (arith, count-remove k j xs)
