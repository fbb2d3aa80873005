-- ===== src/Strings.antt =====
-- What the code uses of Go's package strings, on texts.
pub mod Trim
use downpeed_fluter.Base.{
  ℕ, Bool, true, false, ◌&&◌, ◌||◌, [], ◌∷◌, leb, ltb, ◌==◌, if◌then◌else◌, Text,
}

abbrev pub is_empty : Text → Bool
is_empty [] = true
is_empty (c ∷ s) = false

-- HasPrefix, the prefix first.
unfoldable pub has_prefix : Text → Text → Bool
has_prefix [] s = true
has_prefix (p ∷ ps) [] = false
has_prefix (p ∷ ps) (c ∷ s) = p == c && has_prefix ps s

-- TrimLeftFunc and TrimRightFunc.
unfoldable pub trim_left : (ℕ → Bool) → Text → Text
trim_left drop [] = []
trim_left drop (c ∷ s) = if drop c then trim_left drop s else c ∷ s

abbrev pub keep_before : (ℕ → Bool) → ℕ → Text → Text
keep_before drop c [] = if drop c then [] else c ∷ []
keep_before drop c (d ∷ s) = c ∷ d ∷ s

unfoldable pub trim_right : (ℕ → Bool) → Text → Text
trim_right drop [] = []
trim_right drop (c ∷ s) = keep_before drop c (trim_right drop s)

unfoldable pub trim : (ℕ → Bool) → Text → Text
unfolding trim_left trim_right
trim drop s = trim_right drop (trim_left drop s)

-- unicode.IsSpace.
unfoldable pub is_space : ℕ → Bool
is_space c =
    (leb 0x09 c && leb c 0x0d)
    || c == 0x20
    || c == 0x85
    || c == 0xa0
    || c == 0x1680
    || (leb 0x2000 c && leb c 0x200a)
    || c == 0x2028
    || c == 0x2029
    || c == 0x202f
    || c == 0x205f
    || c == 0x3000

-- unicode.IsControl.
unfoldable pub is_control : ℕ → Bool
is_control c = ltb c 0x20 || (leb 0x7f c && ltb c 0xa0)

unfoldable pub trim_space : Text → Text
unfolding trim is_space
trim_space s = trim is_space s
