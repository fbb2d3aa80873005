-- ===== src/Numbers/Digits.antt =====
-- What is printed is read back, in every base up to 36, so that different numbers look different.
use downpeed_fluter.Base.{
  ℕ, zero, suc, ◌+◌, ◌-◌, ◌*◌, ◌/◌, ◌%◌, ◌≤◌, ◌<◌, ◌≡◌, ◌∙◌, sym, ap, arith, ltb, [], ◌∷◌, Text,
  if◌then◌else◌, Bool-cases, inl, inr,
}
use downpeed_fluter.Numbers.{digit, format_loop, format_uint}

abbrev digit_value : ℕ → ℕ
digit_value c = if ltb c b':' then c - b'0' else c + 10 - b'a'

read_base : ℕ → ℕ → Text → ℕ
read_base base acc [] = acc
read_base base acc (c ∷ s) = read_base base (acc * base + digit_value c) s

digit_back : (d : ℕ) → d < 36 → digit_value (digit d) ≡ d
digit_back d h = ground arith

quotient_lt : (n base : ℕ) → 2 ≤ base → base ≤ n → n / base < n
quotient_lt n base two h = grind arith

last_digit :
    (base n : ℕ) → 2 ≤ base → base ≤ 36 → n / base * base + digit_value (digit (n % base)) ≡ n
last_digit base n two few = rw (digit_back (n % base) (grind arith)) (grind arith)

read-format_loop :
    (base fuel n : ℕ) (acc : Text)
    → 2 ≤ base
    → base ≤ 36
    → n < fuel
    → read_base base 0 (format_loop base fuel n acc) ≡ read_base base n acc
unfolding format_loop read_base
read-format_loop base zero n acc two few enough = elim enough [ ]
read-format_loop base (suc fuel) n acc two few enough = elim (Bool-cases (ltb n base)) [
  | inl last ↦ rw last (ground (arith, digit_back n))
  | inr more ↦ rw more (
      read-format_loop base fuel (n / base) (digit (n % base) ∷ acc) two few
        (ground (arith, quotient_lt n base two))
      ∙ ap (λ m. read_base base m acc) (last_digit base n two few))
]

-- Numbers that are printed alike in a base from 2 to 36 are equal.
pub format_uint_inj :
    (base m n : ℕ) → 2 ≤ base → base ≤ 36 → format_uint base m ≡ format_uint base n → m ≡ n
unfolding format_uint read_base
format_uint_inj base m n two few same =
    sym (read-format_loop base (suc m) m [] two few (omega arith))
    ∙ ap (read_base base 0) same
    ∙ read-format_loop base (suc n) n [] two few (omega arith)
