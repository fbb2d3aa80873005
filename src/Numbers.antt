-- ===== src/Numbers.antt =====
-- Numbers in text: strconv.FormatUint, the verbs %d and %x of fmt, and strconv.ParseInt in base 10.
pub mod Digits
use downpeed_fluter.Base.{
  ℕ, zero, suc, ◌+◌, ◌-◌, ◌*◌, ◌/◌, ◌%◌, ◌≤◌, ◌<◌, Bool, true, false, not, ◌&&◌, ◌||◌, ltb, leb,
  ◌==◌, List, [], ◌∷◌, all, Option, none, some, if◌then◌else◌, Text, ℤ, pos, negsuc, ◌^◌,
}
use downpeed_fluter.Strings.{is_empty}

abbrev pub digit : ℕ → ℕ
digit d = if ltb d 10 then b'0' + d else b'a' + (d - 10)

-- The digits of a number, the last ones first, in front of `acc`.
unfoldable pub format_loop : ℕ → ℕ → ℕ → Text → Text
format_loop base zero n acc = acc
format_loop base (suc fuel) n acc =
    let rest = format_loop base fuel (n / base) (digit (n % base) ∷ acc) in
    if ltb n base then digit n ∷ acc else rest

-- A number above zero has fewer digits than its value, so that this fuel is enough.
unfoldable pub format_uint : ℕ → ℕ → Text
unfolding format_loop
format_uint base n = format_loop base (suc n) n []

abbrev pub is_digit : ℕ → Bool
is_digit c = leb b'0' c && leb c b'9'

unfoldable pub read_digits : ℕ → Text → ℕ
read_digits acc [] = acc
read_digits acc (c ∷ s) = read_digits (acc * 10 + (c - b'0')) s

abbrev pub signed : Bool → ℕ → Option ℤ
signed negative n =
    if negative
    then (if n == 0 then some (pos 0) else if leb n (2 ^ 63) then some (negsuc (n - 1)) else none)
    else (if ltb n (2 ^ 63) then some (pos n) else none)

abbrev pub parse_digits : Bool → Text → Option ℤ
parse_digits negative s =
    if is_empty s || not (all is_digit s) then none else signed negative (read_digits 0 s)

-- strconv.ParseInt of base 10 and 64 bits; the kind of error is left out.
unfoldable pub parse_int : Text → Option ℤ
unfolding read_digits
parse_int [] = none
parse_int (c ∷ s) =
    if c == b'+'
    then parse_digits false s
    else if c == b'-'
    then parse_digits true s
    else parse_digits false (c ∷ s)
