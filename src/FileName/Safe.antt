-- ===== src/FileName/Safe.antt =====
-- What a safe file name is.
use downpeed_fluter.Paths.{text_eq}
use downpeed_fluter.Base.{
  text, ◌==◌, Text-discrete, ite, if◌then◌else◌, ℕ, ◌≡◌, refl, arith, Bool, true, false, [], ◌∷◌,
  map, All, Text, ap, ◌∙◌,
}
use downpeed_fluter.Strings.Trim.{
  first_is, last_is, All-trim, first-trim_right, first-trim_left, last-trim_right, trim_kept,
}
use downpeed_fluter.Strings.{is_control, trim_left, trim, trim_space, is_space}
use downpeed_fluter.FileName.{
  upper, is_port, is_forbidden, safe_char, is_dot, is_windows_reserved_file_name, unreserved,
  safe_file_name, before_dot,
}

abbrev pub Allowed : ℕ → Type 0
Allowed c = (is_control c ≡ false) × (is_forbidden c ≡ false)

-- No control character and none of <>:"/\|?*, no dot at either end, and not a reserved name.
pub record IsSafe (name : Text) : Type 0 where
  pub allowed : All Allowed name
  pub no_first_dot : first_is is_dot name ≡ false
  pub no_last_dot : last_is is_dot name ≡ false
  pub not_reserved : is_windows_reserved_file_name name ≡ false

safe_char-Allowed : (c : ℕ) → Allowed (safe_char c)
unfolding safe_char is_control
safe_char-Allowed c = ground arith

map-Allowed : (s : Text) → All Allowed (map safe_char s)
map-Allowed [] = tt
map-Allowed (c ∷ s) = (safe_char-Allowed c, map-Allowed s)

text_eq_head : (a b : ℕ) (s t : Text) → (a == b) ≡ false → text_eq (a ∷ s) (b ∷ t) ≡ false
text_eq_head a b s t e = elim (Text-discrete (a ∷ s) (b ∷ t)) as (λ x. ite x true false ≡ false) [
  | yes same ↦ absurd (ground arith)
  | no differ ↦ refl
]

is_port_underscored : (t : Text) → is_port (b'_' ∷ t) ≡ false
is_port_underscored [] = refl
is_port_underscored (b ∷ []) = refl
is_port_underscored (b ∷ c ∷ []) = refl
is_port_underscored (b ∷ c ∷ d ∷ []) = ground (
  arith,
  text_eq_head b'_' b'C' (b ∷ c ∷ []) (text "OM") refl,
  text_eq_head b'_' b'L' (b ∷ c ∷ []) (text "PT") refl,
)
is_port_underscored (b ∷ c ∷ d ∷ e ∷ t) = refl

underscored : (s : Text) → is_windows_reserved_file_name (b'_' ∷ s) ≡ false
unfolding is_windows_reserved_file_name before_dot
underscored s =
    let rest = map upper (before_dot s) in
    rw
      (
        text_eq_head b'_' b'C' rest (text "ON") refl,
        text_eq_head b'_' b'P' rest (text "RN") refl,
        text_eq_head b'_' b'A' rest (text "UX") refl,
        text_eq_head b'_' b'N' rest (text "UL") refl,
      )
      (is_port_underscored rest)

unreserved-IsSafe :
    (s : Text) (reserved : Bool)
    → is_windows_reserved_file_name s ≡ reserved
    → All Allowed s
    → first_is is_dot s ≡ false
    → last_is is_dot s ≡ false
    → IsSafe (if reserved then b'_' ∷ s else s)
unfolding is_control
unreserved-IsSafe s false e a f l = record {
  allowed = a;
  no_first_dot = f;
  no_last_dot = l;
  not_reserved = e;
}
unreserved-IsSafe [] true e a f l = record {
  allowed = (ground arith, tt);
  no_first_dot = refl;
  no_last_dot = refl;
  not_reserved = underscored [];
}
unreserved-IsSafe (c ∷ s) true e a f l = record {
  allowed = (ground arith, a);
  no_first_dot = refl;
  no_last_dot = l;
  not_reserved = underscored (c ∷ s);
}

-- Whatever the text, the file name that is made of it has no control character and none of the
-- characters <>:"/\|?*, no dot at either end, and is none of the names that Windows reserves, with
-- or without an extension.
pub safe_file_name-IsSafe : (value : Text) → IsSafe (safe_file_name value)
unfolding safe_file_name trim trim_space
safe_file_name-IsSafe value =
    unreserved-IsSafe name (is_windows_reserved_file_name name) refl
      (All-trim Allowed is_dot (trim_space mapped)
        (All-trim Allowed is_space mapped (map-Allowed value)))
      (first-trim_right is_dot (trim_left is_dot (trim_space mapped))
        (first-trim_left is_dot (trim_space mapped)))
      (last-trim_right is_dot (trim_left is_dot (trim_space mapped)))
  where
    mapped : Text
    mapped = map safe_char value

    name : Text
    name = trim is_dot (trim_space mapped)

map_kept : (s : Text) → All Allowed s → map safe_char s ≡ s
unfolding safe_char
map_kept [] a = refl
map_kept (c ∷ s) a = let same : safe_char c ≡ c = ground arith in rw (same, map_kept s a.1) refl

-- A safe file name is kept by making it safe again, if it has no space at either end. A name may
-- have one: the dots are trimmed after the spaces.
pub safe_file_name_kept :
    (name : Text) → IsSafe name → trim_space name ≡ name → safe_file_name name ≡ name
unfolding safe_file_name
safe_file_name_kept name safe trimmed =
    ap (λ x. unreserved (trim is_dot (trim_space x))) (map_kept name safe.allowed)
    ∙ ap (λ x. unreserved (trim is_dot x)) trimmed
    ∙ ap unreserved (trim_kept is_dot name safe.no_first_dot safe.no_last_dot)
    ∙ ap (λ (b : Bool). if b then b'_' ∷ name else name) safe.not_reserved
