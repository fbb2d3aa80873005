-- ===== src/FileName.antt =====
-- File names: backend/internal/download/filename.go. ToUpper is written for ASCII letters: no other
-- letter has one of the letters of the reserved names as its upper case.
pub mod Safe
pub mod Tests
use downpeed_fluter.Base.{
  ℕ, ◌-◌, Bool, true, false, ◌&&◌, ◌||◌, [], ◌∷◌, ◌++◌, ◌==◌, leb, any, map, if◌then◌else◌, Text,
  text,
}
use downpeed_fluter.Strings.{is_control, trim, trim_space}
use downpeed_fluter.Paths.{text_eq}

-- One of <>:"/\|?*.
abbrev pub is_forbidden : ℕ → Bool
is_forbidden c =
    c == 60 || c == 62 || c == 58 || c == 34 || c == 47 || c == 92 || c == 124 || c == 63 || c == 42

unfoldable pub safe_char : ℕ → ℕ
unfolding is_control
safe_char c = if is_control c || is_forbidden c then b'_' else c

abbrev pub is_dot : ℕ → Bool
is_dot c = c == b'.'

-- What stands before the first dot.
unfoldable pub before_dot : Text → Text
before_dot [] = []
before_dot (c ∷ s) = let rest = before_dot s in if is_dot c then [] else c ∷ rest

abbrev pub upper : ℕ → ℕ
upper c = if leb b'a' c && leb c b'z' then c - 32 else c

-- COM1 to COM9 and LPT1 to LPT9.
abbrev pub is_port : Text → Bool
is_port (a ∷ b ∷ c ∷ d ∷ []) =
    (text_eq (a ∷ b ∷ c ∷ []) (text "COM") || text_eq (a ∷ b ∷ c ∷ []) (text "LPT"))
    && leb b'1' d
    && leb d b'9'
is_port _ = false

unfoldable pub is_windows_reserved_file_name : Text → Bool
unfolding before_dot
is_windows_reserved_file_name value =
    let base = map upper (before_dot value) in
    any (text_eq base) (text "CON" ∷ text "PRN" ∷ text "AUX" ∷ text "NUL" ∷ []) || is_port base

abbrev pub unreserved : Text → Text
unreserved value = if is_windows_reserved_file_name value then b'_' ∷ value else value

unfoldable pub safe_file_name : Text → Text
unfolding safe_char trim trim_space is_windows_reserved_file_name
safe_file_name value = unreserved (trim is_dot (trim_space (map safe_char value)))
