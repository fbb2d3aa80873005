-- ===== src/Paths.antt =====
-- What the code uses of Go's package path/filepath, as it is on Unix.
use downpeed_fluter.Base.{
  ℕ, Bool, true, false, List, [], ◌∷◌, ◌++◌, ◌==◌, if◌then◌else◌, Text, text, Text-discrete, ite,
  ◌||◌, not, any, ◌&&◌,
}
use mathlib.Core.List.{reverse}
use mathlib.Core.Logic.{ite}
use downpeed_fluter.Strings.{is_empty, trim_right}

unfoldable pub is_abs : Text → Bool
is_abs [] = false
is_abs (c ∷ s) = c == b'/'

abbrev pub text_eq : Text → Text → Bool
text_eq s t = ite (Text-discrete s t) true false

-- The parts between the slashes, the first one in front of `rest`.
abbrev pub in_front : ℕ → List Text → List Text
in_front c [] = (c ∷ []) ∷ []
in_front c (part ∷ rest) = (c ∷ part) ∷ rest

unfoldable pub split_path : Text → List Text
split_path [] = [] ∷ []
split_path (c ∷ s) = let rest = split_path s in if c == b'/' then [] ∷ rest else in_front c rest

-- One part of a path, on the parts kept so far, the last one first.
abbrev pub parent_of : Bool → List Text → List Text
parent_of rooted [] = if rooted then [] else text ".." ∷ []
parent_of rooted (part ∷ kept) = if text_eq part (text "..") then text ".." ∷ part ∷ kept else kept

abbrev pub clean_part : Bool → Text → List Text → List Text
clean_part rooted part kept =
    if is_empty part || text_eq part (text ".")
    then kept
    else if text_eq part (text "..")
    then parent_of rooted kept
    else part ∷ kept

unfoldable pub clean_parts : Bool → List Text → List Text → List Text
clean_parts rooted kept [] = kept
clean_parts rooted kept (part ∷ rest) = clean_parts rooted (clean_part rooted part kept) rest

unfoldable pub join_parts : List Text → Text
join_parts [] = []
join_parts (part ∷ []) = part
join_parts (part ∷ next ∷ rest) = part ++ b'/' ∷ join_parts (next ∷ rest)

abbrev pub or_dot : Text → Text
or_dot [] = text "."
or_dot (c ∷ s) = c ∷ s

unfoldable pub clean : Text → Text
unfolding is_abs split_path clean_parts join_parts
clean path =
    let kept = reverse (clean_parts (is_abs path) [] (split_path path)) in
    if is_abs path then b'/' ∷ join_parts kept else or_dot (join_parts kept)

-- Join of two elements, which leaves out empty ones.
unfoldable pub join : Text → Text → Text
unfolding clean
join directory name =
    if is_empty directory
    then (if is_empty name then [] else clean name)
    else if is_empty name
    then clean directory
    else clean (directory ++ b'/' ∷ name)

-- What stands behind the last slash, and what stands up to it, with it.
unfoldable pub after_slash : Text → Text
after_slash [] = []
after_slash (c ∷ s) =
    let rest = after_slash s in
    if any (λ d. d == b'/') s then rest else if c == b'/' then s else c ∷ s

unfoldable pub up_to_slash : Text → Text
up_to_slash [] = []
up_to_slash (c ∷ s) =
    let rest = up_to_slash s in if any (λ d. d == b'/') (c ∷ s) then c ∷ rest else []

-- Dir
unfoldable pub dir : Text → Text
unfolding clean up_to_slash
dir path = clean (up_to_slash path)

abbrev pub or_slash : Text → Text
or_slash [] = text "/"
or_slash (c ∷ s) = c ∷ s

-- Base
unfoldable pub base : Text → Text
unfolding after_slash trim_right
base path =
    if is_empty path then text "." else or_slash (after_slash (trim_right (λ c. c == b'/') path))

-- Ext: from the last dot of the last element on.
unfoldable pub ext : Text → Text
ext [] = []
ext (c ∷ s) =
    let rest = ext s in
    if not (is_empty rest)
    then rest
    else if c == b'.' && not (any (λ d. d == b'/') s)
    then c ∷ s
    else []
