-- ===== src/Base/Text.antt =====
-- Python's `str` as its code points, with the methods that the program calls.
pub mod Suffix
pub mod Labels
pub mod Case
use Prim.Native.Char.{code}
use dockade.Base.{
  true, ℕ, ◌+◌, Bool, false, ◌&&◌, ◌||◌, Option, none, some, String, List, [], ◌∷◌, ◌++◌, map, leb,
  if◌then◌else◌, ◌==◌, is_empty, nat_eq, list_eq,
}

abbrev pub Text : Type 0
Text = List ℕ

-- The code points of a literal.
abbrev pub text : String → Text
text String.[] = []
text (String.◌∷◌ c s) = code c ∷ text s

-- `x or ""` and `x or None`
abbrev pub or_empty : Option Text → Text
or_empty none = []
or_empty (some t) = t

abbrev pub or_none : Option Text → Option Text
or_none none = none
or_none (some []) = none
or_none (some (c ∷ t)) = some (c ∷ t)

-- `lower()` on the letters A to Z; every other code point is left alone.
unfoldable pub lower_char : ℕ → ℕ
lower_char c = if leb b'A' c && leb c b'Z' then c + 32 else c

unfoldable pub lower : Text → Text
lower = map lower_char

-- `isspace()`
unfoldable pub is_space : ℕ → Bool
is_space c =
    leb 9 c && leb c 13
    || leb 28 c && leb c 32
    || c == 0x85
    || c == 0xa0
    || c == 0x1680
    || leb 0x2000 c && leb c 0x200a
    || leb 0x2028 c && leb c 0x2029
    || c == 0x202f
    || c == 0x205f
    || c == 0x3000

unfoldable pub lstrip : (ℕ → Bool) → Text → Text
lstrip p [] = []
lstrip p (c ∷ t) = if p c then lstrip p t else c ∷ t

unfoldable pub rstrip : (ℕ → Bool) → Text → Text
rstrip p [] = []
rstrip p (c ∷ t) = let rest = rstrip p t in if is_empty rest && p c then [] else c ∷ rest

-- `t.strip()`, and `t.strip(chars)` for the characters that satisfy `p`
unfoldable pub strip : (ℕ → Bool) → Text → Text
unfolding lstrip rstrip
strip p t = rstrip p (lstrip p t)

abbrev pub is_dot : ℕ → Bool
is_dot c = c == b'.'

-- `t.startswith(".")`
abbrev pub starts_with_dot : Text → Bool
starts_with_dot [] = false
starts_with_dot (c ∷ t) = is_dot c

-- `t[1:]`
abbrev pub tail : Text → Text
tail [] = []
tail (c ∷ t) = t

-- `t.endswith(suffix)`
unfoldable pub ends_with : Text → Text → Bool
ends_with [] suffix = is_empty suffix
ends_with (c ∷ t) suffix = c ∷ t == suffix || ends_with t suffix

abbrev pub split_push : ℕ → ℕ → List Text → List Text
split_push sep c [] = [] ∷ []
split_push sep c (l ∷ ls) = if c == sep then [] ∷ l ∷ ls else (c ∷ l) ∷ ls

-- `t.split(sep)` for a separator of one character
unfoldable pub split_on : ℕ → Text → List Text
split_on sep [] = [] ∷ []
split_on sep (c ∷ t) = split_push sep c (split_on sep t)

-- `t.split(".")`, one label at least
abbrev pub split_dot : Text → List Text
split_dot t = split_on b'.' t

-- `".".join(labels)`
unfoldable pub join_dot : List Text → Text
join_dot [] = []
join_dot (l ∷ []) = l
join_dot (l ∷ m ∷ ls) = l ++ b'.' ∷ join_dot (m ∷ ls)

-- What stands before the first `sep` and after it, as `t.partition(sep)` has them at 0 and 2
unfoldable pub partition : ℕ → Text → Text × Text
partition sep [] = ([], [])
partition sep (c ∷ t) =
    let (before, after) = partition sep t in if c == sep then ([], t) else (c ∷ before, after)

-- `str.startswith`
unfoldable pub starts_with : Text → Text → Bool
starts_with t [] = true
starts_with [] (p ∷ ps) = false
starts_with (c ∷ cs) (p ∷ ps) = c == p && starts_with cs ps
