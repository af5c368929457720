-- ===== src/Base/Text.antt =====
-- Python's `str` as the list of its code points. The case mappings and the white space are those
-- of ASCII, which is what header names, hosts, methods and media types are made of.
use Prim.Native.Nat.{ℕ, ◌+◌, ◌-◌}
use Prim.Native.Char.{code}
use Prim.Native.String.{String}
use mathlib.Core.Path.{◌≡◌, refl, ap₂}
use mathlib.Core.Bool.{Bool, true, false, ◌&&◌, ◌||◌}
use mathlib.Core.List.{List, [], ◌∷◌, map, reverse}
use native.Mathlib.Omega.{arith}
use pporlock.Base.Tests.{leb, eqb, if◌then◌else◌}
use pporlock.Base.Lists.{length, drop}
use pporlock.Base.Equality.{text_eq, nat_eq}

abbrev pub Text : Type 0
Text = List ℕ

abbrev pub codes : String → Text
codes String.[] = []
codes (String.◌∷◌ c s) = code c ∷ codes s

unfoldable pub lower_code : ℕ → ℕ
lower_code c = if leb b'A' c && leb c b'Z' then c + 32 else c

unfoldable pub upper_code : ℕ → ℕ
upper_code c = if leb b'a' c && leb c b'z' then c - 32 else c

-- `s.lower()`
unfoldable pub lower : Text → Text
unfolding lower_code
lower = map lower_code

-- `s.upper()`
unfoldable pub upper : Text → Text
unfolding upper_code
upper = map upper_code

unfoldable pub is_space : ℕ → Bool
is_space c = eqb c 32 || (leb 9 c && leb c 13)

unfoldable pub lstrip : Text → Text
unfolding is_space
lstrip [] = []
lstrip (c ∷ s) = let rest = lstrip s in if is_space c then rest else c ∷ s

-- `s.strip()`
unfoldable pub strip : Text → Text
unfolding lstrip
strip s = reverse (lstrip (reverse (lstrip s)))

-- `s.split(sep, 1)[0]`, `s.partition(sep)[0]` for a separator of one character
unfoldable pub before : ℕ → Text → Text
before sep [] = []
before sep (c ∷ s) = let rest = before sep s in if eqb c sep then [] else c ∷ rest

-- `s.partition(sep)[2]`
unfoldable pub after : ℕ → Text → Text
after sep [] = []
after sep (c ∷ s) = let rest = after sep s in if eqb c sep then s else rest

-- `s.startswith(t)`
unfoldable pub starts_with : Text → Text → Bool
starts_with s [] = true
starts_with [] (d ∷ t) = false
starts_with (c ∷ s) (d ∷ t) = eqb c d && starts_with s t

-- `t in s`
unfoldable pub has_part : Text → Text → Bool
unfolding starts_with
has_part [] t = starts_with [] t
has_part (c ∷ s) t = starts_with (c ∷ s) t || has_part s t

-- `s.split(t, 1)[1]`, where `t in s`
unfoldable pub after_part : Text → Text → Text
unfolding starts_with
after_part [] t = []
after_part (c ∷ s) t =
    let rest = after_part s t in if starts_with (c ∷ s) t then drop (length t) (c ∷ s) else rest

-- `x or None` of a text
abbrev pub non_empty : Text → Bool
non_empty [] = false
non_empty (_ ∷ _) = true

lower_code_idem : (c : ℕ) → lower_code (lower_code c) ≡ lower_code c
unfolding lower_code
lower_code_idem c = ground arith

pub lower-lower : (s : Text) → lower (lower s) ≡ lower s
unfolding lower
lower-lower [] = refl
lower-lower (c ∷ s) = ap₂ (λ d t. d ∷ t) (lower_code_idem c) (lower-lower s)

strip_example : strip (codes " a b ") ≡ codes "a b"
unfolding strip
strip_example = refl

has_part_example : has_part (codes "text/html; charset=utf-8") (codes "html") ≡ true
unfolding has_part
has_part_example = refl

-- `s <= t`, by code points
abbrev pub text_leb : Text → Text → Bool
text_leb [] t = true
text_leb (c ∷ s) [] = false
text_leb (c ∷ s) (d ∷ t) = let rest = text_leb s t in if eqb c d then rest else leb c d
