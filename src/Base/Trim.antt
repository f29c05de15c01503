-- ===== src/Base/Trim.antt =====
-- `str::trim`, `str::split` at an ASCII character, and `trim_end_matches`.
use mathlib.Core.Bool.{Bool, true, false, ◌&&◌, ◌||◌}
use mathlib.Core.Option.{Option, none, some}
use mathlib.Core.List.{List, [], ◌∷◌, ◌++◌, reverse}
use Prim.Native.Nat.{ℕ}
use mathlib.Core.Path.{◌≡◌, refl}
use native.Mathlib.Omega.{arith}
use geomqtt.Base.Tests.{leb, ◌==◌, if◌then◌else◌}
use geomqtt.Base.Strings.{Text, lit, Lacks}

-- The characters of `char::is_whitespace`, by the length of their UTF-8.
space1 : ℕ → Bool
space1 a = (leb 9 a && leb a 13) || a == 32

space2 : ℕ → ℕ → Bool
space2 a b = a == 0xC2 && (b == 0x85 || b == 0xA0)

space3 : ℕ → ℕ → ℕ → Bool
space3 a b c =
    (a == 0xE1 && b == 0x9A && c == 0x80)
    || (a == 0xE2
        && b == 0x80
        && ((leb 0x80 c && leb c 0x8A) || c == 0xA8 || c == 0xA9 || c == 0xAF))
    || (a == 0xE2 && b == 0x81 && c == 0x9F)
    || (a == 0xE3 && b == 0x80 && c == 0x80)

module _ (one : ℕ → Bool) (two : ℕ → ℕ → Bool) (three : ℕ → ℕ → ℕ → Bool) where
  strip_spaces : Text → Text
  strip_spaces [] = []
  strip_spaces (a ∷ []) = if one a then [] else a ∷ []
  strip_spaces (a ∷ b ∷ []) =
      let after1 = strip_spaces (b ∷ []) in
      if one a then after1 else if two a b then [] else a ∷ b ∷ []
  strip_spaces (a ∷ b ∷ c ∷ s) =
      let after1 = strip_spaces (b ∷ c ∷ s) in
      let after2 = strip_spaces (c ∷ s) in
      let after3 = strip_spaces s in
      if one a
      then after1
      else if two a b
      then after2
      else if three a b c
      then after3
      else a ∷ b ∷ c ∷ s

trim_start : Text → Text
trim_start = strip_spaces space1 space2 space3

trim_end : Text → Text
trim_end s = reverse (strip_spaces space1 (λ b a. space2 a b) (λ c b a. space3 a b c) (reverse s))

unfoldable pub trim : Text → Text
unfolding trim_start trim_end strip_spaces space1 space2 space3
trim s = trim_end (trim_start s)

-- The text up to the first space.
up_to_space : Text → Text
unfolding space1 space2 space3
up_to_space [] = []
up_to_space (a ∷ []) = if space1 a then [] else a ∷ []
up_to_space (a ∷ b ∷ []) =
    let rest = up_to_space (b ∷ []) in if space1 a || space2 a b then [] else a ∷ rest
up_to_space (a ∷ b ∷ c ∷ s) =
    let rest = up_to_space (b ∷ c ∷ s) in
    if space1 a || space2 a b || space3 a b c then [] else a ∷ rest

some_word : Text → Option Text
some_word [] = none
some_word (c ∷ s) = some (c ∷ s)

-- `s.split_whitespace().next()`
unfoldable pub first_word : Text → Option Text
unfolding trim_start up_to_space some_word strip_spaces space1 space2 space3
first_word s = some_word (up_to_space (trim_start s))

-- `s.split(c)`: one part more than there are separators.
unfoldable pub split : Text → ℕ → List Text
split [] sep = [] ∷ []
split (c ∷ s) sep = elim (c == sep) [
  | true ↦ [] ∷ split s sep
  | false ↦ elim (split s sep) [ [] ↦ (c ∷ []) ∷ [] | p ∷ ps ↦ (c ∷ p) ∷ ps ]
]

pub split-Lacks : (a : Text) (sep : ℕ) → Lacks sep a → split a sep ≡ a ∷ []
unfolding split
split-Lacks [] sep h = refl
split-Lacks (c ∷ a) sep h = ground (arith, split-Lacks a sep h.1)

pub split-append : (a b : Text) (sep : ℕ) → Lacks sep a → split (a ++ sep ∷ b) sep ≡ a ∷ split b sep
unfolding split
split-append [] b sep h = ground arith
split-append (c ∷ a) b sep h = ground (arith, split-append a b sep h.1)

drop_while : ℕ → Text → Text
drop_while c [] = []
drop_while c (d ∷ s) = elim (d == c) [ true ↦ drop_while c s | false ↦ d ∷ s ]

-- `s.trim_end_matches(c)`
unfoldable pub trim_end_matches : Text → ℕ → Text
unfolding drop_while
trim_end_matches s c = reverse (drop_while c (reverse s))

trim_test : trim (lit "\t 6-12 \n") ≡ lit "6-12"
unfolding trim
trim_test = refl

split_test : split (lit "4,,6") b',' ≡ lit "4" ∷ [] ∷ lit "6" ∷ []
unfolding split
split_test = refl

first_word_test : first_word (lit "\t 2048 kB") ≡ some (lit "2048")
unfolding first_word
first_word_test = refl
