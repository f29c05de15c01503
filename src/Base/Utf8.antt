-- ===== src/Base/Utf8.antt =====
-- UTF-8, as `std::str::from_utf8` checks it (RFC 3629: no overlong form, no surrogate).
use Prim.Native.Nat.{ℕ, zero, suc, ◌<◌}
use mathlib.Core.Path.{◌≡◌, refl}
use mathlib.Core.Bool.{Bool, true, false, ◌&&◌}
use mathlib.Core.List.{[], ◌∷◌, ◌++◌}
use mathlib.Core.Option.{Option, none, some}
use native.Mathlib.Omega.{arith}
use geomqtt.Base.Tests.{ltb, leb, ◌==◌, if◌then◌else◌}
use geomqtt.Base.Lists.{All}
use geomqtt.Base.Strings.{Bytes}

-- What a leading byte asks for: how many bytes follow, and the range of the next one.
lead : ℕ → Option (ℕ × ℕ × ℕ)
lead c =
    if ltb c 0x80
    then some (0, 0, 0)
    else if ltb c 0xC2
    then none
    else if ltb c 0xE0
    then some (1, 0x80, 0xBF)
    else if c == 0xE0
    then some (2, 0xA0, 0xBF)
    else if c == 0xED
    then some (2, 0x80, 0x9F)
    else if ltb c 0xF0
    then some (2, 0x80, 0xBF)
    else if c == 0xF0
    then some (3, 0x90, 0xBF)
    else if ltb c 0xF4
    then some (3, 0x80, 0xBF)
    else if c == 0xF4
    then some (3, 0x80, 0x8F)
    else none

run : Bytes → ℕ → ℕ → ℕ → Bool
unfolding lead
run [] need lo hi = need == 0
run (c ∷ s) zero lo hi = elim (lead c) [ none ↦ false | some (n, l, h) ↦ run s n l h ]
run (c ∷ s) (suc n) lo hi = elim (leb lo c && leb c hi) [ true ↦ run s n 0x80 0xBF | false ↦ false ]

unfoldable pub is_utf8 : Bytes → Bool
unfolding run
is_utf8 s = run s 0 0 0

-- `std::str::from_utf8`
unfoldable pub from_utf8 : Bytes → Option Bytes
unfolding is_utf8
from_utf8 s = if is_utf8 s then some s else none

abbrev pub IsAscii : Bytes → Type 0
IsAscii = All (λ c. c < 128)

run_ascii : (s : Bytes) (lo hi : ℕ) → IsAscii s → run s 0 lo hi ≡ true
unfolding run
run_ascii [] lo hi h = refl
run_ascii (c ∷ s) lo hi h = ground (arith, run_ascii s 0 0 h.1)

pub is_utf8_ascii : (s : Bytes) → IsAscii s → is_utf8 s ≡ true
unfolding is_utf8
is_utf8_ascii s h = run_ascii s 0 0 h

-- U+FFFD
replacement : Bytes
replacement = 0xEF ∷ 0xBF ∷ 0xBD ∷ []

-- `held` is the part of a character that has been read.
lossy_run : Bytes → ℕ → ℕ → ℕ → Bytes → Bytes
unfolding lead replacement
lossy_run [] zero lo hi held = []
lossy_run [] (suc n) lo hi held = replacement
lossy_run (c ∷ s) zero lo hi held = elim (lead c) [
  | none ↦ replacement ++ lossy_run s 0 0 0 []
  | some (n, l, h) ↦ elim (n == 0) [
    | true ↦ c ∷ lossy_run s 0 0 0 []
    | false ↦ lossy_run s n l h (c ∷ [])
  ]
]
lossy_run (c ∷ s) (suc n) lo hi held = elim (leb lo c && leb c hi) [
  | true ↦ elim (n == 0) [
    | true ↦ (held ++ c ∷ []) ++ lossy_run s 0 0 0 []
    | false ↦ lossy_run s n 0x80 0xBF (held ++ c ∷ [])
  ]
  | false ↦ elim (lead c) [
    | none ↦ replacement ++ (replacement ++ lossy_run s 0 0 0 [])
    | some (m, l, h) ↦ elim (m == 0) [
      | true ↦ replacement ++ c ∷ lossy_run s 0 0 0 []
      | false ↦ replacement ++ lossy_run s m l h (c ∷ [])
    ]
  ]
]

-- `String::from_utf8_lossy`: each part that is no character is replaced.
unfoldable pub from_utf8_lossy : Bytes → Bytes
unfolding lossy_run
from_utf8_lossy s = lossy_run s 0 0 0 []

lossy_cut : from_utf8_lossy (0x41 ∷ 0xE2 ∷ 0x82 ∷ 0x41 ∷ []) ≡ 0x41 ∷ 0xEF ∷ 0xBF ∷ 0xBD ∷ 0x41 ∷ []
unfolding from_utf8_lossy
lossy_cut = refl

euro : is_utf8 (0xE2 ∷ 0x82 ∷ 0xAC ∷ []) ≡ true
unfolding is_utf8
euro = refl

surrogate : is_utf8 (0xED ∷ 0xA0 ∷ 0x80 ∷ []) ≡ false
unfolding is_utf8
surrogate = refl

cut_short : is_utf8 (0xE2 ∷ 0x82 ∷ []) ≡ false
unfolding is_utf8
cut_short = refl
