-- ===== src/Base/Strings.antt =====
-- Rust strings. A `String` or `&str` is the list of its UTF-8 bytes, so `as_bytes` is the identity.
use Prim.Native.Nat.{ℕ, zero, suc}
use Prim.Native.Char.{code}
use Prim.Native.String.{String}
use mathlib.Core.Path.{◌≡◌, refl, subst}
use mathlib.Core.Logic.{◌≢◌, ◌↔◌}
use mathlib.Core.Bool.{Bool, true, false, ◌&&◌}
use mathlib.Core.List.{List, [], ◌∷◌, ◌++◌}
use mathlib.Core.Option.{Option, none, some}
use native.Mathlib.Omega.{arith}
use geomqtt.Base.Tests.{◌==◌, ==_refl, if◌then◌else◌}
use geomqtt.Base.Lists.{All}

abbrev pub Bytes : Type 0
Bytes = List ℕ

abbrev pub Text : Type 0
Text = Bytes

-- A literal of the source, which is ASCII.
abbrev pub lit : String → Text
lit String.[] = []
lit (String.◌∷◌ c s) = code c ∷ lit s

abbrev pub Lacks : ℕ → Bytes → Type 0
Lacks b = All (λ c. c ≢ b)

-- `==` on strings
unfoldable pub text_eq : Text → Text → Bool
text_eq [] [] = true
text_eq [] (d ∷ t) = false
text_eq (c ∷ s) [] = false
text_eq (c ∷ s) (d ∷ t) = c == d && text_eq s t

pub text_eq_iff : (s t : Text) → (text_eq s t ≡ true) ↔ (s ≡ t)
unfolding text_eq
text_eq_iff [] [] = ground arith
text_eq_iff [] (d ∷ t) = ground arith
text_eq_iff (c ∷ s) [] = ground arith
text_eq_iff (c ∷ s) (d ∷ t) = ground (arith, text_eq_iff s t)

pub text_eq_refl : (s : Text) → text_eq s s ≡ true
text_eq_refl s = (text_eq_iff s s).1 refl

-- `s.strip_prefix(p)`
unfoldable pub strip_prefix : Text → Text → Option Text
strip_prefix s [] = some s
strip_prefix [] (d ∷ p) = none
strip_prefix (c ∷ s) (d ∷ p) = if c == d then strip_prefix s p else none

pub strip_prefix-append : (p s : Text) → strip_prefix (p ++ s) p ≡ some s
unfolding strip_prefix
strip_prefix-append [] s = refl
strip_prefix-append (c ∷ p) s = rw ==_refl (strip_prefix-append p s)

strip_prefix_sound : (s p r : Text) → strip_prefix s p ≡ some r → s ≡ p ++ r
unfolding strip_prefix
strip_prefix_sound s [] r h = ground arith
strip_prefix_sound [] (d ∷ p) r h = ground arith
strip_prefix_sound (c ∷ s) (d ∷ p) r h = ground (arith, strip_prefix_sound s p r)

-- `s.split_once(c)`: cuts at the first `c`.
unfoldable pub split_once : Text → ℕ → Option (Text × Text)
split_once [] sep = none
split_once (c ∷ s) sep = elim (c == sep) [
  | true ↦ some ([], s)
  | false ↦ elim (split_once s sep) [ none ↦ none | some (a, b) ↦ some (c ∷ a, b) ]
]

pub split_once-append :
    (a b : Text) (sep : ℕ) → Lacks sep a → split_once (a ++ sep ∷ b) sep ≡ some (a, b)
unfolding split_once
split_once-append [] b sep h = ground arith
split_once-append (c ∷ a) b sep h = ground (arith, split_once-append a b sep h.1)

split_once-Lacks : (a : Text) (sep : ℕ) → Lacks sep a → split_once a sep ≡ none
unfolding split_once
split_once-Lacks [] sep h = refl
split_once-Lacks (c ∷ a) sep h = ground (arith, split_once-Lacks a sep h.1)

split_once_sound :
    (s a b : Text) (sep : ℕ) → split_once s sep ≡ some (a, b) → (s ≡ a ++ sep ∷ b) × Lacks sep a
unfolding split_once
split_once_sound [] a b sep h = ground arith
split_once_sound (c ∷ s) [] b sep h = ground arith
split_once_sound (c ∷ s) (d ∷ a) b sep h = ground (arith, split_once_sound s a b sep)

-- `s.splitn(n, c)`: at most `n` parts, the last one is all that is left.
unfoldable pub splitn : ℕ → Text → ℕ → List Text
splitn zero s sep = []
splitn (suc zero) s sep = s ∷ []
splitn (suc (suc n)) s sep = elim (split_once s sep) [
  | none ↦ s ∷ []
  | some (a, b) ↦ a ∷ splitn (suc n) b sep
]

pub splitn-append :
    (n : ℕ) (a b : Text) (sep : ℕ)
    → Lacks sep a
    → splitn (suc (suc n)) (a ++ sep ∷ b) sep ≡ a ∷ splitn (suc n) b sep
unfolding splitn
splitn-append n a b sep h = rw (split_once-append a b sep h, splitn)

pub splitn-one : (s : Text) (sep : ℕ) → splitn 1 s sep ≡ s ∷ []
unfolding splitn
splitn-one s sep = refl

-- A part that is not the last one holds no separator.
pub splitn-second :
    (n : ℕ) (s a b c : Text) (rest : List Text) (sep : ℕ)
    → splitn (suc (suc (suc n))) s sep ≡ a ∷ b ∷ c ∷ rest
    → Lacks sep b
unfolding splitn
splitn-second n s a b c rest sep h = go (split_once s sep) h
  where
    inner :
        (o : Option (Text × Text)) (t : Text)
        → split_once t sep ≡ o
        → elim o [ none ↦ t ∷ [] | some (p, q) ↦ p ∷ splitn (suc n) q sep ] ≡ b ∷ c ∷ rest
        → Lacks sep b
    inner none t e k = cc
    inner (some (p, q)) t e k =
        let same : p ≡ b = cc in subst (Lacks sep) same (split_once_sound t p q sep e).1

    go :
        (o : Option (Text × Text))
        → elim o [ none ↦ s ∷ [] | some (p, q) ↦ p ∷ splitn (suc (suc n)) q sep ] ≡ a ∷ b ∷ c ∷ rest
        → Lacks sep b
    go none k = cc
    go (some (p, q)) k = inner (split_once q sep) q refl (cc)
