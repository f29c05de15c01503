-- ===== src/Base/Number.antt =====
-- `{}` and `str::parse` of Rust's unsigned integers, in decimal.
use Prim.Native.Nat.{ℕ, zero, suc, ◌+◌, ◌-◌, ◌*◌, ◌/◌, ◌%◌, ◌^◌, ◌≤◌, ◌<◌}
use mathlib.Core.Path.{◌≡◌, refl, ◌∙◌}
use mathlib.Core.Logic.{◌≢◌, ◌⊎◌, inl, inr}
use mathlib.Core.Bool.{Bool, ◌&&◌}
use mathlib.Core.List.{[], ◌∷◌, cons-ne-nil}
use mathlib.Core.Option.{Option, none, some}
use native.Mathlib.Omega.{arith}
use native.Mathlib.Nat.{pow-suc}
use geomqtt.Base.Tests.{leb, ◌==◌, Bool-cases, if◌then◌else◌}
use geomqtt.Base.Lists.{All}
use geomqtt.Base.Strings.{Text, Lacks}

-- The digits of `n` in front of `out`; the fuel bounds their number.
unfoldable pub digits : ℕ → ℕ → Text → Text
digits zero n out = out
digits (suc f) n out =
    let more = digits f (n / 10) ((b'0' + n % 10) ∷ out) in
    if n / 10 == 0 then (b'0' + n % 10) ∷ out else more

-- A `u64` has twenty digits at most.
unfoldable pub show : ℕ → Text
show n = digits 20 n []

is_digit : ℕ → Bool
is_digit c = leb b'0' c && leb c b'9'

-- `checked_mul(10)` and `checked_add(digit)` at the largest value `top` of the type
scan : ℕ → Text → ℕ → Option ℕ
unfolding is_digit
scan top [] n = some n
scan top (c ∷ s) n =
    if is_digit c && leb (n * 10 + (c - b'0')) top then scan top s (n * 10 + (c - b'0')) else none

-- `parse::<uN>()`: one `+` may stand in front, and at least one digit is wanted.
unfoldable pub parse_uint : ℕ → Text → Option ℕ
unfolding scan
parse_uint top [] = none
parse_uint top (c ∷ []) = scan top (c ∷ []) 0
parse_uint top (c ∷ d ∷ s) = if c == b'+' then scan top (d ∷ s) 0 else scan top (c ∷ d ∷ s) 0

abbrev pub u8_max : ℕ
u8_max = 255

abbrev pub u16_max : ℕ
u16_max = 65535

abbrev pub u32_max : ℕ
u32_max = 4294967295

abbrev pub u64_max : ℕ
u64_max = 18446744073709551615

abbrev IsDigit : ℕ → Type 0
IsDigit c = (b'0' ≤ c) × (c ≤ b'9')

digits-IsDigit : (f n : ℕ) (out : Text) → All IsDigit out → All IsDigit (digits f n out)
unfolding digits
digits-IsDigit zero n out h = h
digits-IsDigit (suc f) n out h = ground (arith, digits-IsDigit f (n / 10) ((b'0' + n % 10) ∷ out))

All-Lacks : (b : ℕ) (s : Text) → (b < b'0') ⊎ (b'9' < b) → All IsDigit s → Lacks b s
All-Lacks b [] h d = tt
All-Lacks b (c ∷ s) h d = (omega arith, All-Lacks b s h d.1)

-- Any character that is no digit is missing from a printed number.
pub show-Lacks : (b n : ℕ) → (b < b'0') ⊎ (b'9' < b) → Lacks b (show n)
unfolding show
show-Lacks b n h = All-Lacks b _ h (digits-IsDigit 20 n [] tt)

scan_last :
    (top n : ℕ) (out : Text) → n ≤ top → scan top ((b'0' + n % 10) ∷ out) (n / 10) ≡ scan top out n
unfolding scan
scan_last top n out k = ground arith

scan-digits :
    (top f n : ℕ) (out : Text) → n < 10 ^ f → n ≤ top → scan top (digits f n out) 0 ≡ scan top out n
unfolding digits
scan-digits top zero n out h k = let e : n ≡ 0 = omega arith in rw e
scan-digits top (suc f) n out h k =
    let room : n / 10 < 10 ^ f = omega (arith, pow-suc 10 f) in
    let deeper = scan-digits top f (n / 10) ((b'0' + n % 10) ∷ out) room (omega arith) in
    ground (arith, scan_last top n out k, deeper)

digits-ne-nil : (f n : ℕ) (out : Text) → out ≢ [] → digits f n out ≢ []
unfolding digits
digits-ne-nil zero n out h = h
digits-ne-nil (suc f) n out h = ground (arith, digits-ne-nil f (n / 10) ((b'0' + n % 10) ∷ out))

parse-scan : (top : ℕ) (s : Text) → s ≢ [] → All IsDigit s → parse_uint top s ≡ scan top s 0
unfolding parse_uint
parse-scan top [] h d = absurd (h refl)
parse-scan top (c ∷ []) h d = refl
parse-scan top (c ∷ e ∷ s) h d = ground arith

digits-suc-ne-nil : (f n : ℕ) (out : Text) → digits (suc f) n out ≢ []
unfolding digits
digits-suc-ne-nil f n out = elim (Bool-cases (n / 10 == 0)) [
  | inl e ↦ rw e (cons-ne-nil _ _)
  | inr e ↦ rw e (digits-ne-nil f (n / 10) _ (cons-ne-nil _ _))
]

-- A number that fits the type is read back from its print.
pub parse-show : (top n : ℕ) → n ≤ top → n ≤ u64_max → parse_uint top (show n) ≡ some n
unfolding show scan
parse-show top n h k =
    parse-scan top _ (digits-suc-ne-nil 19 n []) (digits-IsDigit 20 n [] tt)
    ∙ scan-digits top 20 n [] (omega arith) h

-- What is read fits the type.
scan-le : (top : ℕ) (s : Text) (n r : ℕ) → n ≤ top → scan top s n ≡ some r → r ≤ top
unfolding scan
scan-le top [] n r h e = ground arith
scan-le top (c ∷ s) n r h e = ground (arith, scan-le top s (n * 10 + (c - b'0')) r)

pub parse_uint-le : (top : ℕ) (s : Text) (r : ℕ) → parse_uint top s ≡ some r → r ≤ top
unfolding parse_uint
parse_uint-le top [] r e = cc
parse_uint-le top (c ∷ []) r e = scan-le top (c ∷ []) 0 r (omega arith) e
parse_uint-le top (c ∷ d ∷ s) r e =
    ground (arith, scan-le top (d ∷ s) 0 r, scan-le top (c ∷ d ∷ s) 0 r)
