-- ===== src/Config/Coverage.antt =====
-- Which levels a zoom list holds: those that its tokens name.
use geomqtt.Base.{
  ℕ, zero, suc, ◌+◌, ◌-◌, List, [], ◌∷◌, ◌++◌, Option, none, some, Bool, false, ◌&&◌, ◌||◌, ◌≡◌,
  refl, arith, Text, ltb, leb, ◌==◌, any, trim, split_once, parse_uint, u8_max, if◌then◌else◌,
}
use geomqtt.Base.Results.{ok, err, ◌>>=◌, >>=-eq-ok}
use geomqtt.Config.Error.{ConfigError, bad_range, reversed_range, bad_zoom}
use geomqtt.Config.Zooms.{
  insert_sorted, sort_unstable, dedup_after, dedup, up_from, or_err, read_token, read_tokens,
  tokens, parse_zoom_list,
}

-- The first and the last level that a token names: `lo-hi`, or one level.
abbrev pub bounds : Text → Option (ℕ × ℕ)
bounds token = elim (split_once token b'-') [
  | some (lo, hi) ↦ elim (parse_uint u8_max (trim lo)) [
    | none ↦ none
    | some a ↦ elim (parse_uint u8_max (trim hi)) [ none ↦ none | some b ↦ some (a, b) ]
  ]
  | none ↦ elim (parse_uint u8_max token) [ none ↦ none | some z ↦ some (z, z) ]
]

abbrev pub within : ℕ → Option (ℕ × ℕ) → Bool
within z none = false
within z (some (lo, hi)) = leb lo z && leb z hi

abbrev pub covers : ℕ → Text → Bool
covers z token = within z (bounds token)

abbrev pub contains : ℕ → List ℕ → Bool
contains z = any (λ w. z == w)

contains-append : (z : ℕ) (xs ys : List ℕ) → contains z (xs ++ ys) ≡ contains z xs || contains z ys
contains-append z [] ys = refl
contains-append z (x ∷ xs) ys = ground (arith, contains-append z xs ys)

contains-insert_sorted :
    (z w : ℕ) (ws : List ℕ) → contains z (insert_sorted w ws) ≡ (z == w) || contains z ws
unfolding insert_sorted
contains-insert_sorted z w [] = refl
contains-insert_sorted z w (v ∷ ws) = ground (arith, contains-insert_sorted z w ws)

contains-sort_unstable : (z : ℕ) (ws : List ℕ) → contains z (sort_unstable ws) ≡ contains z ws
unfolding sort_unstable
contains-sort_unstable z [] = refl
contains-sort_unstable z (w ∷ ws) =
    ground (arith, contains-insert_sorted z w (sort_unstable ws), contains-sort_unstable z ws)

contains-dedup_after :
    (z w : ℕ) (ws : List ℕ) → (z == w) || contains z (dedup_after w ws) ≡ (z == w) || contains z ws
unfolding dedup_after
contains-dedup_after z w [] = refl
contains-dedup_after z w (v ∷ ws) =
    ground (arith, contains-dedup_after z w ws, contains-dedup_after z v ws)

contains-dedup : (z : ℕ) (ws : List ℕ) → contains z (dedup ws) ≡ contains z ws
unfolding dedup
contains-dedup z [] = refl
contains-dedup z (w ∷ ws) = contains-dedup_after z w ws

contains-up_from : (z lo n : ℕ) → contains z (up_from lo n) ≡ leb lo z && ltb z (lo + n)
unfolding up_from
contains-up_from z lo zero = ground arith
contains-up_from z lo (suc n) = ground (arith, contains-up_from z (lo + 1) n)

contains-read_single :
    (z : ℕ) (e : ConfigError) (o : Option ℕ) (zs : List ℕ)
    → (or_err e o >>= λ w. ok (w ∷ [])) ≡ ok zs
    → contains z zs ≡ within z (elim o [ none ↦ none | some w ↦ some (w, w) ])
unfolding or_err
contains-read_single z e none zs h = cc
contains-read_single z e (some w) zs h = let same : w ∷ [] ≡ zs = cc in rw (← same) (ground arith)

contains-read_range :
    (z : ℕ) (e r : ConfigError) (o p : Option ℕ) (zs : List ℕ)
    → (or_err e o >>= λ lo.
        or_err e p >>= λ hi. if ltb hi lo then err r else ok (up_from lo (hi + 1 - lo)))
      ≡ ok zs
    → contains z zs
      ≡ within z (elim o [ none ↦ none | some a ↦ elim p [ none ↦ none | some b ↦ some (a, b) ] ])
unfolding or_err
contains-read_range z e r none p zs h = cc
contains-read_range z e r (some lo) none zs h = cc
contains-read_range z e r (some lo) (some hi) zs h =
    ground (arith, contains-up_from z lo (hi + 1 - lo))

contains-read_token :
    (z : ℕ) (token : Text) (zs : List ℕ) → read_token token ≡ ok zs → contains z zs ≡ covers z token
unfolding read_token
contains-read_token z token zs h = go (split_once token b'-') h
  where
    go :
        (cut : Option (Text × Text))
        → elim cut [
          | some (lo, hi) ↦
              (or_err (bad_range token) (parse_uint u8_max (trim lo)) >>= λ lo'.
              or_err (bad_range token) (parse_uint u8_max (trim hi)) >>= λ hi'.
              if ltb hi' lo' then err (reversed_range token) else ok (up_from lo' (hi' + 1 - lo')))
          | none ↦ (or_err (bad_zoom token) (parse_uint u8_max token) >>= λ w. ok (w ∷ []))
        ]
          ≡ ok zs
        → contains z zs
          ≡ within z (elim cut [
            | some (lo, hi) ↦ elim (parse_uint u8_max (trim lo)) [
              | none ↦ none
              | some a ↦ elim (parse_uint u8_max (trim hi)) [ none ↦ none | some b ↦ some (a, b) ]
            ]
            | none ↦ elim (parse_uint u8_max token) [ none ↦ none | some w ↦ some (w, w) ]
          ])
    go none k = contains-read_single z _ _ zs k
    go (some (lo, hi)) k = contains-read_range z _ _ _ _ zs k

contains-read_tokens :
    (z : ℕ) (ts : List Text) (out r : List ℕ)
    → read_tokens ts out ≡ ok r
    → contains z r ≡ contains z out || any (covers z) ts
unfolding read_tokens
contains-read_tokens z [] out r h = ground arith
contains-read_tokens z (t ∷ ts) out r h =
    let (zs, read, rest) = >>=-eq-ok (read_token t) _ r h in
    ground (
      arith,
      contains-read_tokens z ts (out ++ zs) r rest,
      contains-append z out zs,
      contains-read_token z t zs read,
    )

-- A zoom list that is read holds exactly the levels that one of its tokens names, alone or in a
-- range.
pub contains-parse_zoom_list :
    (s : Text) (out : List ℕ) (z : ℕ)
    → parse_zoom_list s ≡ ok out
    → contains z out ≡ any (covers z) (tokens s)
unfolding parse_zoom_list
contains-parse_zoom_list s out z h =
    let (zs, read, e) = >>=-eq-ok (read_tokens (tokens s) []) _ out h in
    ground (
      arith,
      contains-dedup z (sort_unstable zs),
      contains-sort_unstable z zs,
      contains-read_tokens z (tokens s) [] zs read,
    )
