-- ===== src/Config/Zooms.antt =====
-- config.rs: the list of zoom levels.
use geomqtt.Base.{
  ℕ, zero, suc, ◌+◌, ◌-◌, List, [], ◌∷◌, ◌++◌, Option, none, some, true, false, map, filter, Bool,
  Text, trim, split, split_once, parse_uint, u8_max, ltb, leb, ◌==◌, if◌then◌else◌, min,
}
use geomqtt.Base.Results.{Result, ok, err, ◌>>=◌}
use geomqtt.Config.Error.{ConfigError, bad_range, reversed_range, bad_zoom}

unfoldable pub is_filled : Text → Bool
is_filled [] = false
is_filled (c ∷ s) = true

-- `split(',').map(str::trim).filter(|t| !t.is_empty())`
unfoldable pub tokens : Text → List Text
unfolding is_filled
tokens s = filter is_filled (map trim (split s b','))

-- `lo..=hi` as the count of its values
unfoldable pub up_from : ℕ → ℕ → List ℕ
up_from lo zero = []
up_from lo (suc n) = lo ∷ up_from (lo + 1) n

unfoldable pub or_err : {A : Type 0} → ConfigError → Option A → Result ConfigError A
or_err e none = err e
or_err e (some a) = ok a

-- What one token adds to `out`.
unfoldable pub read_token : Text → Result ConfigError (List ℕ)
unfolding or_err
read_token token = elim (split_once token b'-') [
  | some (lo, hi) ↦ (do
    lo' ← or_err (bad_range token) (parse_uint u8_max (trim lo))
    hi' ← or_err (bad_range token) (parse_uint u8_max (trim hi))
    if ltb hi' lo' then err (reversed_range token) else ok (up_from lo' (hi' + 1 - lo')))
  | none ↦ (do z ← or_err (bad_zoom token) (parse_uint u8_max token); ok (z ∷ []))
]

unfoldable pub read_tokens : List Text → List ℕ → Result ConfigError (List ℕ)
read_tokens [] out = ok out
read_tokens (token ∷ rest) out = do zs ← read_token token; read_tokens rest (out ++ zs)

-- `sort_unstable`, of which numbers show only the order.
unfoldable pub insert_sorted : ℕ → List ℕ → List ℕ
insert_sorted z [] = z ∷ []
insert_sorted z (w ∷ ws) = if leb z w then z ∷ w ∷ ws else w ∷ insert_sorted z ws

unfoldable pub sort_unstable : List ℕ → List ℕ
unfolding insert_sorted
sort_unstable [] = []
sort_unstable (z ∷ zs) = insert_sorted z (sort_unstable zs)

-- Of a run of equal numbers the first one stays.
unfoldable pub dedup_after : ℕ → List ℕ → List ℕ
dedup_after z [] = []
dedup_after z (w ∷ ws) = elim (z == w) [ true ↦ dedup_after z ws | false ↦ w ∷ dedup_after w ws ]

unfoldable pub dedup : List ℕ → List ℕ
unfolding dedup_after
dedup [] = []
dedup (z ∷ zs) = z ∷ dedup_after z zs

unfoldable pub parse_zoom_list : Text → Result ConfigError (List ℕ)
parse_zoom_list s = do out ← read_tokens (tokens s) []; ok (dedup (sort_unstable out))

-- `u8::saturating_add`
unfoldable pub saturating_add : ℕ → ℕ → ℕ
saturating_add a b = min (a + b) u8_max

unfoldable pub effective_zooms : ℕ → List ℕ → List ℕ
unfolding saturating_add
effective_zooms offset raw = map (λ z. saturating_add z offset) raw
