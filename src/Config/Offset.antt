-- ===== src/Config/Offset.antt =====
-- Which tile sizes are accepted, and the zoom levels that they add.
use geomqtt.Base.{
  ℕ, zero, suc, ◌*◌, ◌^◌, ◌≤◌, ◌<◌, some, Bool, true, not, ◌&&◌, ◌||◌, ◌≡◌, refl, arith, ◌+◌, false,
  if◌then◌else◌, Text, ltb, leb, ◌==◌, Option-cases, inl, inr, trim, parse_uint, u16_max, List, [],
  ◌∷◌, map, All,
}
use geomqtt.Base.Results.{ok}
use geomqtt.Config.Order.{Above, IsAscending}
use geomqtt.Config.TileSize.{
  is_power_of_two, check_tile_size, parse_tile_size, zoom_offset_for_tile_size,
}
use geomqtt.Config.Zooms.{saturating_add, effective_zooms}

-- The test holds of `len` numbers from `from` on.
each_from : (from len : ℕ) → (ℕ → Bool) → Bool
each_from from zero holds = true
each_from from (suc len) holds = if holds from then each_from (from + 1) len holds else false

each_from_at :
    (from len : ℕ) (holds : ℕ → Bool) (k : ℕ)
    → each_from from len holds ≡ true
    → from ≤ k
    → k < from + len
    → holds k ≡ true
unfolding each_from
each_from_at from zero holds k tested above below = absurd (omega arith)
each_from_at from (suc len) holds k tested above below =
    ground (arith, each_from_at (from + 1) len holds k)

abbrev scales : ℕ → Bool
scales v =
    not (is_power_of_two v)
    || (2 ^ zoom_offset_for_tile_size v * v == 256 && leb (zoom_offset_for_tile_size v) 8)

scales_table : each_from 0 257 scales ≡ true
unfolding each_from is_power_of_two zoom_offset_for_tile_size
scales_table = refl

pow_table :
    each_from 0 9 (λ k. is_power_of_two (2 ^ k) && (ltb 0 (2 ^ k) && leb (2 ^ k) 256)) ≡ true
unfolding each_from is_power_of_two
pow_table = refl

check_tile_size_sound :
    (w v : ℕ)
    → check_tile_size w ≡ ok v
    → (1 ≤ v)
      × (v ≤ 256)
      × (zoom_offset_for_tile_size v ≤ 8)
      × (2 ^ zoom_offset_for_tile_size v * v ≡ 256)
unfolding check_tile_size
check_tile_size_sound w v h = ground (arith, each_from_at 0 257 scales w scales_table)

-- An accepted tile size is between 1 and 256, and the zoom levels that it adds, eight at most,
-- make up for it: a tile of the standard size is `2 ^ offset` of its tiles wide.
pub parse_tile_size_sound :
    (s : Text) (v : ℕ)
    → parse_tile_size s ≡ ok v
    → (1 ≤ v)
      × (v ≤ 256)
      × (zoom_offset_for_tile_size v ≤ 8)
      × (2 ^ zoom_offset_for_tile_size v * v ≡ 256)
unfolding parse_tile_size
parse_tile_size_sound s v h = elim (Option-cases (parse_uint u16_max (trim s))) [
  | inl e ↦ cc
  | inr (w, e) ↦ check_tile_size_sound w v (rw (e, parse_tile_size) at h)
]

-- Every power of two up to 256 is accepted, with blanks around it too.
parse_tile_size_complete :
    (s : Text) (k : ℕ)
    → k ≤ 8
    → parse_uint u16_max (trim s) ≡ some (2 ^ k)
    → parse_tile_size s ≡ ok (2 ^ k)
unfolding parse_tile_size check_tile_size
parse_tile_size_complete s k h e =
    rw (e, parse_tile_size) (ground (arith, each_from_at 0 9 _ k pow_table))

saturating_add-le : (a b : ℕ) → a + b ≤ 255 → saturating_add a b ≡ a + b
unfolding saturating_add
saturating_add-le a b h = omega arith

Above-map :
    (b offset : ℕ) (zs : List ℕ)
    → All (λ z. z + offset ≤ 255) zs
    → Above b zs
    → Above (b + offset) (map (λ z. z + offset) zs)
Above-map b offset [] h k = tt
Above-map b offset (z ∷ zs) (hz, hs) (kz, ks) = (omega arith, Above-map z offset zs hs ks)

IsAscending-map :
    (offset : ℕ) (zs : List ℕ)
    → All (λ z. z + offset ≤ 255) zs
    → IsAscending zs
    → IsAscending (map (λ z. z + offset) zs)
IsAscending-map offset [] h k = tt
IsAscending-map offset (z ∷ zs) (hz, hs) k = Above-map z offset zs hs k

effective_zooms_exact :
    (offset : ℕ) (zs : List ℕ)
    → All (λ z. z + offset ≤ 255) zs
    → effective_zooms offset zs ≡ map (λ z. z + offset) zs
unfolding effective_zooms
effective_zooms_exact offset [] h = refl
effective_zooms_exact offset (z ∷ zs) (hz, hs) =
    cc (saturating_add-le z offset hz, effective_zooms_exact offset zs hs)

-- While no level passes 255, the effective levels are the raw ones raised by the offset, and they
-- are strictly ascending where the raw ones are.
effective_zooms-IsAscending :
    (offset : ℕ) (zs : List ℕ)
    → All (λ z. z + offset ≤ 255) zs
    → IsAscending zs
    → (effective_zooms offset zs ≡ map (λ z. z + offset) zs)
      × IsAscending (effective_zooms offset zs)
effective_zooms-IsAscending offset zs h k = (
  effective_zooms_exact offset zs h,
  rw (effective_zooms_exact offset zs h) (IsAscending-map offset zs h k),
)
