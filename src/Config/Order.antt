-- ===== src/Config/Order.antt =====
-- The zoom list is sorted, and no level stands in it twice.
use geomqtt.Base.{
  ℕ, ◌≤◌, ◌<◌, List, [], ◌∷◌, ◌≡◌, arith, Text, leb, ◌==◌, Bool-cases, inl, inr, subst,
}
use geomqtt.Base.Results.{ok, >>=-eq-ok}
use geomqtt.Config.Zooms.{
  insert_sorted, sort_unstable, dedup_after, dedup, read_tokens, tokens, parse_zoom_list,
}

-- Each number is at least the one before it, the first at least `b`.
abbrev AtLeast : ℕ → List ℕ → Type 0
AtLeast b [] = Unit
AtLeast b (z ∷ zs) = (b ≤ z) × AtLeast z zs

-- Each number is above the one before it, the first above `b`.
abbrev pub Above : ℕ → List ℕ → Type 0
Above b [] = Unit
Above b (z ∷ zs) = (b < z) × Above z zs

abbrev pub IsAscending : List ℕ → Type 0
IsAscending [] = Unit
IsAscending (z ∷ zs) = Above z zs

insert_sorted-AtLeast :
    (z b : ℕ) (ws : List ℕ) → b ≤ z → AtLeast b ws → AtLeast b (insert_sorted z ws)
unfolding insert_sorted
insert_sorted-AtLeast z b [] h k = (h, tt)
insert_sorted-AtLeast z b (w ∷ ws) h (kw, ks) = elim (Bool-cases (leb z w)) [
  | inl e ↦ rw e (h, (ground arith, ks))
  | inr e ↦ rw e (kw, insert_sorted-AtLeast z w ws (ground arith) ks)
]

sort_unstable-AtLeast : (zs : List ℕ) → AtLeast 0 (sort_unstable zs)
unfolding sort_unstable
sort_unstable-AtLeast [] = tt
sort_unstable-AtLeast (z ∷ zs) =
    insert_sorted-AtLeast z 0 _ (omega arith) (sort_unstable-AtLeast zs)

dedup_after-Above : (z : ℕ) (ws : List ℕ) → AtLeast z ws → Above z (dedup_after z ws)
unfolding dedup_after
dedup_after-Above z [] h = tt
dedup_after-Above z (w ∷ ws) (hw, hs) = elim (Bool-cases (z == w)) [
  | inl e ↦
      let same : z ≡ w = ground arith in rw (e, dedup_after) (dedup_after-Above z ws (rw same hs))
  | inr e ↦ rw (e, dedup_after) (ground arith, dedup_after-Above w ws hs)
]

dedup-IsAscending : (b : ℕ) (zs : List ℕ) → AtLeast b zs → IsAscending (dedup zs)
unfolding dedup
dedup-IsAscending b [] h = tt
dedup-IsAscending b (z ∷ zs) h = dedup_after-Above z zs h.1

-- Every zoom list that is read is strictly ascending.
parse_zoom_list-IsAscending :
    (s : Text) (out : List ℕ) → parse_zoom_list s ≡ ok out → IsAscending out
unfolding parse_zoom_list
parse_zoom_list-IsAscending s out h =
    let (zs, _, e) = >>=-eq-ok (read_tokens (tokens s) []) _ out h in
    let same : dedup (sort_unstable zs) ≡ out = cc in
    subst IsAscending same (dedup-IsAscending 0 _ (sort_unstable-AtLeast zs))
