-- ===== src/Node/Select.antt =====
-- main.rs: what `select!` picks.
use geomqtt.Base.{List, [], ◌∷◌, Option, none, some, ◌≡◌, refl, sym, ap, ◌∙◌}
use mathlib.Core.List.{Memᴰ}
use geomqtt.Base.Results.{Result}
use geomqtt.Node.Main.{Failure, Branch, select}

pub select_from :
    (order : List Branch) (ready : Branch → Option (Result Failure (Unit {0})))
    (r : Result Failure (Unit {0}))
    → select order ready ≡ some r
    → (b : Branch) × (ready b ≡ some r)
unfolding select
select_from [] ready r e = cc
select_from (b ∷ bs) ready r e = go (ready b) refl (select_from bs ready r) e
  where
    go :
        (o : Option (Result Failure (Unit {0})))
        → ready b ≡ o
        → (select bs ready ≡ some r → (c : Branch) × (ready c ≡ some r))
        → (elim o as (λ _. Option (Result Failure (Unit {0}))) [
          | none ↦ select bs ready
          | some q ↦ some q
        ])
          ≡ some r
        → (c : Branch) × (ready c ≡ some r)
    go none at later h = later h
    go (some q) at later h = (b, at ∙ h)

pub select_ready :
    (order : List Branch) (ready : Branch → Option (Result Failure (Unit {0}))) (b : Branch)
    → Memᴰ b order
    → (r : Result Failure (Unit {0})) → ready b ≡ some r
    → (q : Result Failure (Unit {0})) × (select order ready ≡ some q)
unfolding select
select_ready [] ready b h r e = elim h [ ]
select_ready (c ∷ cs) ready b (Memᴰ.head same) r e = (r, rw (ap ready (sym same) ∙ e, select) refl)
select_ready (c ∷ cs) ready b (Memᴰ.tail there) r e =
    first (ready c) (select_ready cs ready b there r e)
  where
    first :
        (o : Option (Result Failure (Unit {0})))
        → (q : Result Failure (Unit {0})) × (select cs ready ≡ some q)
        → (q : Result Failure (Unit {0})) × ((elim o as (λ _. Option (Result Failure (Unit {0}))) [
          | none ↦ select cs ready
          | some q ↦ some q
        ])
            ≡ some q)
    first (some q) later = (q, refl)
    first none later = later

pub select_waits :
    (order : List Branch) (ready : Branch → Option (Result Failure (Unit {0})))
    → ((b : Branch) → ready b ≡ none)
    → select order ready ≡ none
unfolding select
select_waits [] ready h = refl
select_waits (b ∷ bs) ready h = rw (h b, select) (select_waits bs ready h)
