-- ===== src/Broker/Table.antt =====
-- What the broker promises, as a table: which session holds which filter.
use geomqtt.Base.{
  ℕ, List, [], ◌∷◌, ◌++◌, Option, none, some, Bool, true, false, not, ◌&&◌, ◌||◌, any, filter, ◌≡◌,
  refl, arith, Text, text_eq, text_eq_iff, text_eq_refl, ◌==◌, if◌then◌else◌, Bool-cases, inl, inr,
}
use geomqtt.Base.Assoc.{lookup, lookup-insert, lookup-remove, lookup-adjust}
use geomqtt.Broker.Defs.{
  Session, Broker, register, deregister, add_filter, subscribe, drop_filter, unsubscribe,
}

abbrev pub filters : Option Session → Text → Bool
filters none f = false
filters (some s) f = any (λ g. text_eq g f) s.subs

abbrev pub present : Option Session → Bool
present none = false
present (some s) = true

-- Whether the session `id` is registered, and whether it holds the filter `f`.
abbrev pub is_registered : Broker → ℕ → Bool
is_registered b id = present (lookup id b.sessions)

abbrev pub holds : Broker → ℕ → Text → Bool
holds b id f = filters (lookup id b.sessions) f

any-append :
    (f : Text) (gs hs : List Text)
    → any (λ g. text_eq g f) (gs ++ hs) ≡ any (λ g. text_eq g f) gs || any (λ g. text_eq g f) hs
any-append f [] hs = refl
any-append f (g ∷ gs) hs = ground (arith, any-append f gs hs)

any-filter :
    (f h : Text) (gs : List Text)
    → any (λ g. text_eq g f) (filter (λ g. not (text_eq g h)) gs)
      ≡ any (λ g. text_eq g f) gs && not (text_eq f h)
any-filter f h [] = refl
any-filter f h (g ∷ gs) =
    ground (arith, any-filter f h gs, text_eq_iff g f, text_eq_iff g h, text_eq_iff f h)

filters-add_filter :
    (s : Session) (f g : Text)
    → filters (some (add_filter g s)) f ≡ filters (some s) f || text_eq g f
unfolding add_filter
filters-add_filter s f g = elim (Bool-cases (text_eq g f)) [
  | inl e ↦
      let same : g ≡ f = (text_eq_iff g f).0 e in
      rw (same, text_eq_refl) (ground (arith, any-append f s.subs (f ∷ []), text_eq_refl f))
  | inr e ↦ rw e (ground (arith, any-append f s.subs (g ∷ []), e))
]

filters-drop_filter :
    (s : Session) (f g : Text)
    → filters (some (drop_filter g s)) f ≡ filters (some s) f && not (text_eq f g)
unfolding drop_filter
filters-drop_filter s f g = any-filter f g s.subs

change : (Session → Session) → Option Session → Option Session
change f o = elim o [ none ↦ none | some s ↦ some (f s) ]

added :
    (o : Option Session) (self : Bool) (g f : Text)
    → filters (if self then change (add_filter g) o else o) f
      ≡ filters o f || (self && present o && text_eq g f)
unfolding change
added none true g f = refl
added none false g f = refl
added (some s) true g f = filters-add_filter s f g
added (some s) false g f = ground arith

dropped :
    (o : Option Session) (self : Bool) (g f : Text)
    → filters (if self then change (drop_filter g) o else o) f
      ≡ filters o f && not (self && text_eq f g)
unfolding change
dropped none true g f = refl
dropped none false g f = refl
dropped (some s) true g f = filters-drop_filter s f g
dropped (some s) false g f = ground arith

registered :
    (o : Option Session) (self : Bool) (k : Session → Session)
    → present (if self then change k o else o) ≡ present o
unfolding change
registered none true k = refl
registered none false k = refl
registered (some s) true k = refl
registered (some s) false k = refl

-- A new session is registered under the next id and holds no filter; the others keep theirs.
holds-register :
    (b : Broker) (outbound id : ℕ) (f : Text)
    → (is_registered (register b outbound).0 id ≡ (id == b.next_id) || is_registered b id)
      × (holds (register b outbound).0 id f ≡ not (id == b.next_id) && holds b id f)
unfolding register
holds-register b outbound id f =
    let e = lookup-insert id b.next_id (record { outbound = outbound; subs = [] }) b.sessions in
    (ground (arith, e), ground (arith, e))

-- A session that is deregistered is gone with its filters; the others keep theirs.
pub holds-deregister :
    (b : Broker) (gone id : ℕ) (f : Text)
    → (is_registered (deregister b gone) id ≡ not (id == gone) && is_registered b id)
      × (holds (deregister b gone) id f ≡ not (id == gone) && holds b id f)
unfolding deregister
holds-deregister b gone id f =
    let e = lookup-remove id gone b.sessions in (ground (arith, e), ground (arith, e))

-- A subscription adds its filter to the session that makes it, if that is registered, and changes
-- no other entry of the table and no registration.
pub holds-subscribe :
    (b : Broker) (to id : ℕ) (g f : Text)
    → (is_registered (subscribe b to g) id ≡ is_registered b id)
      × (holds (subscribe b to g) id f
          ≡ holds b id f || ((id == to) && is_registered b id && text_eq g f))
unfolding subscribe change
holds-subscribe b to id g f =
    let o = lookup id b.sessions in
    let e = lookup-adjust id to (add_filter g) b.sessions in
    (rw e (registered o (id == to) (add_filter g)), rw e (added o (id == to) g f))

-- An unsubscription takes its filter from the session that makes it, and changes no other entry
-- of the table and no registration.
pub holds-unsubscribe :
    (b : Broker) (to id : ℕ) (g f : Text)
    → (is_registered (unsubscribe b to g) id ≡ is_registered b id)
      × (holds (unsubscribe b to g) id f ≡ holds b id f && not ((id == to) && text_eq f g))
unfolding unsubscribe change
holds-unsubscribe b to id g f =
    let o = lookup id b.sessions in
    let e = lookup-adjust id to (drop_filter g) b.sessions in
    (rw e (registered o (id == to) (drop_filter g)), rw e (dropped o (id == to) g f))
