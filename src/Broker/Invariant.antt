-- ===== src/Broker/Invariant.antt =====
-- What holds of the broker at all times: ids are given once, no two sessions share a channel, and
-- no session holds a filter twice.
use geomqtt.Base.{
  ℕ, ◌+◌, ◌%◌, ◌<◌, List, [], ◌∷◌, ◌++◌, Bool, false, ◌≡◌, ◌≢◌, refl, arith, All, All-append,
  map-append, any, filter, map, Text, text_eq, text_eq_iff, ◌==◌, Bool-cases, inl, inr,
}
use geomqtt.Base.Assoc.{insert, remove, adjust}
use geomqtt.Broker.Defs.{
  Session, Broker, new, u64_mod, register, deregister, add_filter, subscribe, drop_filter,
  unsubscribe,
}

abbrev pub Sessions : Type 0
Sessions = List (ℕ × Session)

abbrev pub id_of : ℕ × Session → ℕ
id_of e = e.0

abbrev pub channel_of : ℕ × Session → ℕ
channel_of e = (e.1).outbound

-- All of a list differ.
abbrev pub Apart {ℓ} : {A : Type ℓ} → List A → Type ℓ
Apart [] = Unit
Apart (x ∷ xs) = All (λ y. x ≢ y) xs × Apart xs

pub record IsValid (b : Broker) : Type 0 where
  pub ids_below : All (λ i. i < b.next_id) (map id_of b.sessions)
  pub ids_apart : Apart (map id_of b.sessions)
  pub channels_apart : Apart (map channel_of b.sessions)
  pub filters_apart : All (λ e. Apart ((e.1).subs)) b.sessions

module _ {κ} (P : ℕ → Type κ) (key : ℕ × Session → ℕ) where
  All-remove : (k : ℕ) (m : Sessions) → All P (map key m) → All P (map key (remove k m))
  unfolding remove
  All-remove k [] h = tt
  All-remove k (e ∷ m) (h, hs) = elim (Bool-cases (k == e.0)) [
    | inl q ↦ rw q (All-remove k m hs)
    | inr q ↦ rw q (h, All-remove k m hs)
  ]

module _ (key : ℕ × Session → ℕ) where
  Apart-remove : (k : ℕ) (m : Sessions) → Apart (map key m) → Apart (map key (remove k m))
  unfolding remove
  Apart-remove k [] h = tt
  Apart-remove k (e ∷ m) (h, hs) = elim (Bool-cases (k == e.0)) [
    | inl q ↦ rw q (Apart-remove k m hs)
    | inr q ↦ rw q (All-remove _ key k m h, Apart-remove k m hs)
  ]

  -- A change that keeps the key keeps the list of keys.
  keys-adjust :
      (k : ℕ) (f : Session → Session) (m : Sessions)
      → ((i : ℕ) (s : Session) → key (i, f s) ≡ key (i, s))
      → map key (adjust k f m) ≡ map key m
  unfolding adjust
  keys-adjust k f [] h = refl
  keys-adjust k f ((i, s) ∷ m) h = elim (Bool-cases (k == i)) [
    | inl q ↦ rw (q, h i s)
    | inr q ↦ rw (q, keys-adjust k f m h)
  ]

filters-remove :
    (k : ℕ) (m : Sessions)
    → All (λ e. Apart ((e.1).subs)) m
    → All (λ e. Apart ((e.1).subs)) (remove k m)
unfolding remove
filters-remove k [] h = tt
filters-remove k ((i, s) ∷ m) (h, hs) = elim (Bool-cases (k == i)) [
  | inl q ↦ rw q (filters-remove k m hs)
  | inr q ↦ rw q (h, filters-remove k m hs)
]

filters-adjust :
    (k : ℕ) (f : Session → Session) (m : Sessions)
    → ((s : Session) → Apart s.subs → Apart (f s).subs)
    → All (λ e. Apart ((e.1).subs)) m
    → All (λ e. Apart ((e.1).subs)) (adjust k f m)
unfolding adjust
filters-adjust k f [] g h = tt
filters-adjust k f ((i, s) ∷ m) g (h, hs) = elim (Bool-cases (k == i)) [
  | inl q ↦ rw q (g s h, hs)
  | inr q ↦ rw q (h, filters-adjust k f m g hs)
]

insert_fresh :
    (k : ℕ) (s : Session) (m : Sessions)
    → All (λ i. i < k) (map id_of m)
    → insert k s m ≡ m ++ (k, s) ∷ []
unfolding insert
insert_fresh k s [] h = refl
insert_fresh k s ((i, t) ∷ m) (h, hs) = ground (arith, insert_fresh k s m hs)

Apart-snoc {ℓ} :
    {A : Type ℓ} (xs : List A) (y : A) → Apart xs → All (λ x. x ≢ y) xs → Apart (xs ++ y ∷ [])
Apart-snoc [] y h k = (tt, tt)
Apart-snoc (x ∷ xs) y (h, hs) (k, ks) = (All-append _ xs (y ∷ []) h (k, tt), Apart-snoc xs y hs ks)

no_match : (g : Text) (fs : List Text) → any (λ f. text_eq f g) fs ≡ false → All (λ f. f ≢ g) fs
no_match g [] h = tt
no_match g (f ∷ fs) h = (ground (arith, text_eq_iff f g), no_match g fs (ground arith))

add_filter-Apart : (g : Text) (s : Session) → Apart s.subs → Apart (add_filter g s).subs
unfolding add_filter
add_filter-Apart g s h = elim (Bool-cases (any (λ f. text_eq f g) s.subs)) [
  | inl q ↦ rw q h
  | inr q ↦ rw q (Apart-snoc s.subs g h (no_match g s.subs q))
]

All-filter {ℓ κ} :
    {A : Type ℓ} (P : A → Type κ) (p : A → Bool) (xs : List A) → All P xs → All P (filter p xs)
All-filter P p [] h = tt
All-filter P p (x ∷ xs) (h, hs) = elim (Bool-cases (p x)) [
  | inl q ↦ rw q (h, All-filter P p xs hs)
  | inr q ↦ rw q (All-filter P p xs hs)
]

Apart-filter {ℓ} : {A : Type ℓ} (p : A → Bool) (xs : List A) → Apart xs → Apart (filter p xs)
Apart-filter p [] h = tt
Apart-filter p (x ∷ xs) (h, hs) = elim (Bool-cases (p x)) [
  | inl q ↦ rw q (All-filter _ p xs h, Apart-filter p xs hs)
  | inr q ↦ rw q (Apart-filter p xs hs)
]

-- A new broker is well formed.
pub new-IsValid : IsValid new
new-IsValid = record { ids_below = tt; ids_apart = tt; channels_apart = tt; filters_apart = tt }

above-All : (n : ℕ) (is : List ℕ) → All (λ i. i < n) is → All (λ i. i < n + 1) is
above-All n [] h = tt
above-All n (i ∷ is) (h, hs) = (omega arith, above-All n is hs)

below_apart : (n : ℕ) (is : List ℕ) → All (λ i. i < n) is → All (λ i. i ≢ n) is
below_apart n [] h = tt
below_apart n (i ∷ is) (h, hs) = (omega arith, below_apart n is hs)

-- Registering a session on a channel of its own keeps the broker well formed, as long as the
-- counter of ids does not wrap around.
pub register-IsValid :
    (b : Broker) (outbound : ℕ)
    → b.next_id + 1 < u64_mod
    → All (λ c. c ≢ outbound) (map channel_of b.sessions)
    → IsValid b
    → IsValid (register b outbound).0
unfolding register
register-IsValid b outbound room fresh v =
    let s : Session = record { outbound = outbound; subs = [] } in
    let stays : (b.next_id + 1) % u64_mod ≡ b.next_id + 1 = omega arith in
    record {
      ids_below =
          rw (insert_fresh b.next_id s b.sessions v.ids_below, stays, map-append)
            (All-append _ (map id_of b.sessions) _ (above-All _ _ v.ids_below) (omega arith));
      ids_apart =
          rw (insert_fresh b.next_id s b.sessions v.ids_below, map-append)
            (Apart-snoc _ _ v.ids_apart (below_apart _ _ v.ids_below));
      channels_apart =
          rw (insert_fresh b.next_id s b.sessions v.ids_below, map-append)
            (Apart-snoc _ _ v.channels_apart fresh);
      filters_apart =
          rw (insert_fresh b.next_id s b.sessions v.ids_below)
            (All-append _ b.sessions _ v.filters_apart (tt, tt));
    }

-- Deregistering, subscribing and unsubscribing keep the broker well formed.
pub deregister-IsValid : (b : Broker) (id : ℕ) → IsValid b → IsValid (deregister b id)
unfolding deregister
deregister-IsValid b id v = record {
  ids_below = All-remove _ id_of id b.sessions v.ids_below;
  ids_apart = Apart-remove id_of id b.sessions v.ids_apart;
  channels_apart = Apart-remove channel_of id b.sessions v.channels_apart;
  filters_apart = filters-remove id b.sessions v.filters_apart;
}

adjust-IsValid :
    (b : Broker) (id : ℕ) (f : Session → Session)
    → ((s : Session) → (f s).outbound ≡ s.outbound)
    → ((s : Session) → Apart s.subs → Apart (f s).subs)
    → IsValid b
    → IsValid (record b { sessions = adjust id f b.sessions })
adjust-IsValid b id f same keep v = record {
  ids_below = rw (keys-adjust id_of id f b.sessions (λ i s. refl)) v.ids_below;
  ids_apart = rw (keys-adjust id_of id f b.sessions (λ i s. refl)) v.ids_apart;
  channels_apart = rw (keys-adjust channel_of id f b.sessions (λ i s. same s)) v.channels_apart;
  filters_apart = filters-adjust id f b.sessions keep v.filters_apart;
}

add_filter-outbound : (g : Text) (s : Session) → (add_filter g s).outbound ≡ s.outbound
unfolding add_filter
add_filter-outbound g s = ground arith

pub subscribe-IsValid : (b : Broker) (id : ℕ) (g : Text) → IsValid b → IsValid (subscribe b id g)
unfolding subscribe
subscribe-IsValid b id g v =
    adjust-IsValid b id (add_filter g) (add_filter-outbound g) (add_filter-Apart g) v

pub unsubscribe-IsValid :
    (b : Broker) (id : ℕ) (g : Text) → IsValid b → IsValid (unsubscribe b id g)
unfolding unsubscribe drop_filter
unsubscribe-IsValid b id g v =
    adjust-IsValid b id (drop_filter g) (λ s. refl) (λ s h. Apart-filter _ s.subs h) v
