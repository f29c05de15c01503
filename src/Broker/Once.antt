-- ===== src/Broker/Once.antt =====
-- In a well-formed broker a message reaches each session once, or not at all.
use geomqtt.Base.{
  ℕ, List, [], ◌∷◌, ◌++◌, some, Bool, true, false, ◌≡◌, ◌≢◌, refl, ◌∙◌, ap, subst, arith, All, map,
  Bytes, Text, ◌==◌, if◌then◌else◌, Bool-cases, inl, inr, some_inj,
}
use geomqtt.Base.Assoc.{lookup}
use geomqtt.Broker.Defs.{Channels, Session, Broker, Mqtt, wants, encode_publish, publish_local}
use geomqtt.Broker.Delivery.{addressed, copies, publish_local_exact}
use geomqtt.Broker.Invariant.{Sessions, channel_of, Apart, IsValid}

lookup-All {κ} :
    (P : ℕ → Type κ) (id : ℕ) (s : Session) (m : Sessions)
    → lookup id m ≡ some s
    → All P (map channel_of m)
    → P s.outbound
unfolding lookup
lookup-All P id s [] e h = cc
lookup-All P id s ((i, t) ∷ m) e (h, hs) = elim (Bool-cases (id == i)) [
  | inl q ↦
      let same : some t ≡ some s = (rw (q, lookup) at e) in
      subst P (ap (λ u. u.outbound) (some_inj same)) h
  | inr q ↦ lookup-All P id s m (rw (q, lookup) at e) hs
]

pub copies-one : (b : Bytes) (w : Bool) → copies (if w then 1 else 0) b ≡ (if w then b ∷ [] else [])
copies-one b true = refl
copies-one b false = refl

module _ (mqtt : Mqtt) (topic : Text) where
  addressed-none :
      (c : ℕ) (m : Sessions) → All (λ d. d ≢ c) (map channel_of m) → addressed mqtt c topic m ≡ 0
  addressed-none c [] h = refl
  addressed-none c ((i, t) ∷ m) (h, hs) = ground (arith, addressed-none c m hs)

  flip : (c : ℕ) (ds : List ℕ) → All (λ d. c ≢ d) ds → All (λ d. d ≢ c) ds
  flip c [] h = tt
  flip c (d ∷ ds) (h, hs) = (ground arith, flip c ds hs)

  pub addressed-once :
      (id : ℕ) (s : Session) (m : Sessions)
      → lookup id m ≡ some s
      → Apart (map channel_of m)
      → addressed mqtt s.outbound topic m ≡ (if wants mqtt topic s then 1 else 0)
  unfolding lookup
  addressed-once id s [] e h = cc
  addressed-once id s ((i, t) ∷ m) e (h, hs) = elim (Bool-cases (id == i)) [
    | inl q ↦
        let same : t ≡ s = some_inj (rw (q, lookup) at e) in
        subst
          (λ u.
            addressed mqtt u.outbound topic ((i, t) ∷ m) ≡ (if wants mqtt topic u then 1 else 0))
          same (ground (arith, addressed-none t.outbound m (flip t.outbound _ h)))
    | inr q ↦
        let rest = (rw (q, lookup) at e) in
        let other = lookup-All (λ d. t.outbound ≢ d) id s m rest h in
        ground (arith, addressed-once id s m rest hs)
  ]

-- In a well-formed broker a message that can be encoded is published without a panic, and is put
-- once, behind what waits there, on the channel of each registered session that has a matching
-- filter and an open channel, and not on the channel of any other registered session.
publish_local-once :
    (mqtt : Mqtt) (b : Broker) (topic : Text) (payload bytes : Bytes) (chans : Channels) (id : ℕ)
    (s : Session)
    → IsValid b
    → encode_publish mqtt topic payload ≡ some bytes
    → lookup id b.sessions ≡ some s
    → (after : Channels) × (n : ℕ) × (publish_local mqtt b topic payload chans ≡ some (after, n))
      × ((after s.outbound).queue
          ≡ (chans s.outbound).queue
            ++ (if (chans s.outbound).is_open
                then (if wants mqtt topic s then bytes ∷ [] else [])
                else []))
publish_local-once mqtt b topic payload bytes chans id s v e l =
    let (after, n, ran, exact, _) = publish_local_exact mqtt b topic payload bytes chans e in
    let once = addressed-once mqtt topic id s b.sessions l v.channels_apart in
    (after, n, ran, (exact s.outbound).0 ∙ (rw (once, copies-one bytes (wants mqtt topic s))))
