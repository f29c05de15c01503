-- ===== src/Broker/Delivery.antt =====
-- Which channels a published message reaches.
use geomqtt.Base.{
  ℕ, zero, suc, ◌+◌, List, [], ◌∷◌, ◌++◌, append-nil, append_assoc, some, Bool, true, false, ◌&&◌,
  ◌≡◌, refl, ◌∙◌, arith, Bytes, Text, ◌==◌, if◌then◌else◌,
}
use geomqtt.Broker.Defs.{
  Channels, send, Session, Broker, Mqtt, wants, visit, encode_publish, deliver, publish_local,
}

abbrev pub copies : ℕ → Bytes → List Bytes
copies zero b = []
copies (suc n) b = b ∷ copies n b

pub send-queue :
    (c d : ℕ) (bytes : Bytes) (chans : Channels)
    → ((send c bytes chans).0 d).queue
      ≡ (if d == c && (chans d).is_open then (chans d).queue ++ bytes ∷ [] else (chans d).queue)
unfolding send
send-queue c d bytes chans = ground arith

send-is_open :
    (c d : ℕ) (bytes : Bytes) (chans : Channels)
    → ((send c bytes chans).0 d).is_open ≡ (chans d).is_open
unfolding send
send-is_open c d bytes chans = ground arith

copies-append :
    (m k : ℕ) (b : Bytes) (o : Bool)
    → (if o then copies m b else []) ++ (if o then copies k b else [])
      ≡ (if o then copies (m + k) b else [])
copies-append m k b false = refl
copies-append zero k b true = let e : 0 + k ≡ k = omega arith in rw e
copies-append (suc m) k b true =
    let e : suc m + k ≡ suc (m + k) = omega arith in rw e (cc (copies-append m k b true))

module _ (mqtt : Mqtt) where
  -- How many sessions of the list send to channel `c` and hold a filter that the topic matches.
  abbrev pub addressed : ℕ → Text → List (ℕ × Session) → ℕ
  addressed c topic [] = 0
  addressed c topic ((id, s) ∷ rest) =
      (if s.outbound == c && wants mqtt topic s then 1 else 0) + addressed c topic rest

  -- How many sessions hold such a filter and have an open channel.
  abbrev pub reachable : Channels → Text → List (ℕ × Session) → ℕ
  reachable chans topic [] = 0
  reachable chans topic ((id, s) ∷ rest) =
      (if wants mqtt topic s && (chans s.outbound).is_open then 1 else 0)
      + reachable chans topic rest

  module _ (topic : Text) (bytes : Bytes) where
    visit-is_open :
        (s : Session) (chans : Channels) (n d : ℕ)
        → ((visit mqtt topic bytes s chans n).0 d).is_open ≡ (chans d).is_open
    unfolding visit
    visit-is_open s chans n d = ground (arith, send-is_open s.outbound d bytes chans)

    visit-queue :
        (s : Session) (chans : Channels) (n d : ℕ)
        → ((visit mqtt topic bytes s chans n).0 d).queue
          ≡ (chans d).queue
            ++ (if (chans d).is_open
                then copies (if s.outbound == d && wants mqtt topic s then 1 else 0) bytes
                else [])
    unfolding visit
    visit-queue s chans n d =
        ground (arith, send-queue s.outbound d bytes chans, append-nil (chans d).queue)

    visit-count :
        (s : Session) (chans : Channels) (n : ℕ)
        → (visit mqtt topic bytes s chans n).1
          ≡ n + (if wants mqtt topic s && (chans s.outbound).is_open then 1 else 0)
    unfolding visit send
    visit-count s chans n = ground arith

    deliver-is_open :
        (ss : List (ℕ × Session)) (chans : Channels) (n d : ℕ)
        → ((deliver mqtt topic bytes ss chans n).0 d).is_open ≡ (chans d).is_open
    unfolding deliver
    deliver-is_open [] chans n d = refl
    deliver-is_open ((id, s) ∷ rest) chans n d =
        let (chans', n') = visit mqtt topic bytes s chans n in
        deliver-is_open rest chans' n' d ∙ visit-is_open s chans n d

    pub deliver-queue :
        (ss : List (ℕ × Session)) (chans : Channels) (n d : ℕ)
        → ((deliver mqtt topic bytes ss chans n).0 d).queue
          ≡ (chans d).queue
            ++ (if (chans d).is_open then copies (addressed d topic ss) bytes else [])
    unfolding deliver
    deliver-queue [] chans n d = ground (arith, append-nil (chans d).queue)
    deliver-queue ((id, s) ∷ rest) chans n d =
        let (chans', n') = visit mqtt topic bytes s chans n in
        rw (
          deliver-queue rest chans' n' d,
          visit-queue s chans n d,
          visit-is_open s chans n d,
          append_assoc,
          copies-append,
        )

    reachable-congr :
        (ss : List (ℕ × Session)) (chans chans' : Channels)
        → ((d : ℕ) → (chans' d).is_open ≡ (chans d).is_open)
        → reachable chans' topic ss ≡ reachable chans topic ss
    reachable-congr [] chans chans' h = refl
    reachable-congr ((id, s) ∷ rest) chans chans' h =
        rw (h s.outbound, reachable-congr rest chans chans' h)

    deliver-count :
        (ss : List (ℕ × Session)) (chans : Channels) (n : ℕ)
        → (deliver mqtt topic bytes ss chans n).1 ≡ n + reachable chans topic ss
    unfolding deliver
    deliver-count [] chans n = omega arith
    deliver-count ((id, s) ∷ rest) chans n =
        let (chans', n') = visit mqtt topic bytes s chans n in
        omega (
          arith,
          deliver-count rest chans' n',
          visit-count s chans n,
          reachable-congr rest chans chans' (visit-is_open s chans n),
        )

  -- A message that can be encoded is published without a panic. It goes, encoded, to the end of each
  -- open channel as often as a session with a matching filter sends to it; closed channels and all
  -- other channels are left alone, no channel opens or closes, and the result is the number of
  -- sessions that were reached.
  pub publish_local_exact :
      (b : Broker) (topic : Text) (payload bytes : Bytes) (chans : Channels)
      → encode_publish mqtt topic payload ≡ some bytes
      → (after : Channels) × (n : ℕ) × (publish_local mqtt b topic payload chans ≡ some (after, n))
        × ((d : ℕ)
            → ((after d).queue
                ≡ (chans d).queue
                  ++ (if (chans d).is_open
                      then copies (addressed d topic b.sessions) bytes
                      else []))
              × ((after d).is_open ≡ (chans d).is_open))
        × (n ≡ reachable chans topic b.sessions)
  unfolding publish_local
  publish_local_exact b topic payload bytes chans e = (
    (deliver mqtt topic bytes b.sessions chans 0).0,
    (deliver mqtt topic bytes b.sessions chans 0).1,
    rw (e, publish_local) refl,
    λ d. (
      deliver-queue topic bytes b.sessions chans 0 d,
      deliver-is_open topic bytes b.sessions chans 0 d,
    ),
    omega (arith, deliver-count topic bytes b.sessions chans 0),
  )
