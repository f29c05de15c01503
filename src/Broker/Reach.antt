-- ===== src/Broker/Reach.antt =====
-- The broker as it changes: any sequence of registrations and other operations.
use geomqtt.Base.{ℕ, ◌+◌, ◌<◌, ◌≢◌, All, map, Text}
use geomqtt.Broker.Defs.{Broker, new, u64_mod, register, deregister, subscribe, unsubscribe}
use geomqtt.Broker.Invariant.{
  channel_of, IsValid, new-IsValid, register-IsValid, deregister-IsValid, subscribe-IsValid,
  unsubscribe-IsValid,
}

-- One call. A connection registers with a channel that it has just made.
pub data Step (b : Broker) : Broker → Type 0 where
  registers :
      (outbound : ℕ)
      → b.next_id + 1 < u64_mod
      → All (λ c. c ≢ outbound) (map channel_of b.sessions)
      → Step b (register b outbound).0
  deregisters : (id : ℕ) → Step b (deregister b id)
  subscribes : (id : ℕ) (g : Text) → Step b (subscribe b id g)
  unsubscribes : (id : ℕ) (g : Text) → Step b (unsubscribe b id g)

pub data Reach : Broker → Type 0 where
  start : Reach new
  next : {b c : Broker} → Reach b → Step b c → Reach c

Step-IsValid : {b c : Broker} → Step b c → IsValid b → IsValid c
Step-IsValid {b = b} (registers outbound room fresh) v = register-IsValid b outbound room fresh v
Step-IsValid {b = b} (deregisters id) v = deregister-IsValid b id v
Step-IsValid {b = b} (subscribes id g) v = subscribe-IsValid b id g v
Step-IsValid {b = b} (unsubscribes id g) v = unsubscribe-IsValid b id g v

-- After any sequence of registrations, deregistrations, subscriptions and unsubscriptions ids are
-- given once and lie below the counter, no two sessions share a channel and no session holds a
-- filter twice, as long as the counter does not wrap around.
pub Reach-IsValid : {b : Broker} → Reach b → IsValid b
Reach-IsValid start = new-IsValid
Reach-IsValid (next r s) = Step-IsValid s (Reach-IsValid r)
