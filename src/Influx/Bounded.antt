-- ===== src/Influx/Bounded.antt =====
-- influx.rs: the queue over any turns of those who put lines on it and of the task that takes them.
use geomqtt.Base.{
  ℕ, ◌+◌, ◌%◌, ◌^◌, ◌≤◌, ◌<◌, ltb, List, [], ◌∷◌, ◌++◌, append-nil, append_assoc, Option, none,
  some, ◌&&◌, ◌≡◌, refl, sym, ap, ◌∙◌, subst, arith, Text, length, length-append, Bool-cases, ◌⊎◌,
  inl, inr,
}
use geomqtt.Influx.Queue.{Queue, queue_capacity, try_send, send}
use geomqtt.Metrics.{Metrics, inc}

-- A line is sent, or the task takes the line in front.
pub data Turn : Type 0 where
  sends : Text → Turn
  takes : Turn

-- The sink with the counters, and the lines that the task has taken.
pub record Sink : Type 0 where
  pub queue : Queue
  pub metrics : Metrics
  pub taken : List Text

-- `rx.recv()`, which waits if there is no line.
unfoldable pub recv : Queue → Option (Text × Queue)
recv q = elim q.lines [ [] ↦ none | line ∷ rest ↦ some (line, record q { lines = rest }) ]

unfoldable pub turn : Turn → Sink → Sink
turn (sends line) s =
    let (q, m) = send line s.queue s.metrics in record { queue = q; metrics = m; taken = s.taken }
turn takes s = elim (recv s.queue) [
  | none ↦ s
  | some (line, q) ↦ record { queue = q; metrics = s.metrics; taken = s.taken ++ line ∷ [] }
]

unfoldable pub turns : List Turn → Sink → Sink
turns [] s = s
turns (t ∷ ts) s = turns ts (turn t s)

-- The lines that are sent, and how many.
abbrev pub lines_sent : List Turn → List Text
lines_sent [] = []
lines_sent (sends line ∷ ts) = line ∷ lines_sent ts
lines_sent (takes ∷ ts) = lines_sent ts

-- Some lines of a list, in its order.
pub data IsPart : List Text → List Text → Type 0 where
  no_line : IsPart [] []
  keeps : (x : Text) (xs ys : List Text) → IsPart xs ys → IsPart (x ∷ xs) (x ∷ ys)
  skips : (y : Text) (xs ys : List Text) → IsPart xs ys → IsPart xs (y ∷ ys)

keeps_last : (x : Text) (xs ys : List Text) → IsPart xs ys → IsPart (xs ++ x ∷ []) (ys ++ x ∷ [])
keeps_last x [] [] no_line = keeps x [] [] no_line
keeps_last x (y ∷ xs) [] p = elim p [ ]
keeps_last x (y ∷ xs) (y' ∷ ys) (keeps _ _ _ p) = keeps y _ _ (keeps_last x xs ys p)
keeps_last x xs (y ∷ ys) (skips _ _ _ p) = skips y _ _ (keeps_last x xs ys p)

skips_last : (x : Text) (xs ys : List Text) → IsPart xs ys → IsPart xs (ys ++ x ∷ [])
skips_last x [] [] no_line = skips x [] [] no_line
skips_last x (y ∷ xs) [] p = elim p [ ]
skips_last x (y ∷ xs) (y' ∷ ys) (keeps _ _ _ p) = keeps y _ _ (skips_last x xs ys p)
skips_last x xs (y ∷ ys) (skips _ _ _ p) = skips y _ _ (skips_last x xs ys p)

-- The lines that the queue has accepted.
abbrev pub accepted : Sink → List Text
accepted s = s.taken ++ s.queue.lines

-- What holds once some lines have been sent.
pub record IsBounded (sent : List Text) (s : Sink) : Type 0 where
  pub bounded : length s.queue.lines ≤ queue_capacity
  pub in_order : IsPart (accepted s) sent
  pub enqueued : s.metrics.influx_writes_enqueued ≡ length (accepted s) % 2 ^ 64
  pub counted :
      (s.metrics.influx_writes_enqueued + s.metrics.influx_writes_dropped) % 2 ^ 64
      ≡ length sent % 2 ^ 64

send_cases :
    (line : Text) (q : Queue) (m : Metrics)
    → ((length q.lines < queue_capacity)
        × (send line q m ≡ (
          record q { lines = q.lines ++ line ∷ [] },
          record m { influx_writes_enqueued = inc m.influx_writes_enqueued },
        )))
      ⊎ (send line q m ≡ (q, record m { influx_writes_dropped = inc m.influx_writes_dropped }))
unfolding send try_send
send_cases line q m = elim (Bool-cases (q.is_open && ltb (length q.lines) queue_capacity)) [
  | inl e ↦ inl (ground arith, rw e refl)
  | inr e ↦ inr (rw e refl)
]

grows : (n k : ℕ) → n ≡ k % 2 ^ 64 → inc n ≡ (k + 1) % 2 ^ 64
grows n k h = omega arith

counts_one : (e d n : ℕ) → (e + d) % 2 ^ 64 ≡ n % 2 ^ 64 → (inc e + d) % 2 ^ 64 ≡ (n + 1) % 2 ^ 64
counts_one e d n h = omega arith

drops_one : (e d n : ℕ) → (e + d) % 2 ^ 64 ≡ n % 2 ^ 64 → (e + inc d) % 2 ^ 64 ≡ (n + 1) % 2 ^ 64
drops_one e d n h = omega arith

length-snoc : (xs : List Text) (x : Text) → length (xs ++ x ∷ []) ≡ length xs + 1
length-snoc xs x = omega (arith, length-append xs (x ∷ []))

sent_sink : Queue × Metrics → List Text → Sink
sent_sink (q, m) taken = record { queue = q; metrics = m; taken = taken }

sends-IsBounded :
    (line : Text) (sent : List Text) (s : Sink)
    → IsBounded sent s
    → IsBounded (sent ++ line ∷ []) (turn (sends line) s)
unfolding turn sent_sink
sends-IsBounded line sent s h = elim (send_cases line s.queue s.metrics) [
  | inl (room, e) ↦
      subst (λ p. IsBounded (sent ++ line ∷ []) (sent_sink p s.taken)) (sym e)
        (record {
          bounded = omega (arith, length-snoc s.queue.lines line);
          in_order =
              subst (λ l. IsPart l (sent ++ line ∷ []))
                (append_assoc s.taken s.queue.lines (line ∷ [])) (keeps_last line _ _ h.in_order);
          enqueued =
              grows _ _ h.enqueued
              ∙ ap (λ n. n % 2 ^ 64)
                  (sym (
                    ap length (sym (append_assoc s.taken s.queue.lines (line ∷ [])))
                    ∙ length-snoc (accepted s) line));
          counted = counts_one _ _ _ h.counted ∙ ap (λ n. n % 2 ^ 64) (sym (length-snoc sent line));
        })
  | inr e ↦
      subst (λ p. IsBounded (sent ++ line ∷ []) (sent_sink p s.taken)) (sym e)
        (record {
          bounded = h.bounded;
          in_order = skips_last line _ _ h.in_order;
          enqueued = h.enqueued;
          counted = drops_one _ _ _ h.counted ∙ ap (λ n. n % 2 ^ 64) (sym (length-snoc sent line));
        })
]

takes-IsBounded : (sent : List Text) (s : Sink) → IsBounded sent s → IsBounded sent (turn takes s)
unfolding turn recv
takes-IsBounded sent s h = go s.queue.lines refl
  where
    go :
        (lines : List Text)
        → s.queue.lines ≡ lines
        → IsBounded sent
            (elim (elim lines as (λ _. Option (Text × Queue)) [
              | [] ↦ none
              | line ∷ rest ↦ some (line, record s.queue { lines = rest })
            ])
              as (λ _. Sink) [
                | none ↦ s
                | some (line, q) ↦ record {
                  queue = q;
                  metrics = s.metrics;
                  taken = s.taken ++ line ∷ [];
                }
              ])
    go [] e = h
    go (line ∷ rest) e =
        let same : (s.taken ++ line ∷ []) ++ rest ≡ accepted s =
          append_assoc s.taken (line ∷ []) rest ∙ ap (λ l. s.taken ++ l) (sym e) in
        record {
          bounded = omega (arith, h.bounded, ap length e);
          in_order = subst (λ l. IsPart l sent) (sym same) h.in_order;
          enqueued = h.enqueued ∙ ap (λ l. length l % 2 ^ 64) (sym same);
          counted = h.counted;
        }

turns-kept :
    (ts : List Turn) (sent : List Text) (s : Sink)
    → IsBounded sent s
    → IsBounded (sent ++ lines_sent ts) (turns ts s)
unfolding turns
turns-kept [] sent s h = rw append-nil h
turns-kept (sends line ∷ ts) sent s h =
    subst (λ l. IsBounded l (turns ts (turn (sends line) s)))
      (append_assoc sent (line ∷ []) (lines_sent ts))
      (turns-kept ts (sent ++ line ∷ []) (turn (sends line) s) (sends-IsBounded line sent s h))
turns-kept (takes ∷ ts) sent s h = turns-kept ts sent (turn takes s) (takes-IsBounded sent s h)

-- Whenever lines are sent to the sink, and whenever its task takes one from the queue: the queue
-- never holds more than 4096 lines, the lines that were taken and those that wait are, in order, a
-- part of those that were sent, the one counter says how many they are, and both counters together
-- how many were sent, modulo 2 ^ 64. This holds from an empty sink on whose counters are 0.
pub turns-IsBounded :
    (ts : List Turn) (s : Sink)
    → s.queue.lines ≡ []
    → s.taken ≡ []
    → s.metrics.influx_writes_enqueued ≡ 0
    → s.metrics.influx_writes_dropped ≡ 0
    → IsBounded (lines_sent ts) (turns ts s)
turns-IsBounded ts s e e' n n' = turns-kept ts [] s (record {
  bounded = omega (arith, ap length e);
  in_order = rw (e, e') no_line;
  enqueued = rw (n, e, e') refl;
  counted = rw (n, n') refl;
})
