-- ===== src/Influx/Posts.antt =====
-- influx.rs: what `writer_task` posts.
use geomqtt.Base.{
  ℕ, ◌+◌, ◌%◌, ◌^◌, ◌<◌, ◌≤◌, List, [], ◌∷◌, ◌++◌, append-nil, append_assoc, map, Bool, true, false,
  ◌≡◌, refl, sym, ap, ◌∙◌, arith, subst, Text, lit, length, if◌then◌else◌, All, Lacks, split,
  split-Lacks, split-append,
}
use geomqtt.Config.FromEnv.{InfluxSettings}
use geomqtt.Influx.Writer.{
  Input, max_batch, batches, body_of, post_all, write_url, writer_task, lines_of, all_lines,
  IsBatch, batches_exact,
}
use geomqtt.Metrics.{Metrics, inc}

-- A post: where to, with which token, and what.
abbrev pub Post : Type 0
Post = Text × Text × Text

-- A server that keeps the posts, whatever it answers to them.
abbrev pub recording : (List Post → Bool) → Text → Text → Text → List Post → List Post × Bool
recording answer url auth body log =
    (log ++ (url, auth, body) ∷ [], answer (log ++ (url, auth, body) ∷ []))

-- How many posts are answered with a success, and how many are not, after those that were made.
abbrev pub successes : (List Post → Bool) → List Post → List Post → ℕ
successes answer made [] = 0
successes answer made (p ∷ ps) =
    successes answer (made ++ p ∷ []) ps + (if answer (made ++ p ∷ []) then 1 else 0)

abbrev pub failures : (List Post → Bool) → List Post → List Post → ℕ
failures answer made [] = 0
failures answer made (p ∷ ps) =
    failures answer (made ++ p ∷ []) ps + (if answer (made ++ p ∷ []) then 0 else 1)

-- The lines of a post.
abbrev pub lines_in : Post → List Text
lines_in (url, auth, body) = split body b'\n'

-- A post to the server of the settings, with their token, of 1 to 500 lines.
abbrev pub IsPost : InfluxSettings → Post → Type 0
IsPost settings p =
    (p.0 ≡ write_url settings)
    × (p.1 ≡ lit "Token " ++ settings.token)
    × (1 ≤ length (lines_in p))
    × (length (lines_in p) ≤ max_batch)

-- What is posted of a batch.
abbrev post_of : InfluxSettings → List Text → Post
post_of settings b = (write_url settings, lit "Token " ++ settings.token, body_of b)

abbrev AreLines : List Text → Type 0
AreLines = All (Lacks b'\n')

split-body_of :
    (l : Text) (b : List Text) → AreLines (l ∷ b) → split (body_of (l ∷ b)) b'\n' ≡ l ∷ b
unfolding body_of
split-body_of l [] h = split-Lacks l b'\n' h.0
split-body_of l (m ∷ b) h =
    split-append l (body_of (m ∷ b)) b'\n' h.0 ∙ ap (λ ls. l ∷ ls) (split-body_of m b h.1)

AreLines-left : (a b : List Text) → AreLines (a ++ b) → AreLines a
AreLines-left [] b h = tt
AreLines-left (l ∷ a) b h = (h.0, AreLines-left a b h.1)

AreLines-right : (a b : List Text) → AreLines (a ++ b) → AreLines b
AreLines-right [] b h = h
AreLines-right (l ∷ a) b h = AreLines-right a b h.1

batch_lines :
    (settings : InfluxSettings) (b : List Text)
    → IsBatch b
    → AreLines b
    → lines_in (post_of settings b) ≡ b
batch_lines settings [] h ls = let absurd : ⊥ = omega arith in elim absurd [ ]
batch_lines settings (l ∷ b) h ls = split-body_of l b ls

posts_lines :
    (settings : InfluxSettings) (bs : List (List Text))
    → All IsBatch bs
    → AreLines (all_lines bs)
    → all_lines (map lines_in (map (post_of settings) bs)) ≡ all_lines bs
posts_lines settings [] h ls = refl
posts_lines settings (b ∷ bs) (hb, h) ls = rw (
  batch_lines settings b hb (AreLines-left b (all_lines bs) ls),
  posts_lines settings bs h (AreLines-right b (all_lines bs) ls),
)

posts-IsPost :
    (settings : InfluxSettings) (bs : List (List Text))
    → All IsBatch bs
    → AreLines (all_lines bs)
    → All (IsPost settings) (map (post_of settings) bs)
posts-IsPost settings [] h ls = tt
posts-IsPost settings (b ∷ bs) (hb, h) ls =
    let same = sym (batch_lines settings b hb (AreLines-left b (all_lines bs) ls)) in
    (
      (
        refl,
        refl,
        subst (λ l. 1 ≤ length l) same hb.0,
        subst (λ l. length l ≤ max_batch) same hb.1,
      ),
      posts-IsPost settings bs h (AreLines-right b (all_lines bs) ls),
    )

-- The counters after one answer.
abbrev answered : Bool → Metrics → Metrics
answered success m =
    if success
    then record m { influx_batches_sent = inc m.influx_batches_sent }
    else record m { influx_batch_errors = inc m.influx_batch_errors }

abbrev IsCounted : Metrics → ℕ → ℕ → Metrics → Type 0
IsCounted m sent failed m' =
    (m'.influx_batches_sent ≡ (m.influx_batches_sent + sent) % 2 ^ 64)
    × (m'.influx_batch_errors ≡ (m.influx_batch_errors + failed) % 2 ^ 64)

none_answered :
    (m : Metrics)
    → m.influx_batches_sent < 2 ^ 64
    → m.influx_batch_errors < 2 ^ 64
    → IsCounted m 0 0 m
none_answered m hs hf = (omega arith, omega arith)

counts_next : (a k : ℕ) → (inc a + k) % 2 ^ 64 ≡ (a + (k + 1)) % 2 ^ 64
counts_next a k = omega arith

counts_same : (a k : ℕ) → (a + k) % 2 ^ 64 ≡ (a + (k + 0)) % 2 ^ 64
counts_same a k = omega arith

one_answered :
    (success : Bool) (m m' : Metrics) (sent failed : ℕ)
    → IsCounted (answered success m) sent failed m'
    → IsCounted m (sent + (if success then 1 else 0)) (failed + (if success then 0 else 1)) m'
one_answered true m m' sent failed (s, f) = (s ∙ counts_next _ sent, f ∙ counts_same _ failed)
one_answered false m m' sent failed (s, f) = (s ∙ counts_same _ sent, f ∙ counts_next _ failed)

answered-below :
    (success : Bool) (m : Metrics)
    → m.influx_batches_sent < 2 ^ 64
    → m.influx_batch_errors < 2 ^ 64
    → ((answered success m).influx_batches_sent < 2 ^ 64)
      × ((answered success m).influx_batch_errors < 2 ^ 64)
answered-below true m hs hf = (omega arith, hf)
answered-below false m hs hf = (hs, omega arith)

module _ (answer : List Post → Bool) (settings : InfluxSettings) where
  post_all-records :
      (bs : List (List Text)) (log : List Post) (m : Metrics)
      → m.influx_batches_sent < 2 ^ 64
      → m.influx_batch_errors < 2 ^ 64
      → (m' : Metrics) × (post_all
            (recording answer (write_url settings) (lit "Token " ++ settings.token))
            bs
            log
            m
          ≡ (log ++ map (post_of settings) bs, m'))
        × IsCounted m
            (successes answer log (map (post_of settings) bs))
            (failures answer log (map (post_of settings) bs))
            m'
  unfolding post_all
  post_all-records [] log m hs hf =
      (m, ap (λ l. (l, m)) (sym (append-nil log)), none_answered m hs hf)
  post_all-records (b ∷ bs) log m hs hf =
      let made = log ++ post_of settings b ∷ [] in
      let (hs', hf') = answered-below (answer made) m hs hf in
      let (m', e, counted) = post_all-records bs made (answered (answer made) m) hs' hf' in
      (
        m',
        e
            ∙ ap (λ l. (l, m'))
                (append_assoc log (post_of settings b ∷ []) (map (post_of settings) bs)),
        one_answered (answer made) m m' _ _ counted,
      )

  -- With an HTTP client the writer posts every line that it takes from the queue once and in order,
  -- also when the queue is closed before a batch is full: the lines of the posted bodies are those
  -- that were taken. Each post has between 1 and 500 lines and goes to the address of the settings
  -- with their token. The posts that succeed and those that fail are counted, modulo 2 ^ 64, and a
  -- failed post is not made again, whatever the server answers. Without a client nothing is posted
  -- and nothing is counted. This holds if no line holds a line break and the counters are below
  -- 2 ^ 64.
  pub writer_task-posts :
      (inputs : List Input) (m : Metrics)
      → All (Lacks b'\n') (lines_of inputs)
      → m.influx_batches_sent < 2 ^ 64
      → m.influx_batch_errors < 2 ^ 64
      → (log : List Post) × (m' : Metrics) × (writer_task true
            (recording answer)
            settings
            inputs
            []
            m
          ≡ (log, m'))
        × (all_lines (map lines_in log) ≡ lines_of inputs)
        × All (IsPost settings) log
        × (m'.influx_batches_sent ≡ (m.influx_batches_sent + successes answer [] log) % 2 ^ 64)
        × (m'.influx_batch_errors ≡ (m.influx_batch_errors + failures answer [] log) % 2 ^ 64)
        × (writer_task false (recording answer) settings inputs [] m ≡ ([], m))
  unfolding writer_task
  writer_task-posts inputs m ls hs hf =
      let bs = batches [] inputs in
      let (kept, sized) = batches_exact inputs in
      let (m', e, (sent, failed)) = post_all-records bs [] m hs hf in
      let lined = subst (All (Lacks b'\n')) (sym kept) ls in
      (
        map (post_of settings) bs,
        m',
        e,
        posts_lines settings bs sized lined ∙ kept,
        posts-IsPost settings bs sized lined,
        sent,
        failed,
        refl,
      )
