-- ===== src/Influx/Writer.antt =====
-- influx.rs: `writer_task`, which takes lines from the queue and posts them in batches. What it meets
-- is a list of lines and elapsed deadlines, at whose end the queue is closed.
use geomqtt.Base.{
  ℕ, ◌≤◌, ◌<◌, List, [], ◌∷◌, ◌++◌, append_assoc, Bool, ◌≡◌, refl, arith, Text, lit, length,
  length-append, leb, Bool-cases, inl, inr, if◌then◌else◌, All,
}
use geomqtt.Config.FromEnv.{InfluxSettings}
use geomqtt.Influx.Line.{urlencode}
use geomqtt.Metrics.{Metrics, inc}

abbrev pub max_batch : ℕ
max_batch = 500

pub data Input : Type 0 where
  received : Text → Input
  elapsed : Input

-- The rest of the task, from a batch that is being filled on: the batches that it posts. Between two
-- batches, where the batch is empty, there is no deadline.
unfoldable pub batches : List Text → List Input → List (List Text)
batches [] [] = []
batches (l ∷ batch) [] = (l ∷ batch) ∷ []
batches [] (elapsed ∷ inputs) = batches [] inputs
batches (l ∷ batch) (elapsed ∷ inputs) = (l ∷ batch) ∷ batches [] inputs
batches [] (received first ∷ inputs) = batches (first ∷ []) inputs
batches (l ∷ batch) (received m ∷ inputs) =
    let pushed = l ∷ (batch ++ m ∷ []) in
    let posted = batches [] inputs in
    let filled = batches pushed inputs in
    if leb max_batch (length pushed) then pushed ∷ posted else filled

-- `batch.join("\n")`
unfoldable pub body_of : List Text → Text
body_of [] = []
body_of (l ∷ []) = l
body_of (l ∷ m ∷ batch) = l ++ b'\n' ∷ body_of (m ∷ batch)

-- The posts, one after the other. The server is a state, and `post` tells what a post makes of it and
-- whether the answer is a success.
unfoldable pub post_all :
    {S : Type 0} → (Text → S → S × Bool) → List (List Text) → S → Metrics → S × Metrics
post_all post [] server m = (server, m)
post_all post (b ∷ bs) server m =
    let (server', success) = post (body_of b) server in
    post_all post bs server' (
      if success
      then record m { influx_batches_sent = inc m.influx_batches_sent }
      else record m { influx_batch_errors = inc m.influx_batch_errors })

unfoldable pub write_url : InfluxSettings → Text
write_url settings =
    settings.url
    ++ (lit "/api/v2/write?org="
        ++ (urlencode settings.org
            ++ (lit "&bucket=" ++ (urlencode settings.bucket ++ lit "&precision=ns"))))

-- Without an HTTP client the lines are taken and thrown away. `post` is told where to, with which
-- token, and what.
unfoldable pub writer_task :
    {S : Type 0}
    → Bool
    → (Text → Text → Text → S → S × Bool)
    → InfluxSettings
    → List Input
    → S
    → Metrics
    → S × Metrics
writer_task has_client post settings inputs server m =
    let auth = lit "Token " ++ settings.token in
    if has_client
    then post_all (post (write_url settings) auth) (batches [] inputs) server m
    else (server, m)

-- The lines that were taken from the queue.
abbrev pub lines_of : List Input → List Text
lines_of [] = []
lines_of (received l ∷ inputs) = l ∷ lines_of inputs
lines_of (elapsed ∷ inputs) = lines_of inputs

abbrev pub all_lines : List (List Text) → List Text
all_lines [] = []
all_lines (b ∷ bs) = b ++ all_lines bs

lines_kept :
    (batch : List Text) (inputs : List Input)
    → all_lines (batches batch inputs) ≡ batch ++ lines_of inputs
unfolding batches
lines_kept [] [] = refl
lines_kept (l ∷ batch) [] = refl
lines_kept [] (elapsed ∷ inputs) = lines_kept [] inputs
lines_kept (l ∷ batch) (elapsed ∷ inputs) = rw (lines_kept [] inputs) refl
lines_kept [] (received first ∷ inputs) = lines_kept (first ∷ []) inputs
lines_kept (l ∷ batch) (received m ∷ inputs) =
    let pushed = l ∷ (batch ++ m ∷ []) in
    elim (Bool-cases (leb max_batch (length pushed))) [
      | inl e ↦ rw (e, lines_kept [] inputs, append_assoc) refl
      | inr e ↦ rw (e, lines_kept pushed inputs, append_assoc) refl
    ]

abbrev pub IsBatch : List Text → Type 0
IsBatch b = (1 ≤ length b) × (length b ≤ max_batch)

batches-IsBatch :
    (batch : List Text) (inputs : List Input)
    → length batch < max_batch
    → All IsBatch (batches batch inputs)
unfolding batches
batches-IsBatch [] [] h = tt
batches-IsBatch (l ∷ batch) [] h = ((omega arith, omega arith), tt)
batches-IsBatch [] (elapsed ∷ inputs) h = batches-IsBatch [] inputs h
batches-IsBatch (l ∷ batch) (elapsed ∷ inputs) h =
    ((omega arith, omega arith), batches-IsBatch [] inputs (omega arith))
batches-IsBatch [] (received first ∷ inputs) h = batches-IsBatch (first ∷ []) inputs (omega arith)
batches-IsBatch (l ∷ batch) (received m ∷ inputs) h =
    let pushed = l ∷ (batch ++ m ∷ []) in
    let longer = length-append batch (m ∷ []) in
    elim (Bool-cases (leb max_batch (length pushed))) [
      | inl e ↦ rw e ((omega arith, omega (arith, longer)), batches-IsBatch [] inputs (omega arith))
      | inr e ↦ rw e (batches-IsBatch pushed inputs (ground arith))
    ]

-- The batches hold every line once and in order, also when the queue is closed before a batch is
-- full, and each has between 1 and 500 lines.
pub batches_exact :
    (inputs : List Input)
    → (all_lines (batches [] inputs) ≡ lines_of inputs) × All IsBatch (batches [] inputs)
batches_exact inputs = (lines_kept [] inputs, batches-IsBatch [] inputs (omega arith))
