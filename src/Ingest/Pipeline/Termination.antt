-- ===== src/Ingest/Pipeline/Termination.antt =====
-- A measure that each step of the pipeline makes smaller.
use anti_entropator.Prelude.{
  ℕ, suc, ◌+◌, ◌*◌, ◌≤◌, ◌<◌, ◌≡◌, ap, ◌⊎◌, inl, inr, Bool, Option, none, some, List, [], ◌∷◌, ◌++◌,
  arith, length, is_empty, length-append, Error, ok, err, leb, Bool-cases, Text,
}
use anti_entropator.Ingest.Pipeline.{
  PipelineConfig, tally, Producer, starting, joining, sending, finished, Writer, receiving,
  committing, committing_tail, Pipeline, Joined, crashed, launch, send_row, take_joined, receive,
  receive_end, flush_ok, flush_err, Step, start_file, start_none, join_file, join_none, send,
  send_fails, recv, recv_none, commit_batch, commit_tail, commit_fails, Reached, launched, stepped,
}
use anti_entropator.Domain.FileInfo.{FilePath, FileInfo}

-- What a producer, and a writer, may still do before they wait for a file or a row.
abbrev producer_work : Producer → ℕ
producer_work starting = 2
producer_work joining = 1
producer_work (sending row) = 6
producer_work finished = 0

abbrev writer_work : Writer → ℕ
writer_work receiving = 2
writer_work committing = 3
writer_work committing_tail = 1
writer_work Writer.returned = 0

abbrev pub work : Pipeline → ℕ
work s =
    8 * length s.pending
    + 6 * length s.in_flight
    + producer_work s.producer
    + 3 * length s.channel
    + writer_work s.writer

module _ (cfg : PipelineConfig) (has_committer : Bool) (show : Error → Text) where
  work-send_row :
      (o : Option FileInfo) (s : Pipeline)
      → work (send_row cfg has_committer show o s)
        ≤ 8 * length s.pending
          + 6 * length s.in_flight
          + 6
          + 3 * length s.channel
          + writer_work s.writer
  work-send_row none s = omega arith
  work-send_row (some row) s = elim (Bool-cases has_committer) [
    | inl h ↦ rw h (omega arith)
    | inr h ↦ rw h (omega arith)
  ]

  work-take_joined :
      (path : FilePath) (j : Joined) (s : Pipeline)
      → work (take_joined cfg has_committer show path j s)
        ≤ 8 * length s.pending
          + 6 * length s.in_flight
          + 6
          + 3 * length s.channel
          + writer_work s.writer
  unfolding take_joined
  work-take_joined path (crashed e) s = omega arith
  work-take_joined path (Joined.returned (err e)) s = omega arith
  work-take_joined path (Joined.returned (ok o)) s =
      work-send_row (tally s.counts o).1 (record s { counts = (tally s.counts o).0 })

  receive_work :
      (row : FileInfo) (s : Pipeline)
      → writer_work (receive cfg has_committer show row s).writer ≤ 3
  unfolding receive
  receive_work row s = elim (Bool-cases (leb cfg.batch_size (length (s.batch ++ row ∷ [])))) [
    | inl h ↦ rw h (omega arith)
    | inr h ↦ rw h (omega arith)
  ]

  receive_end_work : (s : Pipeline) → writer_work (receive_end cfg has_committer show s).writer ≤ 1
  unfolding receive_end
  receive_end_work s = elim (Bool-cases (is_empty s.batch)) [
    | inl h ↦ rw h (omega arith)
    | inr h ↦ rw h (omega arith)
  ]

  paths_length : {xs ys : List FilePath} → xs ≡ ys → length xs ≡ length ys
  paths_length e = ap (λ (zs : List FilePath). length zs) e

  rows_length : {xs ys : List FileInfo} → xs ≡ ys → length xs ≡ length ys
  rows_length e = ap (λ (zs : List FileInfo). length zs) e

  producer_eq : {p q : Producer} → p ≡ q → producer_work p ≡ producer_work q
  producer_eq e = ap (λ (p : Producer). producer_work p) e

  writer_eq : {p q : Writer} → p ≡ q → writer_work p ≡ writer_work q
  writer_eq e = ap (λ (p : Writer). writer_work p) e

  committing_work :
      (s : Pipeline)
      → (s.writer ≡ committing) ⊎ (s.writer ≡ committing_tail)
      → 0 < writer_work s.writer
  committing_work s (inl e) = omega (arith, writer_eq e)
  committing_work s (inr e) = omega (arith, writer_eq e)

  -- Each step of either task makes the work that is left smaller.
  pub Step-work : {s t : Pipeline} → Step cfg has_committer show s t → work t < work s
  unfolding receive receive_end flush_ok flush_err
  Step-work (start_file s path rest a b c) =
      omega (arith, paths_length c, length-append s.in_flight (path ∷ []))
  Step-work (start_none s a b) = omega (arith, producer_eq a)
  Step-work (join_file s before after path j a b) = omega (
    arith,
    work-take_joined path j (record s { in_flight = before ++ after }),
    producer_eq a,
    paths_length b,
    length-append before after,
    length-append before (path ∷ after),
  )
  Step-work (join_none s a b) = omega (arith, producer_eq a)
  Step-work (send s row a b c) = omega (arith, producer_eq a, length-append s.channel (row ∷ []))
  Step-work (send_fails s row a b) = omega (arith, producer_eq a)
  Step-work (recv s row rest a b) =
      omega (arith, writer_eq a, rows_length b, receive_work row (record s { channel = rest }))
  Step-work (recv_none s a b c) = omega (arith, writer_eq a, receive_end_work s)
  Step-work (commit_batch s a) = omega (arith, writer_eq a)
  Step-work (commit_tail s a) = omega (arith, writer_eq a)
  Step-work (commit_fails s e a) = omega (arith, committing_work s a)

  -- The number of steps of a run.
  abbrev pub steps :
      {files : List FilePath} {s : Pipeline} → Reached cfg has_committer show files s → ℕ
  steps launched = 0
  steps (stepped s t r st) = suc (steps r)

  work-launch :
      (files : List FilePath) → work (launch cfg has_committer show files) ≤ 8 * length files + 4
  work-launch files = elim (Bool-cases has_committer) [
    | inl h ↦ rw h (omega arith)
    | inr h ↦ rw h (omega arith)
  ]

  steps-work :
      {files : List FilePath} {s : Pipeline}
      → (r : Reached cfg has_committer show files s) → steps r + work s ≤ 8 * length files + 4
  steps-work {files} launched = omega (arith, work-launch files)
  steps-work (stepped s t r st) = omega (arith, steps-work r, Step-work st)

  -- Whatever the workers and the committer return, and however the two tasks are interleaved, a
  -- run of the pipeline has at most eight steps for each candidate and four more.
  pub steps_bounded :
      (files : List FilePath) (s : Pipeline)
      → (r : Reached cfg has_committer show files s) → steps r ≤ 8 * length files + 4
  steps_bounded files s r = omega (arith, steps-work r)
