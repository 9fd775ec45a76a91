-- ===== src/Ingest/Pipeline/Bounds.antt =====
-- The bounds that the pipeline keeps on the files in flight and on the rows that wait.
use anti_entropator.Prelude.{
  ◌≤◌, ◌<◌, ◌≡◌, refl, ap, ◌≢◌, inl, inr, Bool, true, false, Option, none, some, List, [], ◌∷◌,
  ◌++◌, arith, length, is_empty, All, length-append, All-append, Error, ok, err, leb, if◌then◌else◌,
  leb→le, leb-false→lt, Bool-cases, Text,
}
use anti_entropator.Ingest.Pipeline.{
  PipelineConfig, tally, Writer, receiving, committing, Pipeline, Joined, crashed, may_start,
  send_row, take_joined, receive, receive_end, flush_ok, flush_err, Step, start_file, start_none,
  join_file, join_none, send, send_fails, recv, recv_none, commit_batch, commit_tail, commit_fails,
  Reached, launched, stepped,
}
use anti_entropator.Domain.FileInfo.{FilePath, FileInfo}

module _ (cfg : PipelineConfig) (has_committer : Bool) (show : Error → Text) where
  -- No more files in flight than `concurrency`, no more rows in the channel than `batch_size`, and
  -- the batch is committed when it has reached that size.
  pub record IsBounded (s : Pipeline) : Type 0 where
    pub files : length s.in_flight ≤ cfg.concurrency
    pub rows : length s.channel ≤ cfg.batch_size
    pub batch : length s.batch ≤ cfg.batch_size
    pub below : s.writer ≡ receiving → length s.batch < cfg.batch_size
    pub full : s.writer ≡ committing → length s.batch ≡ cfg.batch_size
    pub batches : All (λ (b : List FileInfo). length b ≤ cfg.batch_size) s.acknowledged

  abbrev SameBounds : Pipeline → Pipeline → Type 0
  SameBounds s t =
      (t.channel ≡ s.channel)
      × (t.batch ≡ s.batch)
      × (t.writer ≡ s.writer)
      × (t.acknowledged ≡ s.acknowledged)

  moved :
      (s t : Pipeline)
      → SameBounds s t
      → length t.in_flight ≤ cfg.concurrency
      → IsBounded s
      → IsBounded t
  moved s t (c, b, w, a) f i = record {
    files = f;
    rows = rw c i.rows;
    batch = rw b i.batch;
    below = rw (w, b) i.below;
    full = rw (w, b) i.full;
    batches = rw a i.batches;
  }

  send_row_moves :
      (o : Option FileInfo) (s : Pipeline)
      → SameBounds s (send_row cfg has_committer show o s)
        × ((send_row cfg has_committer show o s).in_flight ≡ s.in_flight)
  send_row_moves none s = ((refl, refl, refl, refl), refl)
  send_row_moves (some row) s = elim (Bool-cases has_committer) [
    | inl h ↦ rw h ((refl, refl, refl, refl), refl)
    | inr h ↦ rw h ((refl, refl, refl, refl), refl)
  ]

  take_joined_moves :
      (path : FilePath) (j : Joined) (s : Pipeline)
      → SameBounds s (take_joined cfg has_committer show path j s)
        × ((take_joined cfg has_committer show path j s).in_flight ≡ s.in_flight)
  unfolding take_joined
  take_joined_moves path (crashed e) s = ((refl, refl, refl, refl), refl)
  take_joined_moves path (Joined.returned (err e)) s = ((refl, refl, refl, refl), refl)
  take_joined_moves path (Joined.returned (ok o)) s =
      send_row_moves (tally s.counts o).1 (record s { counts = (tally s.counts o).0 })

  may_start_lt :
      (s : Pipeline)
      → may_start cfg has_committer show s ≡ true
      → length s.in_flight < cfg.concurrency
  unfolding may_start
  may_start_lt s h = ground arith

  files_length : {xs ys : List FilePath} → xs ≡ ys → length xs ≡ length ys
  files_length e = ap (λ (zs : List FilePath). length zs) e

  rows_length : {xs ys : List FileInfo} → xs ≡ ys → length xs ≡ length ys
  rows_length e = ap (λ (zs : List FileInfo). length zs) e

  received-IsBounded :
      (row : FileInfo) (rest : List FileInfo) (s : Pipeline)
      → s.writer ≡ receiving
      → s.channel ≡ row ∷ rest
      → IsBounded s
      → IsBounded (receive cfg has_committer show row (record s { channel = rest }))
  unfolding receive
  received-IsBounded row rest s w c i =
      let less : length s.batch < cfg.batch_size = i.below w in
      elim (Bool-cases (leb cfg.batch_size (length (s.batch ++ row ∷ [])))) [
        | inl h ↦
            let reached : cfg.batch_size ≤ length (s.batch ++ row ∷ []) = leb→le _ _ h in
            rw h (record {
              files = i.files;
              rows = omega (arith, i.rows, rows_length c);
              batch = omega (arith, less, length-append s.batch (row ∷ []));
              below = λ x. absurd cc;
              full = λ x. omega (arith, less, reached, length-append s.batch (row ∷ []));
              batches = i.batches;
            })
        | inr h ↦
            let short : length (s.batch ++ row ∷ []) < cfg.batch_size = leb-false→lt _ _ h in
            rw h (record {
              files = i.files;
              rows = omega (arith, i.rows, rows_length c);
              batch = omega (arith, short);
              below = λ x. short;
              full = λ x. absurd cc;
              batches = i.batches;
            })
      ]

  flushed-IsBounded :
      (next : Writer) (s : Pipeline)
      → 0 < cfg.batch_size
      → next ≢ committing
      → IsBounded s
      → IsBounded (flush_ok cfg has_committer show next s)
  unfolding flush_ok
  flushed-IsBounded next s positive open_next i = record {
    files = i.files;
    rows = i.rows;
    batch = omega arith;
    below = λ x. positive;
    full = λ x. absurd (open_next x);
    batches = All-append _ s.acknowledged (s.batch ∷ []) i.batches (i.batch, tt);
  }

  ended-IsBounded : (s : Pipeline) → IsBounded s → IsBounded (receive_end cfg has_committer show s)
  unfolding receive_end
  ended-IsBounded s i = elim (Bool-cases (is_empty s.batch)) [
    | inl h ↦ rw h (record {
      files = i.files;
      rows = i.rows;
      batch = i.batch;
      below = λ x. absurd cc;
      full = λ x. absurd cc;
      batches = i.batches;
    })
    | inr h ↦ rw h (record {
      files = i.files;
      rows = i.rows;
      batch = i.batch;
      below = λ x. absurd cc;
      full = λ x. absurd cc;
      batches = i.batches;
    })
  ]

  Step-IsBounded :
      {s t : Pipeline}
      → 0 < cfg.batch_size
      → Step cfg has_committer show s t
      → IsBounded s
      → IsBounded t
  unfolding flush_err
  Step-IsBounded p (start_file s path rest a b c) i =
      moved s _ (refl, refl, refl, refl)
        (omega (arith, may_start_lt s b, length-append s.in_flight (path ∷ []))) i
  Step-IsBounded p (start_none s a b) i = moved s _ (refl, refl, refl, refl) i.files i
  Step-IsBounded p (join_file s before after path j a b) i =
      let (same, flight) = take_joined_moves path j (record s { in_flight = before ++ after }) in
      moved s _ same
        (omega (
          arith,
          i.files,
          files_length flight,
          files_length b,
          length-append before after,
          length-append before (path ∷ after),
        ))
        i
  Step-IsBounded p (join_none s a b) i = moved s _ (refl, refl, refl, refl) i.files i
  Step-IsBounded p (send s row a b c) i = record {
    files = i.files;
    rows = omega (arith, c, length-append s.channel (row ∷ []));
    batch = i.batch;
    below = i.below;
    full = i.full;
    batches = i.batches;
  }
  Step-IsBounded p (send_fails s row a b) i = moved s _ (refl, refl, refl, refl) i.files i
  Step-IsBounded p (recv s row rest a b) i = received-IsBounded row rest s a b i
  Step-IsBounded p (recv_none s a b c) i = ended-IsBounded s i
  Step-IsBounded p (commit_batch s a) i = flushed-IsBounded receiving s p (λ h. cc) i
  Step-IsBounded p (commit_tail s a) i = flushed-IsBounded Writer.returned s p (λ h. cc) i
  Step-IsBounded p (commit_fails s e a) i = record {
    files = i.files;
    rows = omega arith;
    batch = omega arith;
    below = λ x. absurd cc;
    full = λ x. absurd cc;
    batches = i.batches;
  }

  launch_waits : (b : Bool) → (if b then receiving else Writer.returned) ≡ committing → ⊥
  launch_waits true h = absurd cc
  launch_waits false h = absurd cc

  -- In every state that the pipeline reaches with a positive batch size, at most `concurrency`
  -- files are in flight, at most `batch_size` rows wait in the channel and as many in the batch,
  -- a batch that is full when it is committed has exactly that size, and no acknowledged batch is
  -- larger.
  pub Reached-IsBounded :
      (files : List FilePath) (s : Pipeline)
      → 0 < cfg.batch_size
      → Reached cfg has_committer show files s
      → IsBounded s
  Reached-IsBounded files s p launched = record {
    files = omega arith;
    rows = omega arith;
    batch = omega arith;
    below = λ x. p;
    full = λ x. absurd (launch_waits has_committer x);
    batches = tt;
  }
  Reached-IsBounded files s p (stepped u v r st) =
      Step-IsBounded p st (Reached-IsBounded files u p r)
