-- ===== src/Ingest/Pipeline/Rows.antt =====
-- The rows that the producer sends and the batches that the committer is given.
use mathlib.Core.List.{append_assoc, append-nil}
use anti_entropator.Prelude.{
  ◌≡◌, refl, sym, ◌∙◌, ◌⊎◌, inl, inr, true, none, some, List, [], ◌∷◌, ◌++◌, length, is_empty,
  concat, Error, leb, if◌then◌else◌, Bool-cases, Text,
}
use anti_entropator.Ingest.Pipeline.{
  PipelineConfig, finished, Writer, receiving, committing, committing_tail, Pipeline, receive,
  receive_end, flush_ok, flush_err, Step, start_file, start_none, join_file, join_none, send,
  send_fails, recv, recv_none, commit_batch, commit_tail, commit_fails, Reached, launched, stepped,
}
use anti_entropator.Domain.FileInfo.{FilePath, FileInfo}
use anti_entropator.Ingest.Pipeline.Flow.{
  outbox, IsRunning, IsFailed, concat-append, early, take_joined-IsRunning, take_joined-IsFailed,
}

module _ (cfg : PipelineConfig) (show : Error → Text) where
  abbrev pub IsOrdered : Pipeline → Type 0
  IsOrdered s = IsRunning s ⊎ IsFailed s

  receive_writer :
      (row : FileInfo) (s : Pipeline)
      → ((receive cfg true show row s).writer ≡ committing)
        ⊎ ((receive cfg true show row s).writer ≡ receiving)
  unfolding receive
  receive_writer row s = elim (Bool-cases (leb cfg.batch_size (length (s.batch ++ row ∷ [])))) [
    | inl h ↦ inl (rw h refl)
    | inr h ↦ inr (rw h refl)
  ]

  receiving_open : (receiving ≡ Writer.returned) ⊎ (receiving ≡ committing_tail) → ⊥
  receiving_open (inl h) = absurd cc
  receiving_open (inr h) = absurd cc

  receive_open :
      (row : FileInfo) (s : Pipeline)
      → ((receive cfg true show row s).writer ≡ Writer.returned)
        ⊎ ((receive cfg true show row s).writer ≡ committing_tail)
      → ⊥
  receive_open row s (inl h) = elim (receive_writer row s) [ inl c ↦ absurd cc | inr c ↦ absurd cc ]
  receive_open row s (inr h) = elim (receive_writer row s) [ inl c ↦ absurd cc | inr c ↦ absurd cc ]

  receive-IsRunning :
      (row : FileInfo) (rest : List FileInfo) (s : Pipeline)
      → s.channel ≡ row ∷ rest
      → IsRunning s
      → IsRunning (receive cfg true show row (record s { channel = rest }))
  unfolding receive
  receive-IsRunning row rest s b r = record {
    no_failure = r.no_failure;
    sent =
        rw
          (
            sym (append_assoc (concat s.acknowledged) s.batch (row ∷ [])),
            append_assoc (concat s.acknowledged ++ s.batch) (row ∷ []) rest,
          )
          (rw b at r.sent);
    ending = λ w. absurd (receive_open row (record s { channel = rest }) w);
    emptied = λ w. absurd (receive_open row (record s { channel = rest }) (inl w));
  }

  last_writer :
      (b : List FileInfo)
      → (if is_empty b then Writer.returned else committing_tail) ≡ Writer.returned
      → b ≡ []
  last_writer [] h = refl
  last_writer (x ∷ xs) h = cc

  receive_end-IsRunning :
      (s : Pipeline)
      → s.channel ≡ []
      → s.producer ≡ finished
      → IsRunning s
      → IsRunning (receive_end cfg true show s)
  unfolding receive_end
  receive_end-IsRunning s b c r = record {
    no_failure = r.no_failure;
    sent = r.sent;
    ending = λ w. (c, b);
    emptied = λ w. last_writer s.batch w;
  }

  flush_ok_sent :
      (s : Pipeline)
      → IsRunning s
      → s.produced ≡ concat (s.acknowledged ++ s.batch ∷ []) ++ [] ++ s.channel ++ outbox s.producer
  flush_ok_sent s r =
      rw (concat-append s.acknowledged s.batch, append-nil (concat s.acknowledged ++ s.batch))
        r.sent

  IsRunning-Step : {s t : Pipeline} → Step cfg true show s t → IsRunning s → IsOrdered t
  unfolding flush_ok flush_err
  IsRunning-Step (start_file s path rest a b c) r =
      inl (record {
        no_failure = r.no_failure;
        sent = r.sent;
        ending = r.ending;
        emptied = r.emptied;
      })
  IsRunning-Step (start_none s a b) r = inl (record {
    no_failure = r.no_failure;
    sent = rw a at r.sent;
    ending = early s r (λ h. cc);
    emptied = r.emptied;
  })
  IsRunning-Step (join_file s before after path j a b) r = inl (
      take_joined-IsRunning cfg show path j (record s { in_flight = before ++ after }) a
        (record {
          no_failure = r.no_failure;
          sent = r.sent;
          ending = r.ending;
          emptied = r.emptied;
        }))
  IsRunning-Step (join_none s a b) r = inl (record {
    no_failure = r.no_failure;
    sent = rw a at r.sent;
    ending = early s r (λ h. cc);
    emptied = r.emptied;
  })
  IsRunning-Step (send s row a b c) r = inl (record {
    no_failure = r.no_failure;
    sent =
        rw
          (
            append-nil (concat s.acknowledged ++ s.batch ++ (s.channel ++ row ∷ [])),
            sym (append_assoc (concat s.acknowledged ++ s.batch) s.channel (row ∷ [])),
          )
          (rw a at r.sent);
    ending = early s r (λ h. cc);
    emptied = r.emptied;
  })
  IsRunning-Step (send_fails s row a b) r = early s r (λ h. cc) (inl b)
  IsRunning-Step (recv s row rest a b) r = inl (receive-IsRunning row rest s b r)
  IsRunning-Step (recv_none s a b c) r = inl (receive_end-IsRunning s b c r)
  IsRunning-Step (commit_batch s a) r = inl (record {
    no_failure = r.no_failure;
    sent = flush_ok_sent s r;
    ending = λ w. absurd (receiving_open w);
    emptied = λ w. refl;
  })
  IsRunning-Step (commit_tail s a) r = inl (record {
    no_failure = r.no_failure;
    sent = flush_ok_sent s r;
    ending = λ w. r.ending (inr a);
    emptied = λ w. refl;
  })
  IsRunning-Step (commit_fails s e a) r = inr (record {
    failure = (_, refl);
    gone = refl;
    stopped = refl;
    lost = s.channel ++ outbox s.producer;
    sent = r.sent ∙ append_assoc (concat s.acknowledged ++ s.batch) s.channel (outbox s.producer);
  })

  IsFailed-Step : {s t : Pipeline} → Step cfg true show s t → IsFailed s → IsFailed t
  IsFailed-Step (start_file s path rest a b c) f = record {
    failure = f.failure;
    gone = f.gone;
    stopped = f.stopped;
    lost = f.lost;
    sent = f.sent;
  }
  IsFailed-Step (start_none s a b) f = record {
    failure = f.failure;
    gone = f.gone;
    stopped = f.stopped;
    lost = f.lost;
    sent = f.sent;
  }
  IsFailed-Step (join_file s before after path j a b) f =
      take_joined-IsFailed cfg show path j (record s { in_flight = before ++ after })
        (record {
          failure = f.failure;
          gone = f.gone;
          stopped = f.stopped;
          lost = f.lost;
          sent = f.sent;
        })
  IsFailed-Step (join_none s a b) f = record {
    failure = f.failure;
    gone = f.gone;
    stopped = f.stopped;
    lost = f.lost;
    sent = f.sent;
  }
  IsFailed-Step (send s row a b c) f = absurd (b f.gone)
  IsFailed-Step (send_fails s row a b) f = record {
    failure = f.failure;
    gone = f.gone;
    stopped = f.stopped;
    lost = f.lost;
    sent = f.sent;
  }
  IsFailed-Step (recv s row rest a b) f = let g : s.writer ≡ Writer.returned = f.gone in absurd cc
  IsFailed-Step (recv_none s a b c) f = let g : s.writer ≡ Writer.returned = f.gone in absurd cc
  IsFailed-Step (commit_batch s a) f = let g : s.writer ≡ Writer.returned = f.gone in absurd cc
  IsFailed-Step (commit_tail s a) f = let g : s.writer ≡ Writer.returned = f.gone in absurd cc
  IsFailed-Step (commit_fails s e (inl a)) f =
      let g : s.writer ≡ Writer.returned = f.gone in absurd cc
  IsFailed-Step (commit_fails s e (inr a)) f =
      let g : s.writer ≡ Writer.returned = f.gone in absurd cc

  Reached-IsOrdered :
      {files : List FilePath} {s : Pipeline} → Reached cfg true show files s → IsOrdered s
  Reached-IsOrdered launched = inl (record {
    no_failure = refl;
    sent = refl;
    ending = λ w. absurd (receiving_open w);
    emptied = λ w. refl;
  })
  Reached-IsOrdered (stepped s t r st) = elim (Reached-IsOrdered r) [
    | inl run ↦ IsRunning-Step st run
    | inr f ↦ inr (IsFailed-Step st f)
  ]

  all_sent :
      (s : Pipeline)
      → IsRunning s
      → s.producer ≡ finished
      → s.writer ≡ Writer.returned
      → concat s.acknowledged ≡ s.produced
  all_sent s run p w =
      let no_rows : s.channel ≡ [] = (run.ending (inl w)).1 in
      let no_batch : s.batch ≡ [] = run.emptied w in
      let sent : s.produced ≡ concat s.acknowledged ++ [] ++ [] ++ [] =
        rw (no_batch, no_rows, p) at run.sent in
      sym (
        sent
        ∙ append-nil (concat s.acknowledged ++ [] ++ [])
        ∙ append-nil (concat s.acknowledged ++ [])
        ∙ append-nil (concat s.acknowledged))

  -- For a pipeline with a committer whose two tasks have returned: without a commit failure, the
  -- acknowledged batches hold exactly the rows that the producer sent, in their order; with one,
  -- the rows sent begin with those of the acknowledged batches followed by those of the batch
  -- that failed.
  pub finished_rows :
      (files : List FilePath) (s : Pipeline)
      → Reached cfg true show files s
      → s.producer ≡ finished
      → s.writer ≡ Writer.returned
      → ((s.commit_failure ≡ none) × (concat s.acknowledged ≡ s.produced))
        ⊎ ((e : Error) × (s.commit_failure ≡ some e)
            × ((lost : List FileInfo) × (s.produced ≡ concat s.acknowledged ++ s.rejected ++ lost)))
  finished_rows files s r p w = elim (Reached-IsOrdered r) [
    | inl run ↦ inl (run.no_failure, all_sent s run p w)
    | inr f ↦ inr (f.failure.0, f.failure.1, (f.lost, f.sent))
  ]
