-- ===== src/Ingest/Pipeline/Progress.antt =====
-- Which step a pipeline that has not finished can take.
use anti_entropator.Prelude.{
  ◌<◌, ◌≡◌, refl, sym, ◌∙◌, ◌⊎◌, inl, inr, Bool, List, [], ◌∷◌, Error, Bool-cases, Text,
}
use anti_entropator.Ingest.Pipeline.{
  PipelineConfig, Producer, starting, joining, sending, finished, Writer, receiving, committing,
  committing_tail, Pipeline, crashed, may_start, Step, start_file, start_none, join_file, join_none,
  send, send_fails, recv, recv_none, commit_batch, commit_tail,
}
use anti_entropator.Domain.FileInfo.{FilePath, FileInfo}

module _ (cfg : PipelineConfig) (has_committer : Bool) (show : Error → Text) where
  abbrev pub CanStep : Pipeline → Type 0
  CanStep s = (t : Pipeline) × Step cfg has_committer show s t

  starting_steps :
      (s : Pipeline) → s.producer ≡ starting → (ps : List FilePath) → s.pending ≡ ps → CanStep s
  starting_steps s p [] e = (_, start_none s p (inr e))
  starting_steps s p (path ∷ rest) e = elim (Bool-cases (may_start cfg has_committer show s)) [
    | inl h ↦ (_, start_file s path rest p h e)
    | inr h ↦ (_, start_none s p (inl h))
  ]

  joining_steps :
      (s : Pipeline) → s.producer ≡ joining → (ps : List FilePath) → s.in_flight ≡ ps → CanStep s
  joining_steps s p [] e = (_, join_none s p e)
  joining_steps s p (path ∷ rest) e = (_, join_file s [] rest path (crashed []) p e)

  receiving_steps :
      (s : Pipeline)
      → s.writer ≡ receiving
      → (s.producer ≡ finished) ⊎ ((row : FileInfo) × (s.producer ≡ sending row))
      → 0 < cfg.batch_size
      → (rows : List FileInfo) → s.channel ≡ rows
      → CanStep s
  receiving_steps s w o b (r ∷ rows) e = (_, recv s r rows w e)
  receiving_steps s w (inl p) b [] e = (_, recv_none s w e p)
  receiving_steps s w (inr (row, p)) b [] e =
      (_, send s row p (λ h. let g : receiving ≡ Writer.returned = sym w ∙ h in cc) (rw e b))

  stuck_or_steps :
      (s : Pipeline)
      → 0 < cfg.batch_size
      → (p : Producer) → s.producer ≡ p
      → (w : Writer) → s.writer ≡ w
      → ((s.producer ≡ finished) × (s.writer ≡ Writer.returned)) ⊎ CanStep s
  stuck_or_steps s b starting p w q = inr (starting_steps s p s.pending refl)
  stuck_or_steps s b joining p w q = inr (joining_steps s p s.in_flight refl)
  stuck_or_steps s b (sending row) p receiving q =
      inr (receiving_steps s q (inr (row, p)) b s.channel refl)
  stuck_or_steps s b (sending row) p committing q = inr (_, commit_batch s q)
  stuck_or_steps s b (sending row) p committing_tail q = inr (_, commit_tail s q)
  stuck_or_steps s b (sending row) p Writer.returned q = inr (_, send_fails s row p q)
  stuck_or_steps s b finished p receiving q = inr (receiving_steps s q (inl p) b s.channel refl)
  stuck_or_steps s b finished p committing q = inr (_, commit_batch s q)
  stuck_or_steps s b finished p committing_tail q = inr (_, commit_tail s q)
  stuck_or_steps s b finished p Writer.returned q = inl (p, q)

  -- With a positive batch size, a pipeline in which the producer has not finished or the writer
  -- has not returned can take a step.
  pub can_step :
      (s : Pipeline)
      → 0 < cfg.batch_size
      → ((s.producer ≡ finished) × (s.writer ≡ Writer.returned)) ⊎ CanStep s
  can_step s b = stuck_or_steps s b s.producer refl s.writer refl
