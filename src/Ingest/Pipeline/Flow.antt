-- ===== src/Ingest/Pipeline/Flow.antt =====
-- What has become of the rows that the producer sent, and what a finished file changes of it.
use mathlib.Core.List.{append_assoc, append-nil}
use anti_entropator.Prelude.{
  ◌≡◌, refl, sym, ap, ◌∙◌, ◌≢◌, ◌⊎◌, true, Option, none, some, List, [], ◌∷◌, ◌++◌, concat, Error,
  ok, err, Text,
}
use anti_entropator.Ingest.Pipeline.{
  PipelineConfig, tally, Producer, joining, sending, finished, Writer, committing_tail, Pipeline,
  Joined, crashed, send_row, take_joined,
}
use anti_entropator.Domain.FileInfo.{FilePath, FileInfo}

-- The row that waits for room in the channel.
abbrev pub outbox : Producer → List FileInfo
outbox (sending row) = row ∷ []
outbox _ = []

-- No batch has failed: what was sent is in the catalog, in the batch, in the channel or waiting.
pub record IsRunning (s : Pipeline) : Type 0 where
  pub no_failure : s.commit_failure ≡ none
  pub sent : s.produced ≡ concat s.acknowledged ++ s.batch ++ s.channel ++ outbox s.producer
  pub ending :
      (s.writer ≡ Writer.returned) ⊎ (s.writer ≡ committing_tail)
      → (s.producer ≡ finished) × (s.channel ≡ [])
  pub emptied : s.writer ≡ Writer.returned → s.batch ≡ []

-- A batch has failed: the writer is gone, and what was sent begins with the acknowledged batches and
-- the failed one.
pub record IsFailed (s : Pipeline) : Type 0 where
  pub failure : (e : Error) × (s.commit_failure ≡ some e)
  pub gone : s.writer ≡ Writer.returned
  pub stopped : s.stop ≡ true
  pub lost : List FileInfo
  pub sent : s.produced ≡ concat s.acknowledged ++ s.rejected ++ lost

pub concat-append :
    {A : Type 0} (xss : List (List A)) (xs : List A) → concat (xss ++ xs ∷ []) ≡ concat xss ++ xs
concat-append [] xs = append-nil xs
concat-append (ys ∷ xss) xs =
    ap (λ (zs : List _). ys ++ zs) (concat-append xss xs) ∙ sym (append_assoc ys (concat xss) xs)

pub early :
    {A : Type 0} (s : Pipeline)
    → IsRunning s
    → s.producer ≢ finished
    → (s.writer ≡ Writer.returned) ⊎ (s.writer ≡ committing_tail)
    → A
early s r busy w = absurd (busy (r.ending w).0)

module _ (cfg : PipelineConfig) (show : Error → Text) where
  pub send_row-IsRunning :
      (o : Option FileInfo) (s : Pipeline)
      → s.producer ≡ joining
      → IsRunning s
      → IsRunning (send_row cfg true show o s)
  send_row-IsRunning none s a r = record {
    no_failure = r.no_failure;
    sent = rw a at r.sent;
    ending = early s r (λ h. cc);
    emptied = r.emptied;
  }
  send_row-IsRunning (some row) s a r = record {
    no_failure = r.no_failure;
    sent =
        let before : s.produced ≡ concat s.acknowledged ++ s.batch ++ s.channel ++ [] =
          rw a at r.sent in
        rw (before, append-nil (concat s.acknowledged ++ s.batch ++ s.channel)) refl;
    ending = early s r (λ h. cc);
    emptied = r.emptied;
  }

  pub take_joined-IsRunning :
      (path : FilePath) (j : Joined) (s : Pipeline)
      → s.producer ≡ joining
      → IsRunning s
      → IsRunning (take_joined cfg true show path j s)
  unfolding take_joined
  take_joined-IsRunning path (crashed e) s a r = record {
    no_failure = r.no_failure;
    sent = rw a at r.sent;
    ending = early s r (λ h. cc);
    emptied = r.emptied;
  }
  take_joined-IsRunning path (Joined.returned (err e)) s a r = record {
    no_failure = r.no_failure;
    sent = rw a at r.sent;
    ending = early s r (λ h. cc);
    emptied = r.emptied;
  }
  take_joined-IsRunning path (Joined.returned (ok o)) s a r =
      send_row-IsRunning (tally s.counts o).1 (record s { counts = (tally s.counts o).0 }) a
        (record {
          no_failure = r.no_failure;
          sent = r.sent;
          ending = r.ending;
          emptied = r.emptied;
        })

  pub send_row-IsFailed :
      (o : Option FileInfo) (s : Pipeline) → IsFailed s → IsFailed (send_row cfg true show o s)
  send_row-IsFailed none s f = record {
    failure = f.failure;
    gone = f.gone;
    stopped = f.stopped;
    lost = f.lost;
    sent = f.sent;
  }
  send_row-IsFailed (some row) s f = record {
    failure = f.failure;
    gone = f.gone;
    stopped = f.stopped;
    lost = f.lost ++ row ∷ [];
    sent = rw (f.sent, append_assoc (concat s.acknowledged ++ s.rejected) f.lost (row ∷ [])) refl;
  }

  pub take_joined-IsFailed :
      (path : FilePath) (j : Joined) (s : Pipeline)
      → IsFailed s
      → IsFailed (take_joined cfg true show path j s)
  unfolding take_joined
  take_joined-IsFailed path (crashed e) s f = record {
    failure = f.failure;
    gone = f.gone;
    stopped = f.stopped;
    lost = f.lost;
    sent = f.sent;
  }
  take_joined-IsFailed path (Joined.returned (err e)) s f = record {
    failure = f.failure;
    gone = f.gone;
    stopped = f.stopped;
    lost = f.lost;
    sent = f.sent;
  }
  take_joined-IsFailed path (Joined.returned (ok o)) s f =
      send_row-IsFailed (tally s.counts o).1 (record s { counts = (tally s.counts o).0 })
        (record {
          failure = f.failure;
          gone = f.gone;
          stopped = f.stopped;
          lost = f.lost;
          sent = f.sent;
        })
