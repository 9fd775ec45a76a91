-- ===== src/Ingest/Pipeline.antt =====
-- src/ingest/pipeline.rs: the producer and the writer of an ingest, joined by a bounded channel, as
-- a step relation. One step is what one task does between two points where it may wait; the order of
-- the steps, the order in which the files in flight finish, and what the workers and the committer
-- return are arbitrary. Progress display and tracing are not modelled.
pub mod Accounting
pub mod Bounds
pub mod Progress
pub mod Flow
pub mod Rows
pub mod Termination
pub mod Skipped
mod Tests
use anti_entropator.Prelude.{
  ℕ, ◌+◌, ◌<◌, ◌≡◌, ◌≢◌, ◌⊎◌, Bool, true, false, ◌&&◌, not, Option, none, some, List, [], ◌∷◌, ◌++◌,
  length, is_empty, Error, context, Result, ok, err, ltb, leb, if◌then◌else◌, u64, Text, ascii,
  decimal,
}
use anti_entropator.Ingest.Output.{IngestCounts, no_ingest_counts, CommitCounts, no_commit_counts}
use anti_entropator.Domain.FileInfo.{FilePath, FileInfo}

-- ingest/mod.rs
pub data BlobState : Type 0 where
  uploaded existing : BlobState

pub data IngestOutcome : Type 0 where
  observed : FileInfo → BlobState → IngestOutcome
  unchanged : BlobState → IngestOutcome

-- Both are non-zero.
pub record PipelineConfig : Type 0 where
  pub concurrency : ℕ
  pub batch_size : ℕ

abbrev count_blob : BlobState → IngestCounts → IngestCounts
count_blob BlobState.uploaded c = record c { uploaded = u64 (c.uploaded + 1) }
count_blob BlobState.existing c = record c { already_exists = u64 (c.already_exists + 1) }

abbrev count_bytes : BlobState → ℕ → IngestCounts → IngestCounts
count_bytes BlobState.uploaded size c = record c { bytes = u64 (c.bytes + size) }
count_bytes BlobState.existing size c = c

unfoldable pub tally : IngestCounts → IngestOutcome → IngestCounts × Option FileInfo
tally c (IngestOutcome.observed info blob) = (
  count_blob blob (count_bytes blob info.size_bytes (record c { observed = u64 (c.observed + 1) })),
  some info,
)
tally c (IngestOutcome.unchanged blob) =
    (count_blob blob (record c { unchanged = u64 (c.unchanged + 1) }), none)

-- Where the producer's loop stands: starting files, waiting for one to finish, waiting for room in
-- the channel, or at its end with the sender dropped.
pub data Producer : Type 0 where
  starting joining : Producer
  sending : FileInfo → Producer
  finished : Producer

-- The writer waits for a row, commits a full batch, commits the tail, or has returned.
pub data Writer : Type 0 where
  receiving committing committing_tail returned : Writer

pub record Pipeline : Type 0 where
  pub pending : List FilePath
  pub in_flight : List FilePath
  pub producer : Producer
  pub counts : IngestCounts
  pub errors : List Text
  pub channel : List FileInfo
  pub stop : Bool
  pub writer : Writer
  pub batch : List FileInfo
  pub commit : CommitCounts
  pub commit_failure : Option Error
  -- history: the rows handed to the channel, the acknowledged batches, the batch that failed
  pub produced : List FileInfo
  pub acknowledged : List (List FileInfo)
  pub rejected : List FileInfo

-- What a joined task delivers: the worker's result, or a `JoinError`.
pub data Joined : Type 0 where
  returned : Result IngestOutcome → Joined
  crashed : Text → Joined

module _ (cfg : PipelineConfig) (has_committer : Bool) (show : Error → Text) where
  -- The start of `run_pipeline`; without a committer there is no channel, and the writer returns.
  abbrev pub launch : List FilePath → Pipeline
  launch files = record {
    pending = files;
    in_flight = [];
    producer = starting;
    counts = no_ingest_counts;
    errors = [];
    channel = [];
    stop = false;
    writer = if has_committer then receiving else Writer.returned;
    batch = [];
    commit = no_commit_counts;
    commit_failure = none;
    produced = [];
    acknowledged = [];
    rejected = [];
  }

  unfoldable pub may_start : Pipeline → Bool
  may_start s = ltb (length s.in_flight) cfg.concurrency && not s.stop

  -- The row is sent only where there is a channel.
  abbrev pub send_row : Option FileInfo → Pipeline → Pipeline
  send_row none s = record s { producer = starting }
  send_row (some row) s =
      if has_committer
      then record s { producer = sending row; produced = s.produced ++ row ∷ [] }
      else record s { producer = starting }

  -- The producer's reaction to a joined task.
  unfoldable pub take_joined : FilePath → Joined → Pipeline → Pipeline
  take_joined path (crashed e) s = record s {
    producer = starting;
    errors = s.errors ++ (ascii "worker task failed: " ++ e) ∷ [];
  }
  take_joined path (returned (err e)) s = record s {
    producer = starting;
    errors = s.errors ++ (path ++ ascii ": " ++ show e) ∷ [];
  }
  take_joined path (returned (ok outcome)) s =
      send_row (tally s.counts outcome).1 (record s { counts = (tally s.counts outcome).0 })

  -- `batch.push(row)` and the test on its length.
  unfoldable pub receive : FileInfo → Pipeline → Pipeline
  receive row s = record s {
    batch = s.batch ++ row ∷ [];
    writer = if leb cfg.batch_size (length (s.batch ++ row ∷ [])) then committing else receiving;
  }

  -- The channel is closed and empty.
  unfoldable pub receive_end : Pipeline → Pipeline
  receive_end s = record s {
    writer = if is_empty s.batch then Writer.returned else committing_tail;
  }

  abbrev pub batch_index : CommitCounts → ℕ
  batch_index c = u64 (u64 (c.batches_committed + c.batches_failed) + 1)

  -- `flush` where the committer acknowledges the batch.
  unfoldable pub flush_ok : (next : Writer) → Pipeline → Pipeline
  flush_ok next s = record s {
    batch = [];
    writer = next;
    commit = record (s.commit) {
      committed = u64 (s.commit.committed + u64 (length s.batch));
      batches_committed = u64 (s.commit.batches_committed + 1);
    };
    acknowledged = s.acknowledged ++ s.batch ∷ [];
  }

  -- `flush` where it fails, with what `writer_stage` does then: the writer raises `stop`, drops the
  -- receiver with the rows in the channel, and returns.
  unfoldable pub flush_err : Error → Pipeline → Pipeline
  flush_err e s = record s {
    batch = [];
    channel = [];
    writer = Writer.returned;
    stop = true;
    commit = record (s.commit) { batches_failed = u64 (s.commit.batches_failed + 1) };
    commit_failure = some (
        context
          (ascii "batch "
            ++ decimal (batch_index s.commit)
            ++ ascii " ("
            ++ decimal (u64 (length s.batch))
            ++ ascii " rows)")
          e);
    rejected = s.batch;
  }

  pub data Step : Pipeline → Pipeline → Type 0 where
    start_file :
        (s : Pipeline) (path : FilePath) (rest : List FilePath)
        → s.producer ≡ starting
        → may_start s ≡ true
        → s.pending ≡ path ∷ rest
        → Step s (record s { pending = rest; in_flight = s.in_flight ++ path ∷ [] })
    start_none :
        (s : Pipeline)
        → s.producer ≡ starting
        → (may_start s ≡ false) ⊎ (s.pending ≡ [])
        → Step s (record s { producer = joining })
    join_file :
        (s : Pipeline) (before after : List FilePath) (path : FilePath) (joined : Joined)
        → s.producer ≡ joining
        → s.in_flight ≡ before ++ path ∷ after
        → Step s (take_joined path joined (record s { in_flight = before ++ after }))
    -- the number of candidates that were never started
    join_none :
        (s : Pipeline)
        → s.producer ≡ joining
        → s.in_flight ≡ []
        → Step s (record s {
          producer = finished;
          counts = record (s.counts) { skipped = u64 (length s.pending) };
        })
    send :
        (s : Pipeline) (row : FileInfo)
        → s.producer ≡ sending row
        → s.writer ≢ Writer.returned
        → length s.channel < cfg.batch_size
        → Step s (record s { producer = starting; channel = s.channel ++ row ∷ [] })
    -- the receiver has been dropped
    send_fails :
        (s : Pipeline) (row : FileInfo)
        → s.producer ≡ sending row
        → s.writer ≡ Writer.returned
        → Step s (record s { producer = starting })
    recv :
        (s : Pipeline) (row : FileInfo) (rest : List FileInfo)
        → s.writer ≡ receiving
        → s.channel ≡ row ∷ rest
        → Step s (receive row (record s { channel = rest }))
    recv_none :
        (s : Pipeline)
        → s.writer ≡ receiving
        → s.channel ≡ []
        → s.producer ≡ finished
        → Step s (receive_end s)
    commit_batch : (s : Pipeline) → s.writer ≡ committing → Step s (flush_ok receiving s)
    commit_tail : (s : Pipeline) → s.writer ≡ committing_tail → Step s (flush_ok Writer.returned s)
    commit_fails :
        (s : Pipeline) (e : Error)
        → (s.writer ≡ committing) ⊎ (s.writer ≡ committing_tail)
        → Step s (flush_err e s)

  -- The states that the pipeline reaches on `files`.
  pub data Reached (files : List FilePath) : Pipeline → Type 0 where
    launched : Reached files (launch files)
    stepped : (s t : Pipeline) → Reached files s → Step s t → Reached files t
