-- ===== src/Ingest/Output.antt =====
-- src/ingest/output.rs: the modes of an ingest, its counts, and the summary with its outcome. The
-- printing is not modelled.
pub mod Outcome
mod Tests
use anti_entropator.Prelude.{
  ℕ, ◌-◌, Bool, true, false, Option, none, some, List, ◌++◌, length, Error, message, context,
  Result, ok, err, ltb, if◌then◌else◌, u64, Text, ascii, decimal,
}
use anti_entropator.Domain.Observation.{Uuid}

abbrev pub ingest_summary_format_version : ℕ
ingest_summary_format_version = 4

pub data IngestMode : Type 0 where
  dry_run_offline dry_run ingest : IngestMode

unfoldable pub from_flags : (dry offline : Bool) → IngestMode
from_flags false offline = ingest
from_flags true true = dry_run_offline
from_flags true false = dry_run

unfoldable pub is_connected : IngestMode → Bool
is_connected dry_run_offline = false
is_connected _ = true

unfoldable pub writes : IngestMode → Bool
writes ingest = true
writes _ = false

unfoldable pub label : IngestMode → Text
label dry_run_offline = ascii "dry-run, offline (store not checked)"
label dry_run = ascii "dry-run (store checked, nothing written)"
label ingest = ascii "ingest"

unfoldable pub preview_flags : IngestMode → Option Text
preview_flags dry_run_offline = some (ascii "--dry-run --offline")
preview_flags dry_run = some (ascii "--dry-run")
preview_flags ingest = none

pub data IngestStatus : Type 0 where
  success incomplete commit_failed : IngestStatus

pub data CatalogCommitStatus : Type 0 where
  not_attempted succeeded failed : CatalogCommitStatus

-- All `u64`.
pub record IngestCounts : Type 0 where
  pub candidates : ℕ
  pub observed : ℕ
  pub unchanged : ℕ
  pub uploaded : ℕ
  pub already_exists : ℕ
  pub bytes : ℕ
  pub skipped : ℕ

abbrev pub no_ingest_counts : IngestCounts
no_ingest_counts = record {
  candidates = 0;
  observed = 0;
  unchanged = 0;
  uploaded = 0;
  already_exists = 0;
  bytes = 0;
  skipped = 0;
}

-- All `u64`.
pub record CommitCounts : Type 0 where
  pub committed : ℕ
  pub batches_committed : ℕ
  pub batches_failed : ℕ

abbrev pub no_commit_counts : CommitCounts
no_commit_counts = record { committed = 0; batches_committed = 0; batches_failed = 0 }

-- `CommitCounts::status`
unfoldable pub status : CommitCounts → CatalogCommitStatus
status c =
    if ltb 0 c.batches_failed
    then failed
    else (if ltb 0 c.batches_committed then succeeded else not_attempted)

pub record IngestSummary : Type 0 where
  pub format_version : ℕ
  pub mode : IngestMode
  pub run_id : Uuid
  pub source_id : Text
  pub status : IngestStatus
  pub counts : IngestCounts
  pub failed : ℕ
  pub catalog_commit : CatalogCommitStatus
  pub commit : CommitCounts
  pub errors : List Text

abbrev pub summary_status : CatalogCommitStatus → (failed : ℕ) → IngestStatus
summary_status CatalogCommitStatus.failed n = IngestStatus.commit_failed
summary_status _ n = if ltb 0 n then IngestStatus.incomplete else IngestStatus.success

unfoldable pub build :
    IngestMode → Uuid → Text → IngestCounts → CommitCounts → List Text → IngestSummary
build mode run_id source_id counts commit errors = record {
  format_version = ingest_summary_format_version;
  mode = mode;
  run_id = run_id;
  source_id = source_id;
  status = summary_status (status commit) (u64 (length errors));
  counts = counts;
  failed = u64 (length errors);
  catalog_commit = status commit;
  commit = commit;
  errors = errors;
}

-- `saturating_sub`
unfoldable pub uncommitted_rows : IngestSummary → ℕ
uncommitted_rows s = s.counts.observed - s.commit.committed

abbrev incomplete_message : IngestMode → ℕ → Text
incomplete_message mode n =
    if writes mode
    then ascii "ingest incomplete: " ++ decimal n ++ ascii " file(s) failed"
    else ascii "ingest preview incomplete: " ++ decimal n ++ ascii " file(s) failed"

unfoldable pub outcome_error : IngestSummary → Option Error → Result (Unit {0})
outcome_error summary (some e) = err (context (ascii "metadata commit failed") e)
outcome_error summary none =
    if ltb 0 summary.failed
    then err (message (incomplete_message summary.mode summary.failed))
    else ok tt
