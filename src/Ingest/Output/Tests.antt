-- ===== src/Ingest/Output/Tests.antt =====
-- Summaries of concrete runs.
use anti_entropator.Prelude.{
  ◌<◌, ◌≡◌, ◌↔◌, Option, none, List, [], ◌∷◌, arith, Error, ok, Text, ascii,
}
use anti_entropator.Ingest.Output.{
  ingest, IngestStatus, no_ingest_counts, CommitCounts, IngestSummary, build, outcome_error,
}
use anti_entropator.Ingest.Output.Outcome.{outcome_error-ok, status-build}

abbrev one_error : List Text
one_error = ascii "/a: denied" ∷ []

abbrev two_batches : CommitCounts
two_batches = record { committed = 10; batches_committed = 2; batches_failed = 0 }

abbrev sample : IngestSummary
sample = build ingest 1 (ascii "usb") no_ingest_counts two_batches one_error

outcome_error-ok_example :
    (outcome_error sample none ≡ ok tt) ↔ (◌≡◌ {A = Option Error} none none × (one_error ≡ []))
outcome_error-ok_example =
    outcome_error-ok ingest 1 (ascii "usb") no_ingest_counts two_batches one_error none
      (omega arith)

status-build_example :
    ((sample.status ≡ IngestStatus.success) ↔ ((two_batches.batches_failed ≡ 0) × (one_error ≡ [])))
    × ((sample.status ≡ IngestStatus.commit_failed) ↔ (0 < two_batches.batches_failed))
status-build_example =
    status-build ingest 1 (ascii "usb") no_ingest_counts two_batches one_error (omega arith)
