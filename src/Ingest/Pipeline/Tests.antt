-- ===== src/Ingest/Pipeline/Tests.antt =====
-- A run of the pipeline on one file with batches of one row.
use anti_entropator.Prelude.{
  ◌+◌, ◌≤◌, ◌≡◌, refl, ◌⊎◌, inl, inr, true, none, some, List, [], ◌∷◌, ◌++◌, arith, length, concat,
  Error, ok, u64, Text, ascii,
}
use anti_entropator.Ingest.Pipeline.{
  BlobState, IngestOutcome, PipelineConfig, tally, starting, joining, finished, Writer, receiving,
  Pipeline, Joined, launch, may_start, take_joined, receive, receive_end, flush_ok, start_file,
  start_none, join_file, join_none, send, recv, recv_none, commit_batch, Reached, launched, stepped,
}
use anti_entropator.Domain.FileInfo.{FilePath, FileInfo, new}
use anti_entropator.Ingest.Pipeline.Accounting.{finished_total}
use anti_entropator.Ingest.Pipeline.Bounds.{Reached-IsBounded, IsBounded}
use anti_entropator.Ingest.Pipeline.Rows.{finished_rows}
use anti_entropator.Ingest.Pipeline.Termination.{steps, steps_bounded}
use anti_entropator.Ingest.Pipeline.Skipped.{skipped_after_failure}
use anti_entropator.Ingest.Pipeline.Progress.{CanStep, can_step}

abbrev small : PipelineConfig
small = record { concurrency = 1; batch_size = 1 }

abbrev no_text : Error → Text
no_text e = []

abbrev first_file : FilePath
first_file = ascii "/a"

abbrev one_file : List FilePath
one_file = first_file ∷ []

abbrev photo : FileInfo
photo = new (λ s. s) 1 7 (ascii "/a") (ascii "a") [] 2048 none none

abbrev joined_row : Joined
joined_row = Joined.returned (ok (IngestOutcome.observed photo BlobState.uploaded))

abbrev s0 : Pipeline
s0 = launch small true no_text one_file

abbrev s1 : Pipeline
s1 = record s0 { pending = []; in_flight = one_file }

abbrev s2 : Pipeline
s2 = record s1 { producer = joining }

abbrev s3 : Pipeline
s3 = take_joined small true no_text first_file joined_row (record s2 { in_flight = [] })

abbrev s4 : Pipeline
s4 = record s3 { producer = starting; channel = s3.channel ++ photo ∷ [] }

abbrev s5 : Pipeline
s5 = receive small true no_text photo (record s4 { channel = [] })

abbrev s6 : Pipeline
s6 = flush_ok small true no_text receiving s5

abbrev s7 : Pipeline
s7 = record s6 { producer = joining }

abbrev s8 : Pipeline
s8 = record s7 {
  producer = finished;
  counts = record (s7.counts) { skipped = u64 (length s7.pending) };
}

abbrev s9 : Pipeline
s9 = receive_end small true no_text s8

run_to_s3 : Reached small true no_text one_file s3
unfolding may_start
run_to_s3 =
    stepped s2 s3
      (stepped s1 s2 (stepped s0 s1 launched (start_file s0 first_file [] refl refl refl))
        (start_none s1 refl (inl refl)))
      (join_file s2 [] [] first_file joined_row refl refl)

run_to_s6 : Reached small true no_text one_file s6
unfolding take_joined tally receive
run_to_s6 =
    stepped s5 s6
      (stepped s4 s5 (stepped s3 s4 run_to_s3 (send s3 photo refl (λ h. cc) (omega arith)))
        (recv s4 photo [] refl refl))
      (commit_batch s5 refl)

run_to_s9 : Reached small true no_text one_file s9
unfolding take_joined tally receive flush_ok
run_to_s9 =
    stepped s8 s9
      (stepped s7 s8 (stepped s6 s7 run_to_s6 (start_none s6 refl (inr refl)))
        (join_none s7 refl refl))
      (recv_none s8 refl refl refl)

s9_returned : s9.writer ≡ Writer.returned
unfolding take_joined tally receive flush_ok receive_end
s9_returned = refl

s9_finished : s9.producer ≡ finished
unfolding receive_end
s9_finished = refl

finished_total_example :
    u64 (s9.counts.observed + s9.counts.unchanged + length s9.errors + s9.counts.skipped) ≡ 1
finished_total_example = finished_total small true no_text one_file s9 run_to_s9 s9_finished

Reached-IsBounded_example : IsBounded small true no_text s9
Reached-IsBounded_example = Reached-IsBounded small true no_text one_file s9 (omega arith) run_to_s9

finished_rows_example :
    ((s9.commit_failure ≡ none) × (concat s9.acknowledged ≡ s9.produced))
    ⊎ ((e : Error) × (s9.commit_failure ≡ some e)
        × ((lost : List FileInfo) × (s9.produced ≡ concat s9.acknowledged ++ s9.rejected ++ lost)))
finished_rows_example = finished_rows small no_text one_file s9 run_to_s9 s9_finished s9_returned

can_step_example :
    ((s5.producer ≡ finished) × (s5.writer ≡ Writer.returned)) ⊎ CanStep small true no_text s5
can_step_example = can_step small true no_text s5 (omega arith)

steps_bounded_example : steps small true no_text run_to_s9 ≤ 12
steps_bounded_example = steps_bounded small true no_text one_file s9 run_to_s9

skipped_after_failure_example :
    (s9.counts.skipped ≡ 0) ⊎ ((e : Error) × (s9.commit_failure ≡ some e))
skipped_after_failure_example =
    skipped_after_failure small true no_text one_file s9 (omega arith) run_to_s9 s9_finished
