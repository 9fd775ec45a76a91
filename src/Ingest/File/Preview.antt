-- ===== src/Ingest/File/Preview.antt =====
-- A file that is processed in a preview.
use anti_entropator.Prelude.Io.{Io, lift, bind_cases}
use anti_entropator.Prelude.{
  ℕ, zero, suc, ◌≡◌, refl, ◌∙◌, false, Option, none, some, Result, Bytes, Text, ascii,
}
use anti_entropator.Ingest.File.{
  on_verdict, attempt, try_file, conclude, FileContext, source_changed_retries, expect,
  prepare_file, process_prepared, process_file,
}
use anti_entropator.Ingest.File.Prepared.{prepare_file_lem}
use anti_entropator.Ingest.Pipeline.{BlobState, existing, IngestOutcome}
use anti_entropator.Ingest.Output.{writes}
use anti_entropator.Ingest.Upload.{
  BlobVerdict, missing, verified, legacy, Sha256, SourceFile, verify_existing,
}
use anti_entropator.Ingest.State.{PathDecision, observe, decide}
use anti_entropator.Scan.{Disk}
use anti_entropator.Scan.Enrichers.{Tools}
use anti_entropator.Scan.ReadOnly.{IsReadOnly}
use anti_entropator.Storage.{Operator}
use anti_entropator.Domain.FileInfo.{FilePath, FileInfo}
use anti_entropator.Domain.ContentHash.{ContentHash, to_object_key}
use anti_entropator.Domain.Observation.{Uuid}

module _ {World Writer V : Type 0} (view : World → V) (tools : Tools World) (disk : Disk World)
    (sha : Sha256) (uuid_v5 : Uuid → Bytes → Uuid) (source_file : FilePath → World → SourceFile)
    (keeps : IsReadOnly view tools disk) (fc : FileContext World Writer) (path : FilePath)
    (preview : writes fc.mode ≡ false) where
  abbrev Kept : World → {A : Type 0} → Result A → World → Type 0
  Kept w r u = view u ≡ view w

  module _ (op : Operator World Writer)
      (stat_keeps : (k : Text) (w : World) → view (op.stat k w).1 ≡ view w) where
    conclude_keeps :
        (info : FileInfo) (blob : BlobState) (d : PathDecision) (w : World)
        → view (conclude tools disk sha uuid_v5 source_file fc op path info blob d w).1 ≡ view w
    conclude_keeps info blob PathDecision.unchanged w = refl
    conclude_keeps info blob observe w = rw preview refl

    verdict_keeps :
        (retry : Option (Io World IngestOutcome)) (info : FileInfo) (h : ContentHash)
        (d : PathDecision) (v : BlobVerdict) (w : World)
        → view (on_verdict tools disk sha uuid_v5 source_file fc op path retry info h d v w).1
          ≡ view w
    verdict_keeps retry info h d verified w = conclude_keeps info existing d w
    verdict_keeps retry info h d legacy w = conclude_keeps info existing d w
    verdict_keeps retry info h d missing w = rw preview (conclude_keeps info BlobState.uploaded d w)

    verify_keeps :
        (h : ContentHash) (n : ℕ) (w : World) → view (verify_existing op h n w).1 ≡ view w
    unfolding verify_existing
    verify_keeps h n w = stat_keeps (to_object_key h) w

    try_file_keeps :
        (retry : Option (Io World IngestOutcome)) (info : FileInfo) (w : World)
        → view (try_file tools disk sha uuid_v5 source_file fc op path retry info w).1 ≡ view w
    unfolding try_file
    try_file_keeps retry info w =
        bind_cases (Kept w) _
          (lift (expect (ascii "prepare_file always sets the content hash") info.content_hash)) w
          (λ e a. refl)
          (λ h a.
            bind_cases (Kept w) _
              (lift
                (expect (ascii "prepare_file always sets the relative path") info.relative_path))
              w (λ e b. refl)
              (λ relative b.
                bind_cases (Kept w)
                  (on_verdict tools disk sha uuid_v5 source_file fc op path retry info h
                    (decide fc.state relative h.value))
                  (verify_existing op h info.size_bytes) w (λ e c. verify_keeps h info.size_bytes w)
                  (λ v c.
                    verdict_keeps retry info h (decide fc.state relative h.value) v
                      (verify_existing op h info.size_bytes w).1
                    ∙ verify_keeps h info.size_bytes w)))

    attempt_keeps :
        (left : ℕ) (info : FileInfo) (w : World)
        → view (attempt tools disk sha uuid_v5 source_file fc op path left info w).1 ≡ view w
    unfolding attempt
    attempt_keeps zero info w = try_file_keeps none info w
    attempt_keeps (suc left) info w = try_file_keeps (some _) info w

  -- The store, where there is one, answers a stat without a change.
  abbrev pub StatsKeep : Option (Operator World Writer) → Type 0
  StatsKeep none = Unit
  StatsKeep (some op) = (k : Text) (w : World) → view (op.stat k w).1 ≡ view w

  processed_keeps :
      (o : Option (Operator World Writer))
      → StatsKeep o
      → (info : FileInfo) (w : World)
      → view (process_prepared tools disk sha uuid_v5 source_file fc o path info w).1 ≡ view w
  processed_keeps none h info w = refl
  processed_keeps (some op) h info w = attempt_keeps op h source_changed_retries info w

  -- In a mode that does not write, with a store or without, a file is processed without any change
  -- of what scanning and the store's stat leave alone, such as the objects of the store, on every
  -- outcome.
  pub process_file_keeps :
      (w : World)
      → StatsKeep fc.operator
      → view (process_file tools disk sha uuid_v5 source_file fc path w).1 ≡ view w
  unfolding process_file
  process_file_keeps w h =
      let kept : view (prepare_file tools disk sha uuid_v5 source_file fc path w).1 ≡ view w =
        (prepare_file_lem view tools disk sha uuid_v5 source_file keeps fc path w).1 in
      bind_cases (Kept w) (process_prepared tools disk sha uuid_v5 source_file fc fc.operator path)
        (prepare_file tools disk sha uuid_v5 source_file fc path) w (λ e a. kept)
        (λ info a.
          processed_keeps fc.operator h info
            (prepare_file tools disk sha uuid_v5 source_file fc path w).1
          ∙ kept)
