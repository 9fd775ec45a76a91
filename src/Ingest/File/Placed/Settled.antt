-- ===== src/Ingest/File/Placed/Settled.antt =====
-- What a verdict on the blob of a file, and the upload it asks for, leave in the store.
use anti_entropator.Prelude.Io.{Io}
use anti_entropator.Prelude.{
  ℕ, ◌≡◌, refl, ap, ◌∙◌, inl, inr, true, Option, none, some, Error, Result, ok, err,
  is_source_changed, Bool-cases, Bytes, Text,
}
use anti_entropator.Ingest.File.{
  on_upload, stamp_ingested, retry_or, on_verdict, conclude, FileContext, relative_to,
}
use anti_entropator.Ingest.File.Prepared.{IsPrepared}
use anti_entropator.Ingest.Pipeline.{BlobState, existing, IngestOutcome, observed}
use anti_entropator.Ingest.Output.{writes}
use anti_entropator.Ingest.Upload.{
  UploadOutcome, already_exists, BlobVerdict, missing, verified, legacy, Sha256, SourceFile,
  upload_verified,
}
use anti_entropator.Ingest.Upload.Streaming.{IsStreaming}
use anti_entropator.Ingest.Upload.Effect.{upload_verified_lem, Outcome, digest, read_blob, IsPlaced}
use anti_entropator.Ingest.Upload.Addressed.{
  upload_verified-IsAddressed, kept-IsAddressed, IsRight, IsAddressed,
}
use anti_entropator.Ingest.State.{KnownPath, PathDecision, observe, known_path, decide}
use anti_entropator.Ingest.State.Decision.{decide_known-unchanged}
use anti_entropator.Scan.{Disk}
use anti_entropator.Scan.Enrichers.{Tools}
use anti_entropator.Scan.ReadOnly.{IsReadOnly}
use anti_entropator.Storage.{Object, Operator, IsObjectStore}
use anti_entropator.Domain.FileInfo.{FilePath, FileInfo}
use anti_entropator.Domain.RelativePath.{normalize_relative_path}
use anti_entropator.Domain.ContentHash.{ContentHash, to_object_key, to_lower_hex}
use anti_entropator.Domain.Observation.{Uuid}

module _ {World Writer : Type 0} (tools : Tools World) (disk : Disk World) (sha : Sha256)
    (uuid_v5 : Uuid → Bytes → Uuid) (source_file : FilePath → World → SourceFile)
    (op : Operator World Writer) (laws : IsObjectStore op) (hashing : IsStreaming sha)
    (keeps : IsReadOnly laws.object tools disk) (fc : FileContext World Writer)
    (path : FilePath) where
  open laws use {object}

  -- The key of the hash holds an object of content with that hash.
  abbrev pub Holds : ContentHash → World → Type 0
  Holds h w =
      (o : Object) × (object w (to_object_key h) ≡ some o)
      × (to_lower_hex (digest sha o.content) ≡ h.value)

  -- The content that the outcome stands for, as a new row or as the known row of the path, is in the
  -- store.
  abbrev pub IsBacked : Result IngestOutcome → World → Type 0
  IsBacked (err e) w = Unit
  IsBacked (ok (observed info blob)) w =
      (h : ContentHash) × (info.content_hash ≡ some h) × Holds h w
  IsBacked (ok (IngestOutcome.unchanged blob)) w =
      (h : ContentHash) × (path_text : Text) × (k : KnownPath) × (normalize_relative_path
          tools.to_string_lossy (relative_to fc.root path)
        ≡ ok path_text)
      × (known_path fc.state path_text ≡ some k)
      × (k.content_hash ≡ h.value)
      × Holds h w

  abbrev pub Post : Result IngestOutcome → World → Type 0
  Post r w = IsAddressed op sha laws w × IsBacked r w

  Holds-kept : (h : ContentHash) (w w' : World) → object w' ≡ object w → Holds h w → Holds h w'
  Holds-kept h w w' e (o, at, hashes) =
      (o, ap (λ (f : Text → Option Object). f (to_object_key h)) e ∙ at, hashes)

  pub IsAddressed-kept :
      (w w' : World) → object w' ≡ object w → IsAddressed op sha laws w → IsAddressed op sha laws w'
  IsAddressed-kept w w' e inv =
      kept-IsAddressed op sha laws w w' (λ k. ap (λ (f : Text → Option Object). f k) e) inv

  placed-Holds :
      (h : ContentHash) (n : ℕ) (file : SourceFile) (w w' : World)
      → IsPlaced op sha laws hashing file h n w w'
      → Holds h w'
  placed-Holds h n file w w' p = (read_blob op sha laws hashing file h n, p.placed.at_key, p.hashes)

  module _ (writing : writes fc.mode ≡ true) where
    stamped-Post :
        (info : FileInfo) (blob : BlobState) (h : ContentHash) (w : World)
        → info.content_hash ≡ some h
        → IsAddressed op sha laws w
        → Holds h w
        → Post
            (stamp_ingested tools disk sha uuid_v5 source_file fc op path info blob w).0
            (stamp_ingested tools disk sha uuid_v5 source_file fc op path info blob w).1
    stamped-Post info blob h w e inv held = rw writing (
      IsAddressed-kept w (disk.now w).1 (keeps.now_keeps w) inv,
      (h, e, Holds-kept h w (disk.now w).1 (keeps.now_keeps w) held),
    )

    conclude-Post :
        (info : FileInfo) (blob : BlobState) (p : IsPrepared tools disk sha uuid_v5 fc path info)
        (w : World)
        → IsAddressed op sha laws w
        → Holds p.hash w
        → (d : PathDecision) → decide fc.state p.normal p.hash.value ≡ d
        → Post
            (conclude tools disk sha uuid_v5 source_file fc op path info blob d w).0
            (conclude tools disk sha uuid_v5 source_file fc op path info blob d w).1
    unfolding decide
    conclude-Post info blob p w inv held observe e =
        stamped-Post info blob p.hash w p.has_hash inv held
    conclude-Post info blob p w inv held PathDecision.unchanged e =
        let (k, known, same) =
          decide_known-unchanged (known_path fc.state p.normal) p.hash.value e in
        (inv, (p.hash, p.normal, k, p.normalizes, known, same, held))

    -- A retry that keeps the invariant and backs its outcome.
    abbrev pub IsGoodRetry : Option (Io World IngestOutcome) → Type 0
    IsGoodRetry none = Unit
    IsGoodRetry (some m) = (w : World) → IsAddressed op sha laws w → Post (m w).0 (m w).1

    retry-Post :
        (retry : Option (Io World IngestOutcome)) (e : Error) (w : World)
        → IsGoodRetry retry
        → IsAddressed op sha laws w
        → Post
            (retry_or tools disk sha uuid_v5 source_file fc op path retry e w).0
            (retry_or tools disk sha uuid_v5 source_file fc op path retry e w).1
    retry-Post none e w good inv = (inv, tt)
    retry-Post (some m) e w good inv = elim (Bool-cases (is_source_changed e)) [
      | inl c ↦ rw c (good w inv)
      | inr c ↦ rw c (inv, tt)
    ]

    uploaded-Post :
        (retry : Option (Io World IngestOutcome)) (info : FileInfo)
        (p : IsPrepared tools disk sha uuid_v5 fc path info) (w w' : World)
        → IsGoodRetry retry
        → IsAddressed op sha laws w
        → IsAddressed op sha laws w'
        → (r : Result UploadOutcome)
        → Outcome op sha laws hashing (source_file path w) p.hash info.size_bytes r w w'
        → let d : PathDecision = decide fc.state p.normal p.hash.value in
          Post
            (on_upload tools disk sha uuid_v5 source_file fc op path retry info d r w').0
            (on_upload tools disk sha uuid_v5 source_file fc op path retry info d r w').1
    uploaded-Post retry info p w w' good before inv (ok (UploadOutcome.uploaded n)) u =
        conclude-Post info BlobState.uploaded p w' inv
          (placed-Holds p.hash info.size_bytes (source_file path w) w w' u.1) _ refl
    uploaded-Post retry info p w w' good before inv (ok already_exists) (same, (o, at)) =
        conclude-Post info existing p w' inv (o, at, (inv p.hash o at).content_hashes) _ refl
    uploaded-Post retry info p w w' good before inv (err e) u = retry-Post retry e w' good inv

    -- A verdict stays right while no object is touched.
    pub IsRight-after :
        (h : ContentHash) (n : ℕ) (w v : World)
        → ((k : Text) → object v k ≡ object w k)
        → (verdict : BlobVerdict) → IsRight op sha laws h n w (ok verdict)
        → IsRight op sha laws h n v (ok verdict)
    IsRight-after h n w v same missing absent = same (to_object_key h) ∙ absent
    IsRight-after h n w v same verified (o, at, hashes, n_e) =
        (o, same (to_object_key h) ∙ at, hashes, n_e)
    IsRight-after h n w v same legacy (o, at, hashes, n_e) =
        (o, same (to_object_key h) ∙ at, hashes, n_e)

    pub verdict-Post :
        (retry : Option (Io World IngestOutcome)) (info : FileInfo)
        (p : IsPrepared tools disk sha uuid_v5 fc path info) (w : World)
        → IsGoodRetry retry
        → IsAddressed op sha laws w
        → (v : BlobVerdict) → IsRight op sha laws p.hash info.size_bytes w (ok v)
        → let d : PathDecision = decide fc.state p.normal p.hash.value in
          Post
            (on_verdict tools disk sha uuid_v5 source_file fc op path retry info p.hash d v w).0
            (on_verdict tools disk sha uuid_v5 source_file fc op path retry info p.hash d v w).1
    verdict-Post retry info p w good inv verified (o, at, hashes, n) =
        conclude-Post info existing p w inv (o, at, hashes) _ refl
    verdict-Post retry info p w good inv legacy (o, at, hashes, n) =
        conclude-Post info existing p w inv (o, at, hashes) _ refl
    verdict-Post retry info p w good inv missing absent =
        let file : SourceFile = source_file path w in
        rw writing (
          uploaded-Post retry info p w (upload_verified op sha file p.hash info.size_bytes w).1 good
            inv (upload_verified-IsAddressed op sha laws hashing file p.hash info.size_bytes w inv)
            (upload_verified op sha file p.hash info.size_bytes w).0
            (upload_verified_lem op sha laws hashing file p.hash info.size_bytes w))
