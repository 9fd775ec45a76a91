-- ===== src/Ingest/File/Prepared.antt =====
-- What a prepared row says of its file.
use anti_entropator.Prelude.Io.{Io, lift, bind_cases, with_context_io}
use anti_entropator.Prelude.{
  ◌≡◌, refl, sym, ap, ◌∙◌, Option, none, some, Result, ok, err, Bytes, Text, ascii,
}
use anti_entropator.Ingest.File.{
  FileContext, relative_to, object_uri, ensure_hash, observed_info, prepare_file,
}
use anti_entropator.Scan.{Disk, scan_file}
use anti_entropator.Scan.Enrichers.{Tools}
use anti_entropator.Scan.Hashed.{OwnHash, scan_file-OwnHash}
use anti_entropator.Scan.ReadOnly.{IsReadOnly, scan_file_keeps}
use anti_entropator.FileHash.{full_sha256}
use anti_entropator.Ingest.Upload.{Sha256, SourceFile}
use anti_entropator.Domain.FileInfo.{FilePath, Timestamp, FileInfo, with_observation}
use anti_entropator.Domain.RelativePath.{normalize_relative_path}
use anti_entropator.Domain.ContentHash.{ContentHash}
use anti_entropator.Domain.Observation.{present, Uuid, observation_id}

-- The row has the normal form of the path below the root, the hash of the whole file at the path, as
-- it was opened at some time, with its key, and the identifier that belongs to the path and the content.
pub record IsPrepared {World Writer : Type 0} (tools : Tools World) (disk : Disk World)
    (sha : Sha256) (uuid_v5 : Uuid → Bytes → Uuid) (fc : FileContext World Writer) (path : FilePath)
    (info : FileInfo) : Type 0 where
  pub normal : Text
  pub hash : ContentHash
  pub normalizes :
      normalize_relative_path tools.to_string_lossy (relative_to fc.root path) ≡ ok normal
  pub has_path : info.relative_path ≡ some normal
  pub has_hash : info.content_hash ≡ some hash
  pub read_in : World
  pub of_content : full_sha256 sha (disk.open_file path read_in).0 ≡ ok hash.value
  pub has_uri : info.object_uri ≡ some (object_uri fc.bucket hash)
  pub has_id : info.id ≡ observation_id uuid_v5 fc.run.source_id normal (some hash.value) present
  pub has_source : info.source_id ≡ some fc.run.source_id
  pub has_run : info.run_id ≡ some fc.run.run_id
  pub has_status : info.observation_status ≡ some present

module _ {World Writer V : Type 0} (view : World → V) (tools : Tools World) (disk : Disk World)
    (sha : Sha256) (uuid_v5 : Uuid → Bytes → Uuid) (source_file : FilePath → World → SourceFile)
    (keeps : IsReadOnly view tools disk) (fc : FileContext World Writer) (path : FilePath) where
  abbrev pub Prepares : Result FileInfo → Type 0
  Prepares (err e) = Unit
  Prepares (ok info) = IsPrepared tools disk sha uuid_v5 fc path info

  observed-IsPrepared :
      (relative_path : Text) (h : ContentHash) (now : Timestamp) (info : FileInfo)
      → normalize_relative_path tools.to_string_lossy (relative_to fc.root path) ≡ ok relative_path
      → (v : World) × (full_sha256 sha (disk.open_file path v).0 ≡ ok h.value)
      → IsPrepared tools disk sha uuid_v5 fc path
          (observed_info tools disk sha uuid_v5 source_file fc relative_path h now info)
  unfolding observed_info with_observation
  observed-IsPrepared relative_path h now info e (v, content) = record {
    normal = relative_path;
    hash = h;
    normalizes = e;
    has_path = refl;
    has_hash = refl;
    read_in = v;
    of_content = content;
    has_uri = refl;
    has_id = refl;
    has_source = refl;
    has_run = refl;
    has_status = refl;
  }

  ensure_hash_keeps :
      (o : Option ContentHash) (w : World) → view (ensure_hash disk sha path o w).1 ≡ view w
  ensure_hash_keeps (some h) w = refl
  ensure_hash_keeps none w =
      let (file, w1) = disk.open_file path w in
      let joined : view (disk.join_blocking w1).1 ≡ view w =
        keeps.join_keeps w1 ∙ keeps.open_keeps path w in
      bind_cases (λ r u. view u ≡ view w) _
        (with_context_io (ascii "Blocking hash task panicked") disk.join_blocking) w1
        (λ e h. joined)
        (λ u h.
          bind_cases (λ r u. view u ≡ view w) _ (lift (full_sha256 sha file))
            (disk.join_blocking w1).1 (λ e g. joined) (λ v g. joined))

  hashed_keeps :
      (o : Option ContentHash) (w : World)
      → view (ensure_hash disk sha path o (scan_file tools disk sha path w).1).1 ≡ view w
  hashed_keeps o w =
      ensure_hash_keeps o (scan_file tools disk sha path w).1
      ∙ scan_file_keeps view tools disk sha keeps path w

  -- The hash of the scan, or the one that is computed now, is that of the file at some time.
  ensure_hash-IsOwn :
      (o : Option ContentHash) (w : World)
      → OwnHash tools disk sha path o
      → (hash : ContentHash) → (ensure_hash disk sha path o w).0 ≡ ok hash
      → (v : World) × (full_sha256 sha (disk.open_file path v).0 ≡ ok hash.value)
  ensure_hash-IsOwn (some h) w (v, own) hash e = let same : h ≡ hash = cc in (v, rw (sym same) own)
  ensure_hash-IsOwn none w own hash e =
      let (file, w1) = disk.open_file path w in
      bind_cases
        (λ r u.
          r ≡ ok hash → (v : World) × (full_sha256 sha (disk.open_file path v).0 ≡ ok hash.value))
        _ (with_context_io (ascii "Blocking hash task panicked") disk.join_blocking) w1
        (λ e h c. cc)
        (λ u h.
          bind_cases
            (λ r u.
              r ≡ ok hash
              → (v : World) × (full_sha256 sha (disk.open_file path v).0 ≡ ok hash.value))
            _ (lift (full_sha256 sha file)) (disk.join_blocking w1).1 (λ e g c. cc)
            (λ value g c.
              let back : record { value = value } ≡ hash = cc in
              let same : value ≡ hash.value = ap (λ (x : ContentHash). x.value) back in
              (w, g ∙ ap (λ (t : Text). ok t) same)))
        e

  ensured :
      (info : FileInfo) (w : World)
      → (scan_file tools disk sha path w).0 ≡ ok info
      → (hash : ContentHash)
      → (ensure_hash disk sha path info.content_hash (scan_file tools disk sha path w).1).0
        ≡ ok hash
      → (v : World) × (full_sha256 sha (disk.open_file path v).0 ≡ ok hash.value)
  ensured info w scanned hash e =
      ensure_hash-IsOwn info.content_hash (scan_file tools disk sha path w).1
        (scan_file-OwnHash tools disk sha path w info scanned) hash e

  -- Where a file is prepared, its row has the normal form of its path, the hash that `full_sha256`
  -- returns for the file at the path as it was opened at some time, the key of that hash, the run and
  -- the source, and the identifier of the observation. On every outcome,
  -- preparing leaves what reading files, taking the time and running tools leave.
  pub prepare_file_lem :
      (w : World)
      → Prepares (prepare_file tools disk sha uuid_v5 source_file fc path w).0
        × (view (prepare_file tools disk sha uuid_v5 source_file fc path w).1 ≡ view w)
  unfolding prepare_file
  prepare_file_lem w =
      let scanned : Io World FileInfo = scan_file tools disk sha path in
      bind_cases (λ r u. Prepares r × (view u ≡ view w)) _ scanned w
        (λ e h. (tt, scan_file_keeps view tools disk sha keeps path w))
        (λ info h.
          bind_cases (λ r u. Prepares r × (view u ≡ view w)) _
            (lift (normalize_relative_path tools.to_string_lossy (relative_to fc.root path)))
            (scanned w).1 (λ e g. (tt, scan_file_keeps view tools disk sha keeps path w))
            (λ relative g.
              bind_cases (λ r u. Prepares r × (view u ≡ view w)) _
                (ensure_hash disk sha path info.content_hash) (scanned w).1
                (λ e k. (tt, hashed_keeps info.content_hash w))
                (λ hash k. (
                  observed-IsPrepared relative hash _ _ g (ensured info w h hash k),
                  keeps.now_keeps (ensure_hash disk sha path info.content_hash (scanned w).1).1
                      ∙ hashed_keeps info.content_hash w,
                ))))
