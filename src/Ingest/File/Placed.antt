-- ===== src/Ingest/File/Placed.antt =====
-- What a processed file leaves in the store.
pub mod Settled
pub use anti_entropator.Ingest.File.Placed.Settled.{Holds, IsBacked}
use anti_entropator.Prelude.Io.{Io, lift, bind_cases, ◌>>=◌}
use anti_entropator.Prelude.{ℕ, zero, suc, ◌≡◌, true, Option, none, some, ok, Bytes, Text, ascii}
use anti_entropator.Ingest.File.{
  on_verdict, attempt, try_file, FileContext, source_changed_retries, expect, prepare_file,
  process_prepared, process_file,
}
use anti_entropator.Ingest.File.Prepared.{IsPrepared, prepare_file_lem}
use anti_entropator.Ingest.Pipeline.{IngestOutcome}
use anti_entropator.Ingest.Output.{writes}
use anti_entropator.Ingest.Upload.{Sha256, SourceFile, verify_existing}
use anti_entropator.Ingest.Upload.Streaming.{IsStreaming}
use anti_entropator.Ingest.Upload.Addressed.{verify_existing_lem, kept-IsAddressed, IsAddressed}
use anti_entropator.Ingest.State.{decide}
use anti_entropator.Scan.{Disk}
use anti_entropator.Scan.Enrichers.{Tools}
use anti_entropator.Scan.ReadOnly.{IsReadOnly}
use anti_entropator.Storage.{Operator, IsObjectStore}
use anti_entropator.Domain.FileInfo.{FilePath, FileInfo}
use anti_entropator.Domain.Observation.{Uuid}
use anti_entropator.Ingest.File.Placed.Settled.{
  Post, IsAddressed-kept, IsGoodRetry, verdict-Post, IsRight-after,
}

module _ {World Writer : Type 0} (tools : Tools World) (disk : Disk World) (sha : Sha256)
    (uuid_v5 : Uuid → Bytes → Uuid) (source_file : FilePath → World → SourceFile)
    (op : Operator World Writer) (laws : IsObjectStore op) (hashing : IsStreaming sha)
    (keeps : IsReadOnly laws.object tools disk) (fc : FileContext World Writer)
    (path : FilePath) where
  open laws use {object}

  module _ (writing : writes fc.mode ≡ true) where
    expected :
        {A : Type 0} (t : Text) (o : Option A) {a b : A} → o ≡ some b → expect t o ≡ ok a → a ≡ b
    expected t none e h = cc
    expected t (some c) e h = cc

    verified_round :
        (retry : Option (Io World IngestOutcome)) (info : FileInfo)
        (p : IsPrepared tools disk sha uuid_v5 fc path info)
        → IsGoodRetry tools disk sha uuid_v5 source_file op laws hashing keeps fc path writing retry
        → (w : World) → IsAddressed op sha laws w
        → let m : Io World IngestOutcome =
            verify_existing op p.hash info.size_bytes
            >>= on_verdict tools disk sha uuid_v5 source_file fc op path retry info p.hash
                (decide fc.state p.normal p.hash.value) in
          Post tools disk sha uuid_v5 source_file op laws hashing keeps fc path (m w).0 (m w).1
    verified_round retry info p good w inv =
        let (right, same) = verify_existing_lem op sha laws p.hash info.size_bytes w inv in
        let v : World = (verify_existing op p.hash info.size_bytes w).1 in
        let inv_v : IsAddressed op sha laws v = kept-IsAddressed op sha laws w v same inv in
        bind_cases (Post tools disk sha uuid_v5 source_file op laws hashing keeps fc path)
          (on_verdict tools disk sha uuid_v5 source_file fc op path retry info p.hash
            (decide fc.state p.normal p.hash.value))
          (verify_existing op p.hash info.size_bytes) w (λ e h. (inv_v, tt))
          (λ verdict h.
            verdict-Post tools disk sha uuid_v5 source_file op laws hashing keeps fc path writing
              retry info p v good inv_v verdict
              (IsRight-after tools disk sha uuid_v5 source_file op laws hashing keeps fc path
                writing p.hash info.size_bytes w v same verdict (rw h at right)))

    prepared-Post :
        (next : FileInfo → Io World IngestOutcome)
        → ((info : FileInfo)
            → IsPrepared tools disk sha uuid_v5 fc path info
            → (w : World) → IsAddressed op sha laws w
            → Post tools disk sha uuid_v5 source_file op laws hashing keeps fc path
                (next info w).0
                (next info w).1)
        → (w : World) → IsAddressed op sha laws w
        → let m : Io World IngestOutcome =
            prepare_file tools disk sha uuid_v5 source_file fc path >>= next in
          Post tools disk sha uuid_v5 source_file op laws hashing keeps fc path (m w).0 (m w).1
    prepared-Post next good w inv =
        let (made, same) =
          prepare_file_lem object tools disk sha uuid_v5 source_file keeps fc path w in
        let v : World = (prepare_file tools disk sha uuid_v5 source_file fc path w).1 in
        let inv_v : IsAddressed op sha laws v =
          IsAddressed-kept tools disk sha uuid_v5 source_file op laws hashing keeps fc path w v same
            inv in
        bind_cases (Post tools disk sha uuid_v5 source_file op laws hashing keeps fc path) next
          (prepare_file tools disk sha uuid_v5 source_file fc path) w (λ e h. (inv_v, tt))
          (λ info h.
            let p : IsPrepared tools disk sha uuid_v5 fc path info = rw h at made in
            good info p v inv_v)

    try_file-Post :
        (retry : Option (Io World IngestOutcome)) (info : FileInfo)
        → IsPrepared tools disk sha uuid_v5 fc path info
        → IsGoodRetry tools disk sha uuid_v5 source_file op laws hashing keeps fc path writing retry
        → (w : World) → IsAddressed op sha laws w
        → Post tools disk sha uuid_v5 source_file op laws hashing keeps fc path
            (try_file tools disk sha uuid_v5 source_file fc op path retry info w).0
            (try_file tools disk sha uuid_v5 source_file fc op path retry info w).1
    unfolding try_file
    try_file-Post retry info p good w inv =
        bind_cases (Post tools disk sha uuid_v5 source_file op laws hashing keeps fc path) _
          (lift (expect (ascii "prepare_file always sets the content hash") info.content_hash)) w
          (λ e h. (inv, tt))
          (λ hash h.
            bind_cases (Post tools disk sha uuid_v5 source_file op laws hashing keeps fc path) _
              (lift
                (expect (ascii "prepare_file always sets the relative path") info.relative_path))
              w (λ e g. (inv, tt))
              (λ relative g.
                rw
                  (
                    expected _ info.content_hash p.has_hash h,
                    expected _ info.relative_path p.has_path g,
                  )
                  (verified_round retry info p good w inv)))

    attempt-Post :
        (left : ℕ) (info : FileInfo)
        → IsPrepared tools disk sha uuid_v5 fc path info
        → (w : World) → IsAddressed op sha laws w
        → Post tools disk sha uuid_v5 source_file op laws hashing keeps fc path
            (attempt tools disk sha uuid_v5 source_file fc op path left info w).0
            (attempt tools disk sha uuid_v5 source_file fc op path left info w).1
    unfolding attempt
    attempt-Post zero info p w inv = try_file-Post none info p tt w inv
    attempt-Post (suc left) info p w inv =
        try_file-Post
          (some (
            prepare_file tools disk sha uuid_v5 source_file fc path
            >>= attempt tools disk sha uuid_v5 source_file fc op path left))
          info p
          (λ v inv_v.
            prepared-Post (attempt tools disk sha uuid_v5 source_file fc op path left)
              (attempt-Post left) v inv_v)
          w inv

    connected_cases :
        (o : Option (Operator World Writer))
        → o ≡ some op
        → (w : World) → IsAddressed op sha laws w
        → let m : Io World IngestOutcome =
            prepare_file tools disk sha uuid_v5 source_file fc path
            >>= process_prepared tools disk sha uuid_v5 source_file fc o path in
          Post tools disk sha uuid_v5 source_file op laws hashing keeps fc path (m w).0 (m w).1
    connected_cases none e w inv = cc
    connected_cases (some other) e w inv =
        let same : other ≡ op = cc in
        rw same (
          prepared-Post
            (attempt tools disk sha uuid_v5 source_file fc op path source_changed_retries)
            (attempt-Post source_changed_retries) w inv)

    -- Over a store, a hash function and a file system that keep their documented laws, in an ingest
    -- that writes: if every object under the key of a hash has content of that hash, and metadata
    -- that does not contradict it, then so it is after a file has been processed, on every outcome.
    -- If the file is a new row, the row has a hash, and if it is unchanged, the known row of its
    -- normal path has one, and in either case the key of that hash holds content of that hash.
    pub process_file-IsBacked :
        (w : World)
        → fc.operator ≡ some op
        → IsAddressed op sha laws w
        → IsAddressed op sha laws (process_file tools disk sha uuid_v5 source_file fc path w).1
          × IsBacked tools disk sha uuid_v5 source_file op laws hashing keeps fc path
              (process_file tools disk sha uuid_v5 source_file fc path w).0
              (process_file tools disk sha uuid_v5 source_file fc path w).1
    unfolding process_file
    process_file-IsBacked w connected inv = connected_cases fc.operator connected w inv
