-- ===== src/Scan/Hashed.antt =====
-- Where the content hash that a scan records comes from.
use anti_entropator.Prelude.Io.{bind_cases, with_context_io}
use anti_entropator.Prelude.{
  ℕ, ◌≡◌, refl, Bool, true, false, Option, none, some, Result, ok, err, Text, ascii,
}
use anti_entropator.Scan.{
  Metadata, Disk, get_suggested_name, ok_of, apply, hash_if, blocking_io, fresh_info, describe_file,
  scan_rest, scan_file,
}
use anti_entropator.Scan.Enrichers.{Tools}
use anti_entropator.Domain.FileInfo.{
  FilePath, FileInfo, new, with_mime_type, with_partial_hash, with_content_hash,
  with_suggested_name,
}
use anti_entropator.Domain.ContentHash.{ContentHash}
use anti_entropator.Ingest.Upload.{Sha256}
use anti_entropator.FileHash.{full_sha256}

module _ {World : Type 0} (tools : Tools World) (disk : Disk World) (sha : Sha256)
    (path : FilePath) where
  -- A text is the hash of the whole file as it was opened at some time.
  abbrev OwnText : Option Text → Type 0
  OwnText none = Unit
  OwnText (some t) = (v : World) × (full_sha256 sha (disk.open_file path v).0 ≡ ok t)

  abbrev pub OwnHash : Option ContentHash → Type 0
  OwnHash none = Unit
  OwnHash (some h) = (v : World) × (full_sha256 sha (disk.open_file path v).0 ≡ ok h.value)

  read_text :
      (w : World) (r : Result Text)
      → full_sha256 sha (disk.open_file path w).0 ≡ r
      → OwnText (ok_of r)
  read_text w (ok t) e = (w, e)
  read_text w (err x) e = tt

  hash_if-OwnText :
      (b : Bool) (w : World) → OwnText (hash_if tools disk sha b (full_sha256 sha) path w).0
  hash_if-OwnText false w = tt
  hash_if-OwnText true w = read_text w (full_sha256 sha (disk.open_file path w).0) refl

  blocking_io-OwnText :
      (size : ℕ) (w : World) → OwnText (blocking_io tools disk sha path size w).0.2
  unfolding blocking_io
  blocking_io-OwnText size w = hash_if-OwnText _ _

  described :
      (info : FileInfo) (mime partial full : Option Text)
      → OwnText full
      → info.content_hash ≡ none
      → OwnHash (describe_file tools disk sha info (mime, partial, full)).content_hash
  unfolding describe_file with_content_hash with_partial_hash with_mime_type
  described info mime partial (some t) own e = own
  described info none none none own e = rw e tt
  described info none (some p) none own e = rw e tt
  described info (some m) none none own e = rw e tt
  described info (some m) (some p) none own e = rw e tt

  named :
      (name : Option (Text × Text)) (info : FileInfo)
      → OwnHash info.content_hash
      → OwnHash (apply name (λ i n. with_suggested_name i n.0 n.1) info).content_hash
  unfolding with_suggested_name
  named none info own = own
  named (some n) info own = own

  abbrev OwnResult : Result FileInfo → Type 0
  OwnResult (ok info) = OwnHash info.content_hash
  OwnResult (err e) = Unit

  fresh_info-hash :
      (m : Metadata) (w : World) → (fresh_info tools disk sha path m w).0.content_hash ≡ none
  unfolding new
  fresh_info-hash m w = refl

  scan_rest-OwnHash : (m : Metadata) (w : World) → OwnResult (scan_rest tools disk sha path m w).0
  unfolding get_suggested_name
  scan_rest-OwnHash m w =
      let (info, w1) = fresh_info tools disk sha path m w in
      let (found, w2) = blocking_io tools disk sha path m.len w1 in
      bind_cases (λ r u. OwnResult r) _
        (with_context_io (ascii "Blocking I/O task panicked") disk.join_blocking) w2 (λ e h. tt)
        (λ u h.
          named
            (get_suggested_name tools disk sha path (describe_file tools disk sha info found)
              (disk.join_blocking w2).1).0
            (describe_file tools disk sha info found)
            (described info found.0 found.1 found.2 (blocking_io-OwnText m.len w1)
              (fresh_info-hash m w)))

  scan_file-OwnResult : (w : World) → OwnResult (scan_file tools disk sha path w).0
  unfolding scan_file
  scan_file-OwnResult w =
      bind_cases (λ r u. OwnResult r) (scan_rest tools disk sha path)
        (with_context_io (ascii "Failed to read file metadata") (disk.metadata path)) w (λ e h. tt)
        (λ m h. scan_rest-OwnHash m (disk.metadata path w).1)

  pub scan_file-OwnHash :
      (w : World) (info : FileInfo)
      → (scan_file tools disk sha path w).0 ≡ ok info
      → OwnHash info.content_hash
  scan_file-OwnHash w info e =
      let own : OwnResult (ok info) = rw e at (scan_file-OwnResult w) in own
