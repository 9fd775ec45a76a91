-- ===== src/Ingest/Upload/Sample.antt =====
-- The identity in the place of SHA-256, for concrete runs.
use mathlib.Core.List.{append_assoc, append-nil}
use anti_entropator.Prelude.{[], ◌++◌, Bytes}
use anti_entropator.Ingest.Upload.{Sha256}
use anti_entropator.Ingest.Upload.Streaming.{IsStreaming}

abbrev pub plain_sha : Sha256
plain_sha = record { Hasher = Bytes; start = []; update = λ h b. h ++ b; finalize = λ h. h }

pub plain_sha-IsStreaming : IsStreaming plain_sha
plain_sha-IsStreaming = record {
  absorbs_nothing = λ h. append-nil h;
  absorbs = λ h b c. append_assoc h b c;
}
