-- ===== src/Domain/FileInfo.antt =====
-- src/domain/file_info.rs: one scanned file, and the catalog row made of it. A path is its bytes; a
-- timestamp counts the smallest unit of `chrono` from the first instant it can represent.
use anti_entropator.Prelude.{ℕ, Bool, true, false, Option, none, some, [], Bytes, Text}
use anti_entropator.Domain.Observation.{ObservationStatus, Uuid, observation_id}
use anti_entropator.Domain.ContentHash.{ContentHash, PartialHash}
use anti_entropator.Domain.Category.{FileCategory, classify}

abbrev pub FilePath : Type 0
FilePath = Bytes

abbrev pub Timestamp : Type 0
Timestamp = ℕ

pub record FileInfo : Type 0 where
  pub id : Uuid
  pub source_path : FilePath
  pub filename : Text
  pub extension : Text
  pub mime_type : Option Text
  pub category : FileCategory
  pub size_bytes : ℕ  -- u64
  pub content_hash : Option ContentHash
  pub partial_hash : Option PartialHash
  pub created_at : Option Timestamp
  pub modified_at : Option Timestamp
  pub scanned_at : Timestamp
  pub object_uri : Option Text
  pub ingested_at : Option Timestamp
  pub suggested_name : Option Text
  pub name_reason : Option Text
  pub is_duplicate : Bool
  pub duplicate_of : Option Uuid
  pub parent_dir : Text
  pub group_id : Option Uuid
  pub source_id : Option Text
  pub relative_path : Option Text
  pub run_id : Option Uuid
  pub observation_status : Option ObservationStatus
  pub observed_at : Option Timestamp

module _ (to_lowercase : Text → Text) where
  -- `FileInfo::new`; the random identifier and the clock's reading are arguments.
  unfoldable pub new :
      (fresh_id : Uuid) (now : Timestamp)
      → FilePath
      → Text
      → Text
      → ℕ
      → Option Timestamp
      → Option Timestamp
      → FileInfo
  new fresh_id now source_path filename extension size_bytes modified_at created_at = record {
    id = fresh_id;
    source_path = source_path;
    filename = filename;
    extension = extension;
    mime_type = none;
    category = classify to_lowercase extension none;
    size_bytes = size_bytes;
    content_hash = none;
    partial_hash = none;
    created_at = created_at;
    modified_at = modified_at;
    scanned_at = now;
    object_uri = none;
    ingested_at = none;
    suggested_name = none;
    name_reason = none;
    is_duplicate = false;
    duplicate_of = none;
    parent_dir = [];
    group_id = none;
    source_id = none;
    relative_path = none;
    run_id = none;
    observation_status = none;
    observed_at = none;
  }

  unfoldable pub with_mime_type : FileInfo → Text → FileInfo
  with_mime_type f mime = record f {
    category = classify to_lowercase f.extension (some mime);
    mime_type = some mime;
  }

abbrev pub hash_text : Option ContentHash → Option Text
hash_text none = none
hash_text (some h) = some h.value

unfoldable pub with_observation :
    (uuid_v5 : Uuid → Bytes → Uuid)
    → FileInfo
    → Text
    → Text
    → Uuid
    → ObservationStatus
    → Timestamp
    → FileInfo
with_observation uuid_v5 f source_id relative_path run_id status observed_at = record f {
  id = observation_id uuid_v5 source_id relative_path (hash_text f.content_hash) status;
  source_id = some source_id;
  relative_path = some relative_path;
  run_id = some run_id;
  observation_status = some status;
  observed_at = some observed_at;
}

unfoldable pub with_parent_dir : FileInfo → Text → FileInfo
with_parent_dir f dir = record f { parent_dir = dir }

unfoldable pub with_group_id : FileInfo → Uuid → FileInfo
with_group_id f id = record f { group_id = some id }

unfoldable pub with_content_hash : FileInfo → ContentHash → FileInfo
with_content_hash f hash = record f { content_hash = some hash }

unfoldable pub with_partial_hash : FileInfo → PartialHash → FileInfo
with_partial_hash f hash = record f { partial_hash = some hash }

unfoldable pub mark_as_duplicate : FileInfo → Uuid → FileInfo
mark_as_duplicate f original_id = record f { is_duplicate = true; duplicate_of = some original_id }

unfoldable pub with_suggested_name : FileInfo → Text → Text → FileInfo
with_suggested_name f name reason = record f {
  suggested_name = some name;
  name_reason = some reason;
}
