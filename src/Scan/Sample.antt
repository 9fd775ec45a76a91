-- ===== src/Scan/Sample.antt =====
-- A disk with one file and tools that print one line, over any world: for concrete runs.
use anti_entropator.Prelude.{refl, true, none, some, [], ◌∷◌, ok, Text, ascii}
use anti_entropator.Scan.{Disk}
use anti_entropator.Scan.Enrichers.{exited, Json, Tools}
use anti_entropator.Scan.Enrichers.PlainNames.{IsTextual}
use anti_entropator.Scan.ReadOnly.{IsReadOnly}

abbrev pub no_json : Json
no_json = record { Value = Unit; from_str = λ s. none; get = λ v k. none; as_str = λ v. none }

module _ {World : Type 0} where
  -- Every tool prints the same line, and ASCII is its own decoding.
  abbrev pub one_line : Text → Tools World
  one_line line = record {
    Child = Unit;
    spawn = λ program args w. (some tt, w);
    wait = λ child w. (exited (record { success = true; stdout = line }), w);
    from_utf8_lossy = λ b. b;
    to_string_lossy = λ b. b;
    to_lowercase = λ s. s;
    chars_to_lowercase = λ s. s;
    json = no_json;
  }

  -- Every path is a file of the same three bytes.
  abbrev pub three_bytes : Disk World
  three_bytes = record {
    metadata = λ path w. (ok (record { len = 3; modified = none; created = none }), w);
    infer_mime = λ path w. (none, w);
    open_file =
        λ path w. (record { opened = ok tt; reads = λ n. ok (1 ∷ 2 ∷ []) ∷ ok (3 ∷ []) ∷ [] }, w);
    join_blocking = λ w. (ok tt, w);
    fresh_uuid = λ w. (7, w);
    now = λ w. (2048, w);
    format_stamp = λ t. ascii "2024-01-15_14-30-45";
  }

  abbrev pub one_line-IsTextual : (line : Text) → IsTextual (one_line line)
  one_line-IsTextual line = record { lossy_lacks = λ s h. h }

  abbrev pub three_bytes-IsReadOnly :
      {V : Type 0} (view : World → V) (line : Text) → IsReadOnly view (one_line line) three_bytes
  three_bytes-IsReadOnly view line = record {
    metadata_keeps = λ path w. refl;
    infer_keeps = λ path w. refl;
    open_keeps = λ path w. refl;
    join_keeps = λ w. refl;
    uuid_keeps = λ w. refl;
    now_keeps = λ w. refl;
    spawn_keeps = λ program args w. refl;
    wait_keeps = λ child w. refl;
  }
