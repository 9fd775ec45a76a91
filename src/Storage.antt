-- ===== src/Storage.antt =====
-- src/storage: the object store behind an OpenDAL `Operator`. OpenDAL is not part of the program, so
-- the operator is a record of its operations on a world, and `IsObjectStore` is what its
-- documentation says of them: whole objects appear, by a `write` or by the `close` of a writer opened
-- with `if_not_exists`, and nothing else changes what a key holds.
pub mod Memory
use anti_entropator.Prelude.Io.{Io}
use anti_entropator.Prelude.{
  ℕ, ◌+◌, ◌≡◌, ◌⊎◌, Bool, false, Option, none, some, List, [], ◌++◌, length, Error, message, Result,
  ok, err, Bytes, Text, text_eq,
}

-- `opendal::ErrorKind`, as far as the program looks at it, with the error's text.
pub data StoreError : Type 0 where
  not_found condition_not_match other_failure : Text → StoreError

pub data Stored (A : Type 0) : Type 0 where
  done : A → Stored A
  failed : StoreError → Stored A

abbrev pub store_message : StoreError → Error
store_message (not_found t) = message t
store_message (condition_not_match t) = message t
store_message (other_failure t) = message t

abbrev pub to_result : {A : Type 0} → Stored A → Result A
to_result (done a) = ok a
to_result (failed e) = err (store_message e)

-- A call of the store, whose error the program passes on.
abbrev pub store_io : {World A : Type 0} → (World → Stored A × World) → Io World A
store_io call w = (to_result (call w).0, (call w).1)

-- An object with the user metadata that the program writes.
pub record Object : Type 0 where
  pub content : Bytes
  pub sha256 : Option Text
  pub size : Option Text

-- What `stat` tells of an object.
pub record ObjectMeta : Type 0 where
  pub content_length : ℕ
  pub sha256 : Option Text

abbrev pub describe : Object → ObjectMeta
describe o = record { content_length = length o.content; sha256 = o.sha256 }

pub record Operator (World Writer : Type 0) : Type 0 where
  -- does the store keep user metadata?
  pub write_with_user_metadata : Bool
  pub stat : Text → World → Stored ObjectMeta × World
  pub read : Text → World → Stored Bytes × World
  -- the names of the entries below a prefix
  pub list : Text → World → Stored (List Text) × World
  pub write : Text → Bytes → World → Stored (Unit {0}) × World
  -- a streaming writer with `if_not_exists(true)`, for a key and its user metadata
  pub open_writer : Text → Option Text → Option Text → World → Stored Writer × World
  pub write_chunk : Writer → Bytes → World → Stored (Unit {0}) × World
  pub close : Writer → World → Stored (Unit {0}) × World
  pub abort : Writer → World → Stored (Unit {0}) × World

-- What an open writer has been given.
pub record Stream : Type 0 where
  pub key : Text
  pub sha256 : Option Text
  pub size : Option Text
  pub bytes : Bytes

abbrev pub materialized : Stream → Object
materialized s = record { content = s.bytes; sha256 = s.sha256; size = s.size }

abbrev pub plain : Bytes → Object
plain body = record { content = body; sha256 = none; size = none }

-- One key went from one state to another, and every other key kept its object.
pub record Changed {World : Type 0} (object : World → Text → Option Object) (k : Text)
    (o : Option Object) (w w' : World) : Type 0 where
  pub at_key : object w' k ≡ o
  pub elsewhere : (j : Text) → text_eq k j ≡ false → object w' j ≡ object w j

pub record IsObjectStore {World Writer : Type 0} (op : Operator World Writer) : Type 0 where
  -- what a key holds, and what a writer has been given
  pub object : World → Text → Option Object
  pub stream : World → Writer → Stream
  pub stat_keeps : (k : Text) (w : World) → object (op.stat k w).1 ≡ object w
  pub stat_finds :
      (k : Text) (w : World) {m : ObjectMeta}
      → (op.stat k w).0 ≡ done m
      → (o : Object) × (object w k ≡ some o) × (m ≡ describe o)
  pub stat_misses :
      (k : Text) (w : World) {t : Text} → (op.stat k w).0 ≡ failed (not_found t) → object w k ≡ none
  pub read_keeps : (k : Text) (w : World) → object (op.read k w).1 ≡ object w
  pub read_finds :
      (k : Text) (w : World) {b : Bytes}
      → (op.read k w).0 ≡ done b
      → (o : Object) × (object w k ≡ some o) × (o.content ≡ b)
  pub list_keeps : (k : Text) (w : World) → object (op.list k w).1 ≡ object w
  pub write_done :
      (k : Text) (b : Bytes) (w : World) {u : Unit {0}}
      → (op.write k b w).0 ≡ done u
      → Changed object k (some (plain b)) w (op.write k b w).1
  -- a failed write may or may not have reached the store
  pub write_failed :
      (k : Text) (b : Bytes) (w : World) {e : StoreError}
      → (op.write k b w).0 ≡ failed e
      → Changed object k (some (plain b)) w (op.write k b w).1
        ⊎ Changed object k (object w k) w (op.write k b w).1
  pub open_keeps :
      (k : Text) (h s : Option Text) (w : World) → object (op.open_writer k h s w).1 ≡ object w
  pub open_streams :
      (k : Text) (h s : Option Text) (w : World) {x : Writer}
      → (op.open_writer k h s w).0 ≡ done x
      → stream (op.open_writer k h s w).1 x ≡ record { key = k; sha256 = h; size = s; bytes = [] }
  pub chunk_keeps :
      (x : Writer) (b : Bytes) (w : World) → object (op.write_chunk x b w).1 ≡ object w
  pub chunk_streams :
      (x : Writer) (b : Bytes) (w : World) {u : Unit {0}}
      → (op.write_chunk x b w).0 ≡ done u
      → stream (op.write_chunk x b w).1 x ≡ record (stream w x) { bytes = (stream w x).bytes ++ b }
  pub close_done :
      (x : Writer) (w : World) {u : Unit {0}}
      → (op.close x w).0 ≡ done u
      → Changed object (stream w x).key (some (materialized (stream w x))) w (op.close x w).1
  pub close_loses :
      (x : Writer) (w : World) {t : Text}
      → (op.close x w).0 ≡ failed (condition_not_match t)
      → object (op.close x w).1 ≡ object w
  pub close_loses_to :
      (x : Writer) (w : World) {t : Text}
      → (op.close x w).0 ≡ failed (condition_not_match t)
      → (o : Object) × (object w (stream w x).key ≡ some o)
  -- any other failure of a close may or may not have materialized the object
  pub close_failed :
      (x : Writer) (w : World) {e : StoreError}
      → (op.close x w).0 ≡ failed e
      → Changed object (stream w x).key (some (materialized (stream w x))) w (op.close x w).1
        ⊎ Changed object (stream w x).key (object w (stream w x).key) w (op.close x w).1
  pub abort_keeps : (x : Writer) (w : World) → object (op.abort x w).1 ≡ object w
