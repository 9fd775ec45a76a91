-- ===== src/Storage/Memory.antt =====
-- A store in memory that meets `IsObjectStore`; the next writes fail where `faults` says so.
use anti_entropator.Prelude.{
  ◌≡◌, refl, ap, ◌⊎◌, inr, Bool, true, false, Option, none, some, List, [], ◌∷◌, ◌++◌, length, drop,
  TextMap, lookup, insert, lookup-insert, starts_with, if◌then◌else◌, Bytes, Text, text_eq_refl,
}
use anti_entropator.Storage.{
  StoreError, not_found, condition_not_match, other_failure, Stored, done, failed, Object,
  ObjectMeta, describe, Operator, Stream, materialized, plain, Changed, IsObjectStore,
}

pub record Memory : Type 0 where
  pub objects : TextMap Object
  pub streams : TextMap Stream
  pub faults : List Bool

abbrev pub empty_memory : Memory
empty_memory = record { objects = []; streams = []; faults = [] }

abbrev pub no_stream : Text → Stream
no_stream k = record { key = k; sha256 = none; size = none; bytes = [] }

abbrev or_no_stream : Text → Option Stream → Stream
or_no_stream k none = no_stream k
or_no_stream k (some s) = s

abbrev pub stream_of : Memory → Text → Stream
stream_of w k = or_no_stream k (lookup k w.streams)

unfoldable pub stat_object : Option Object → Stored ObjectMeta
stat_object none = failed (not_found [])
stat_object (some o) = done (describe o)

unfoldable pub read_object : Option Object → Stored Bytes
read_object none = failed (not_found [])
read_object (some o) = done o.content

unfoldable pub write_memory : Text → Bytes → List Bool → Memory → Stored (Unit {0}) × Memory
write_memory k b (true ∷ faults) w = (failed (other_failure []), record w { faults = faults })
write_memory k b (false ∷ faults) w =
    (done tt, record w { objects = insert k (plain b) w.objects; faults = faults })
write_memory k b [] w = (done tt, record w { objects = insert k (plain b) w.objects })

unfoldable pub close_memory : Stream → Option Object → Memory → Stored (Unit {0}) × Memory
close_memory s none w = (done tt, record w { objects = insert s.key (materialized s) w.objects })
close_memory s (some o) w = (failed (condition_not_match []), w)

unfoldable pub keys_below : Text → TextMap Object → List Text
keys_below prefix [] = []
keys_below prefix ((k, o) ∷ m) =
    let rest = keys_below prefix m in
    if starts_with k prefix then drop (length prefix) k ∷ rest else rest

abbrev pub memory : Operator Memory Text
memory = record {
  write_with_user_metadata = true;
  stat = λ k w. (stat_object (lookup k w.objects), w);
  read = λ k w. (read_object (lookup k w.objects), w);
  list = λ prefix w. (done (keys_below prefix w.objects), w);
  write = λ k b w. write_memory k b w.faults w;
  open_writer = λ k h s w. (
    done k,
    record w {
      streams = insert k (record { key = k; sha256 = h; size = s; bytes = [] }) w.streams;
    },
  );
  write_chunk = λ x b w. (
    done tt,
    record w {
      streams = insert x (record (stream_of w x) { bytes = (stream_of w x).bytes ++ b }) w.streams;
    },
  );
  close = λ x w. close_memory (stream_of w x) (lookup (stream_of w x).key w.objects) w;
  abort = λ x w. (done tt, w);
}

abbrev holds : Memory → Text → Option Object
holds w k = lookup k w.objects

insert-Changed :
    (k : Text) (o : Object) (w w' : Memory)
    → w'.objects ≡ insert k o w.objects
    → Changed holds k (some o) w w'
insert-Changed k o w w' e = record {
  at_key = rw (e, lookup-insert, text_eq_refl k);
  elsewhere = λ j ne. rw (e, lookup-insert, ne);
}

same-Changed :
    (k : Text) (w w' : Memory) → w'.objects ≡ w.objects → Changed holds k (holds w k) w w'
same-Changed k w w' e = record { at_key = rw e; elsewhere = λ j ne. rw e }

stat_object-finds :
    (o : Option Object) {m : ObjectMeta}
    → stat_object o ≡ done m
    → (p : Object) × (o ≡ some p) × (m ≡ describe p)
unfolding stat_object
stat_object-finds none e = cc
stat_object-finds (some p) e = (p, refl, cc)

stat_object-misses :
    (o : Option Object) {t : Text} → stat_object o ≡ failed (not_found t) → o ≡ none
unfolding stat_object
stat_object-misses none e = refl
stat_object-misses (some p) e = cc

read_object-finds :
    (o : Option Object) {b : Bytes}
    → read_object o ≡ done b
    → (p : Object) × (o ≡ some p) × (p.content ≡ b)
unfolding read_object
read_object-finds none e = cc
read_object-finds (some p) e = (p, refl, cc)

write_memory-done :
    (k : Text) (b : Bytes) (faults : List Bool) (w : Memory) {u : Unit {0}}
    → (write_memory k b faults w).0 ≡ done u
    → Changed holds k (some (plain b)) w (write_memory k b faults w).1
unfolding write_memory
write_memory-done k b [] w e = insert-Changed k (plain b) w _ refl
write_memory-done k b (false ∷ faults) w e = insert-Changed k (plain b) w _ refl
write_memory-done k b (true ∷ faults) w e = cc

write_memory-failed :
    (k : Text) (b : Bytes) (faults : List Bool) (w : Memory) {x : StoreError}
    → (write_memory k b faults w).0 ≡ failed x
    → Changed holds k (some (plain b)) w (write_memory k b faults w).1
      ⊎ Changed holds k (holds w k) w (write_memory k b faults w).1
unfolding write_memory
write_memory-failed k b [] w e = cc
write_memory-failed k b (false ∷ faults) w e = cc
write_memory-failed k b (true ∷ faults) w e = inr (same-Changed k w _ refl)

close_memory-done :
    (s : Stream) (o : Option Object) (w : Memory) {u : Unit {0}}
    → (close_memory s o w).0 ≡ done u
    → Changed holds s.key (some (materialized s)) w (close_memory s o w).1
unfolding close_memory
close_memory-done s none w e = insert-Changed s.key (materialized s) w _ refl
close_memory-done s (some o) w e = cc

close_memory-failed :
    (s : Stream) (o : Option Object) (w : Memory) {x : StoreError}
    → (close_memory s o w).0 ≡ failed x
    → (close_memory s o w).1 ≡ w
unfolding close_memory
close_memory-failed s none w e = cc
close_memory-failed s (some o) w e = refl

close_memory-taken :
    (s : Stream) (o : Option Object) (w : Memory) {t : Text}
    → (close_memory s o w).0 ≡ failed (condition_not_match t)
    → (p : Object) × (o ≡ some p)
unfolding close_memory
close_memory-taken s none w e = cc
close_memory-taken s (some o) w e = (o, refl)

stream_insert :
    (x : Text) (s : Stream) (m : TextMap Stream) → or_no_stream x (lookup x (insert x s m)) ≡ s
stream_insert x s m = rw (lookup-insert, text_eq_refl x)

done-injective : {k x : Text} → done k ≡ done x → x ≡ k
done-injective e = cc

pub memory-IsObjectStore : IsObjectStore memory
memory-IsObjectStore = record {
  object = holds;
  stream = stream_of;
  stat_keeps = λ k w. refl;
  stat_finds = λ k w e. stat_object-finds (holds w k) e;
  stat_misses = λ k w e. stat_object-misses (holds w k) e;
  read_keeps = λ k w. refl;
  read_finds = λ k w e. read_object-finds (holds w k) e;
  list_keeps = λ k w. refl;
  write_done = λ k b w e. write_memory-done k b w.faults w e;
  write_failed = λ k b w e. write_memory-failed k b w.faults w e;
  open_keeps = λ k h s w. refl;
  open_streams = λ k h s w e. rw (done-injective e) (stream_insert _ _ w.streams);
  chunk_keeps = λ x b w. refl;
  chunk_streams = λ x b w e. stream_insert x _ w.streams;
  close_done = λ x w e. close_memory-done (stream_of w x) (holds w (stream_of w x).key) w e;
  close_loses =
      λ x w e. ap holds (close_memory-failed (stream_of w x) (holds w (stream_of w x).key) w e);
  close_loses_to = λ x w e. close_memory-taken (stream_of w x) (holds w (stream_of w x).key) w e;
  close_failed = λ x w e. inr (
      same-Changed (stream_of w x).key w _ (
        ap (λ (v : Memory). v.objects)
          (close_memory-failed (stream_of w x) (holds w (stream_of w x).key) w e)));
  abort_keeps = λ x w. refl;
}

pub memory_object : (w : Memory) (k : Text) → memory-IsObjectStore.object w k ≡ lookup k w.objects
unfolding memory-IsObjectStore
memory_object w k = refl
