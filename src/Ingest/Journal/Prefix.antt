-- ===== src/Ingest/Journal/Prefix.antt =====
-- What is stored of a run's journal while the run goes on.
use mathlib.Core.List.{append_assoc, append-nil}
use anti_entropator.Prelude.Io.{Io, pure, with_context_io, ◌>>◌}
use anti_entropator.Prelude.{
  ℕ, ◌≡◌, refl, sym, ap, ◌∙◌, inl, inr, Option, some, List, [], ◌∷◌, ◌++◌, context, Result, ok, err,
  Bytes, Text, ascii,
}
use anti_entropator.Ingest.Journal.{RunState, Transition, RunJournal, new, push}
use anti_entropator.Domain.FileInfo.{Timestamp}
use anti_entropator.Domain.Observation.{Uuid}
use anti_entropator.Storage.{Object, Operator, plain, IsObjectStore}
use anti_entropator.Ingest.Journal.Saved.{save_cases, save-ok}
use anti_entropator.Ingest.Journal.Persist.{Codec, journal_key, save, start, record_transition}

-- `j` is an earlier state of `k`: the same run, and the first entries of its history.
pub record IsEarlier (j k : RunJournal) : Type 0 where
  pub same_run : j.run_id ≡ k.run_id
  pub same_source : j.source_id ≡ k.source_id
  pub same_start : j.started_at ≡ k.started_at
  pub later : List Transition
  pub history : k.history ≡ j.history ++ later

IsEarlier-refl : (j : RunJournal) → IsEarlier j j
IsEarlier-refl j = record {
  same_run = refl;
  same_source = refl;
  same_start = refl;
  later = [];
  history = sym (append-nil j.history);
}

IsEarlier-push :
    {j k : RunJournal} (s : RunState) (t : Timestamp) → IsEarlier j k → IsEarlier j (push k s t)
unfolding push
IsEarlier-push {j} {k} s t e = record {
  same_run = e.same_run;
  same_source = e.same_source;
  same_start = e.same_start;
  later = e.later ++ record { at = t; state = s } ∷ [];
  history =
      ap (λ (h : List Transition). h ++ record { at = t; state = s } ∷ []) e.history
      ∙ append_assoc j.history e.later (record { at = t; state = s } ∷ []);
}

-- The key holds a journal that reads as an earlier state of `k`.
pub record IsPersisted {World : Type 0} (object : World → Text → Option Object)
    (decode : Bytes → Result RunJournal) (key : Text) (k : RunJournal) (w : World) : Type 0 where
  pub held : Object
  pub stored : RunJournal
  pub at_key : object w key ≡ some held
  pub reads : decode held.content ≡ ok stored
  pub earlier : IsEarlier stored k

-- The transitions of a run, in order.
abbrev pub record_all :
    {World Writer : Type 0} (op : Operator World Writer) (now : World → Timestamp × World)
    (codec : Codec)
    → List RunState
    → RunJournal
    → World
    → RunJournal × World
record_all op now codec [] j w = (j, w)
record_all op now codec (s ∷ ss) j w =
    let (j', w') = record_transition op now codec s j w in record_all op now codec ss j' w'

module _ {World Writer : Type 0} (op : Operator World Writer) (now : World → Timestamp × World)
    (codec : Codec) (laws : IsObjectStore op)
    (now_keeps : (w : World) → laws.object (now w).1 ≡ laws.object w)
    (round_trip : (j : RunJournal) (b : Bytes)
      → codec.encode j ≡ ok b
      → codec.decode b ≡ ok j) where
  open laws use {object}

  abbrev key_of : RunJournal → Text
  key_of j = journal_key op now codec j.run_id

  save-IsPersisted :
      (j : RunJournal) (w : World)
      → IsPersisted object codec.decode (key_of j) j w
      → IsPersisted object codec.decode (key_of j) j (save op now codec j w).1
  save-IsPersisted j w p = elim (save_cases op now codec laws j w (codec.encode j) refl) [
    | inl same ↦ record {
      held = p.held;
      stored = p.stored;
      at_key = same (key_of j) ∙ p.at_key;
      reads = p.reads;
      earlier = p.earlier;
    }
    | inr (b, e, put) ↦ record {
      held = plain b;
      stored = j;
      at_key = put;
      reads = round_trip j b e;
      earlier = IsEarlier-refl j;
    }
  ]

  push-IsPersisted :
      (j : RunJournal) (s : RunState) (t : Timestamp) (w w' : World)
      → object w' ≡ object w
      → IsPersisted object codec.decode (key_of j) j w
      → IsPersisted object codec.decode (key_of (push j s t)) (push j s t) w'
  push-IsPersisted j s t w w' same p = record {
    held = p.held;
    stored = p.stored;
    at_key = unfold push in rw same p.at_key;
    reads = p.reads;
    earlier = IsEarlier-push s t p.earlier;
  }

  -- Recording a transition, whether or not the write succeeds, leaves a stored journal that reads
  -- as an earlier state of the journal in memory.
  record_transition-IsPersisted :
      (s : RunState) (j : RunJournal) (w : World)
      → IsPersisted object codec.decode (key_of j) j w
      → let (j', w') = record_transition op now codec s j w in
        IsPersisted object codec.decode (key_of j') j' w'
  unfolding record_transition
  record_transition-IsPersisted s j w p =
      save-IsPersisted (push j s (now w).0) (now w).1
        (push-IsPersisted j s (now w).0 w (now w).1 (now_keeps w) p)

  saved-IsPersisted :
      (j : RunJournal) (w : World) (u : Unit {0})
      → (save op now codec j w).0 ≡ ok u
      → IsPersisted object codec.decode (key_of j) j (save op now codec j w).1
  saved-IsPersisted j w u h =
      let (b, e, put) = save-ok op now codec laws j w u (codec.encode j) refl h in
      record {
        held = plain b;
        stored = j;
        at_key = put;
        reads = round_trip j b e;
        earlier = IsEarlier-refl j;
      }

  abbrev start_io : RunJournal → Io World RunJournal
  start_io j = do
    with_context_io (ascii "Cannot write the run journal; refusing to start an unrecorded run")
        (save op now codec j)
    pure j

  start_io-IsPersisted :
      (j k : RunJournal) (w : World) (r : Result (Unit {0}))
      → (save op now codec j w).0 ≡ r
      → (start_io j w).0 ≡ ok k
      → IsPersisted object codec.decode (key_of k) k (start_io j w).1
  start_io-IsPersisted j k w (err x) h e =
      let bad : err
            (context (ascii "Cannot write the run journal; refusing to start an unrecorded run") x)
          ≡ ok k =
        rw h at e in
      cc
  start_io-IsPersisted j k w (ok u) h e =
      let same : ok j ≡ ok k = rw h at e in
      let back : j ≡ k = cc in rw h (rw (sym back) (saved-IsPersisted j w u h))

  -- A run is recorded only once its first state is stored.
  start-IsPersisted :
      (run_id : Uuid) (source_id : Text) (candidates : ℕ) (w : World) (j : RunJournal)
      → (start op now codec run_id source_id candidates w).0 ≡ ok j
      → IsPersisted object codec.decode
          (key_of j)
          j
          (start op now codec run_id source_id candidates w).1
  unfolding start
  start-IsPersisted run_id source_id candidates w j e =
      start_io-IsPersisted (new run_id source_id candidates (now w).0) j (now w).1
        (save op now codec (new run_id source_id candidates (now w).0) (now w).1).0 refl e

  record_all-IsPersisted :
      (ss : List RunState) (j : RunJournal) (w : World)
      → IsPersisted object codec.decode (key_of j) j w
      → let (j', w') = record_all op now codec ss j w in
        IsPersisted object codec.decode (key_of j') j' w'
  record_all-IsPersisted [] j w p = p
  record_all-IsPersisted (s ∷ ss) j w p =
      let (j', w') = record_transition op now codec s j w in
      record_all-IsPersisted ss j' w' (record_transition-IsPersisted s j w p)

  -- Over a store that keeps its documented laws, a clock that leaves it alone and a codec that
  -- decodes what it encodes: once a run has started, whatever transitions it records, and
  -- whichever of their writes fail, its key holds a journal that reads as an earlier state of the
  -- journal in memory.
  pub run-IsPersisted :
      (run_id : Uuid) (source_id : Text) (candidates : ℕ) (ss : List RunState) (w : World)
      (j : RunJournal)
      → (start op now codec run_id source_id candidates w).0 ≡ ok j
      → let (j', w') =
          record_all op now codec ss j (start op now codec run_id source_id candidates w).1 in
        IsPersisted object codec.decode (journal_key op now codec j'.run_id) j' w'
  run-IsPersisted run_id source_id candidates ss w j e =
      record_all-IsPersisted ss j (start op now codec run_id source_id candidates w).1
        (start-IsPersisted run_id source_id candidates w j e)
