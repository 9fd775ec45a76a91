-- ===== src/Ingest/Journal/Sample.antt =====
-- A codec of journals as numbers, which decodes what it encodes.
use anti_entropator.Prelude.{
  ℕ, zero, suc, ◌-◌, ◌≡◌, refl, sym, ap, ◌∙◌, Option, none, some, List, [], ◌∷◌, ◌++◌, length, take,
  drop, message, Result, ok, err, Bytes, Text, decimal,
}
use anti_entropator.Ingest.Journal.{RunState, Transition, RunJournal}
use anti_entropator.Domain.FileInfo.{Timestamp}
use anti_entropator.Domain.Observation.{Uuid}
use anti_entropator.Ingest.Journal.Persist.{Codec}

abbrev encode_state : RunState → List ℕ
encode_state RunState.started = 0 ∷ 0 ∷ 0 ∷ []
encode_state (RunState.committing batch) = 1 ∷ batch ∷ 0 ∷ []
encode_state (RunState.batch_committed batch rows) = 2 ∷ batch ∷ rows ∷ []
encode_state RunState.completed = 3 ∷ 0 ∷ 0 ∷ []
encode_state (RunState.incomplete n) = 4 ∷ n ∷ 0 ∷ []
encode_state (RunState.commit_failed batch) = 5 ∷ batch ∷ 0 ∷ []
encode_state (RunState.reconciled rows) = 6 ∷ rows ∷ 0 ∷ []
encode_state (RunState.superseded_by run_id) = 7 ∷ run_id ∷ 0 ∷ []

abbrev decode_state : ℕ → ℕ → ℕ → RunState
decode_state zero a b = RunState.started
decode_state (suc zero) a b = RunState.committing a
decode_state (suc (suc zero)) a b = RunState.batch_committed a b
decode_state (suc (suc (suc zero))) a b = RunState.completed
decode_state (suc (suc (suc (suc zero)))) a b = RunState.incomplete a
decode_state (suc (suc (suc (suc (suc zero))))) a b = RunState.commit_failed a
decode_state (suc (suc (suc (suc (suc (suc zero)))))) a b = RunState.reconciled a
decode_state _ a b = RunState.superseded_by a

abbrev encode_history : List Transition → List ℕ
encode_history [] = []
encode_history (t ∷ ts) = t.at ∷ encode_state t.state ++ encode_history ts

abbrev decode_history : List ℕ → List Transition
decode_history (t ∷ tag ∷ a ∷ b ∷ rest) =
    record { at = t; state = decode_state tag a b } ∷ decode_history rest
decode_history _ = []

abbrev pub decode_journal : Bytes → Result RunJournal
decode_journal (v ∷ run ∷ at ∷ up ∷ n ∷ l ∷ rest) = ok record {
  format_version = v;
  run_id = run;
  source_id = take l rest;
  started_at = at;
  updated_at = up;
  candidates = n;
  history = decode_history (drop l rest);
}
decode_journal _ = err (message [])

abbrev pub encode_journal : RunJournal → Bytes
encode_journal j =
    j.format_version
      ∷ j.run_id
      ∷ j.started_at
      ∷ j.updated_at
      ∷ j.candidates
      ∷ length j.source_id
      ∷ j.source_id
    ++ encode_history j.history

abbrev parse_digit : Text → Option Uuid
parse_digit (c ∷ []) = some (c - 48)
parse_digit _ = none

abbrev pub number_codec : Codec
number_codec = record {
  encode = λ j. ok (encode_journal j);
  decode = decode_journal;
  show_uuid = decimal;
  parse_uuid = parse_digit;
}

history_step :
    (t : Timestamp) (s : RunState) (ts : List Transition)
    → decode_history (t ∷ encode_state s ++ encode_history ts)
      ≡ record { at = t; state = s } ∷ decode_history (encode_history ts)
history_step t RunState.started ts = refl
history_step t (RunState.committing batch) ts = refl
history_step t (RunState.batch_committed batch rows) ts = refl
history_step t RunState.completed ts = refl
history_step t (RunState.incomplete n) ts = refl
history_step t (RunState.commit_failed batch) ts = refl
history_step t (RunState.reconciled rows) ts = refl
history_step t (RunState.superseded_by run_id) ts = refl

decode_encode_history : (ts : List Transition) → decode_history (encode_history ts) ≡ ts
decode_encode_history [] = refl
decode_encode_history (t ∷ ts) =
    history_step t.at t.state ts ∙ ap (λ (us : List Transition). t ∷ us) (decode_encode_history ts)

take_text : (t rest : Text) → take (length t) (t ++ rest) ≡ t
take_text [] rest = refl
take_text (c ∷ t) rest = ap (λ (u : Text). c ∷ u) (take_text t rest)

drop_text : (t rest : Text) → drop (length t) (t ++ rest) ≡ rest
drop_text [] rest = refl
drop_text (c ∷ t) rest = drop_text t rest

pub number_codec_round_trip :
    (j : RunJournal) (b : Bytes) → number_codec.encode j ≡ ok b → number_codec.decode b ≡ ok j
number_codec_round_trip j b e =
    let back : encode_journal j ≡ b = cc in
    rw (sym back, take_text, drop_text, decode_encode_history) refl
