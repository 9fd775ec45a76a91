-- ===== src/Ingest/State.antt =====
-- src/ingest/state.rs: the catalog's observations of a source, reduced to the last known content of
-- each path, and the decision whether a scanned path needs a new observation.
pub mod Latest
pub mod Unique
pub mod Order
pub mod Decision
mod Tests
use anti_entropator.Prelude.{
  Bool, true, not, Option, none, some, List, [], ◌∷◌, leb, if◌then◌else◌, TextMap, lookup, insert,
  Text, text_eq,
}
use anti_entropator.Domain.FileInfo.{Timestamp}

pub record KnownPath : Type 0 where
  pub content_hash : Text
  pub observed_at : Timestamp

abbrev pub CurrentState : Type 0
CurrentState = TextMap KnownPath

pub record ObservationRow : Type 0 where
  pub relative_path : Text
  pub content_hash : Text
  pub observed_at : Timestamp

pub data PathDecision : Type 0 where
  observe unchanged : PathDecision

abbrev pub known_path : Option CurrentState → Text → Option KnownPath
known_path none relative_path = none
known_path (some s) relative_path = lookup relative_path s

abbrev decide_known : Option KnownPath → Text → PathDecision
decide_known none content_hash = observe
decide_known (some known) content_hash =
    if text_eq known.content_hash content_hash then unchanged else observe

unfoldable pub decide : Option CurrentState → Text → Text → PathDecision
decide state relative_path content_hash = decide_known (known_path state relative_path) content_hash

abbrev candidate : ObservationRow → KnownPath
candidate row = record { content_hash = row.content_hash; observed_at = row.observed_at }

-- Does the row replace what is known of its path?
abbrev replaces : ObservationRow → Option KnownPath → Bool
replaces row none = true
replaces row (some existing) = not (leb row.observed_at existing.observed_at)

-- The body of the loop.
unfoldable pub reduce_row : CurrentState → ObservationRow → CurrentState
reduce_row state row =
    if replaces row (lookup row.relative_path state)
    then insert row.relative_path (candidate row) state
    else state

reduce_from : CurrentState → List ObservationRow → CurrentState
reduce_from state [] = state
reduce_from state (row ∷ rows) = reduce_from (reduce_row state row) rows

unfoldable pub reduce_latest : List ObservationRow → CurrentState
unfolding reduce_from
reduce_latest rows = reduce_from [] rows
