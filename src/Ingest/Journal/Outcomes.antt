-- ===== src/Ingest/Journal/Outcomes.antt =====
-- What a journal says about its run, and what a closure entry changes.
use anti_entropator.Prelude.{
  ◌≡◌, refl, sym, ap, ◌∙◌, ◌↔◌, inl, inr, any, All, Bool-cases, Bool, true, false, ◌&&◌, ◌||◌, not,
  List, [], ◌∷◌, ◌++◌, arith, any-append, if◌then◌else◌,
}
use anti_entropator.Domain.FileInfo.{Timestamp}
use anti_entropator.Ingest.Journal.{
  RunState, is_closure, Transition, RunOutcome, RunJournal, push, last_own_of, last_own, is_closed,
  classify_outcome, outcome, is_open_outcome, is_open,
}

-- The states after which a run's outcome needs no later run to settle it.
abbrev pub settles : RunState → Bool
settles RunState.completed = true
settles (RunState.incomplete failed) = true
settles _ = false

is_open_table :
    (s : RunState) (closed : Bool)
    → is_open_outcome (classify_outcome s closed) ≡ (not (settles s) && not closed)
unfolding is_open_outcome classify_outcome
is_open_table s closed = ground arith

closed_table :
    (s : RunState) (closed : Bool)
    → (classify_outcome s true
        ≡ (if settles s then classify_outcome s closed else RunOutcome.reconciled))
      × (is_open_outcome (classify_outcome s true) ≡ false)
unfolding is_open_outcome classify_outcome
closed_table s closed = ground arith

-- The last entry, or the given state.
abbrev pub last_state : RunState → List Transition → RunState
last_state found [] = found
last_state found (t ∷ ts) = last_state t.state ts

abbrev pub NoClosure : List Transition → Type 0
NoClosure ts = All (λ t. is_closure t.state ≡ false) ts

any-NoClosure : (ts : List Transition) → (any (λ t. is_closure t.state) ts ≡ false) ↔ NoClosure ts
any-NoClosure [] = ((λ h. tt), λ h. refl)
any-NoClosure (t ∷ ts) = elim (Bool-cases (is_closure t.state)) [
  | inl h ↦ rw h ((λ e. cc), λ n. cc (n.0))
  | inr h ↦ rw h ((λ e. (refl, (any-NoClosure ts).0 e)), λ n. (any-NoClosure ts).1 n.1)
]

last_own_of-NoClosure :
    (found : RunState) (ts : List Transition)
    → NoClosure ts
    → last_own_of found ts ≡ last_state found ts
last_own_of-NoClosure found [] h = refl
last_own_of-NoClosure found (t ∷ ts) h = rw h.0 (last_own_of-NoClosure t.state ts h.1)

-- A journal is open exactly when no entry of its history is a closure and its last entry (`started`
-- for an empty history) is neither `completed` nor `incomplete`.
pub is_open_iff :
    (j : RunJournal)
    → (is_open j ≡ true)
      ↔ (NoClosure j.history × (settles (last_state RunState.started j.history) ≡ false))
unfolding is_open outcome last_own is_closed
is_open_iff j = (
  λ open_now.
      let both : (not (settles (last_own j)) && not (is_closed j)) ≡ true =
        sym (is_open_table (last_own j) (is_closed j)) ∙ open_now in
      let none : NoClosure j.history = (any-NoClosure j.history).0 (ground (arith, both)) in
      (
        none,
        sym (ap settles (last_own_of-NoClosure RunState.started j.history none))
            ∙ ground (arith, both),
      ),
  λ (none, unsettled).
      is_open_table (last_own j) (is_closed j)
      ∙ rw
          (
            last_own_of-NoClosure RunState.started j.history none,
            (any-NoClosure j.history).1 none,
            unsettled,
          )
          refl,
)

last_own_of-append :
    (found : RunState) (ts us : List Transition)
    → last_own_of found (ts ++ us) ≡ last_own_of (last_own_of found ts) us
last_own_of-append found [] us = refl
last_own_of-append found (t ∷ ts) us =
    last_own_of-append (if is_closure t.state then found else t.state) ts us

pub last_own-push :
    (j : RunJournal) (s : RunState) (now : Timestamp)
    → last_own (push j s now) ≡ (if is_closure s then last_own j else s)
unfolding last_own push
last_own-push j s now =
    last_own_of-append RunState.started j.history (record { at = now; state = s } ∷ [])

pub is_closed-push :
    (j : RunJournal) (s : RunState) (now : Timestamp)
    → is_closed (push j s now) ≡ (is_closed j || is_closure s)
unfolding is_closed push
is_closed-push j s now =
    any-append (λ t. is_closure t.state) j.history (record { at = now; state = s } ∷ [])
    ∙ ground arith

-- A closure entry leaves the outcome of a completed or incomplete run as it was and makes every
-- other outcome `reconciled`; the journal is not open afterwards.
pub outcome-push_closure :
    (j : RunJournal) (s : RunState) (now : Timestamp)
    → is_closure s ≡ true
    → (outcome (push j s now) ≡ (if settles (last_own j) then outcome j else RunOutcome.reconciled))
      × (is_open (push j s now) ≡ false)
unfolding outcome is_open
outcome-push_closure j s now closure =
    rw (last_own-push j s now, is_closed-push j s now, closure)
      (ground (arith, closed_table (last_own j) (is_closed j)))

-- What a run's own entry makes of its journal: the outcome depends on that entry alone, and on
-- whether a later run has closed the journal already.
pub outcome-push_own :
    (j : RunJournal) (s : RunState) (now : Timestamp)
    → is_closure s ≡ false
    → outcome (push j s now) ≡ classify_outcome s (is_closed j)
unfolding outcome
outcome-push_own j s now own =
    rw (last_own-push j s now, is_closed-push j s now, own) (ground arith)
