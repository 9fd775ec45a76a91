-- ===== src/Ingest/Journal/Sorting.antt =====
-- What sorting and filtering journals keep: the order of their starts, and their members.
use anti_entropator.Prelude.{
  ◌≤◌, ◌≡◌, ◌↔◌, ◌⊎◌, inl, inr, Bool, true, List, [], ◌∷◌, arith, filter, All, In, leb, leb→le,
  leb-false→lt, Bool-cases,
}
use anti_entropator.Ingest.Journal.{RunJournal}
use anti_entropator.Ingest.Journal.Persist.{insert_newest, sort_newest}

abbrev pub StartedBefore : RunJournal → RunJournal → Type 0
StartedBefore j k = k.started_at ≤ j.started_at

-- The later start first.
abbrev pub NewestFirst : List RunJournal → Type 0
NewestFirst [] = Unit
NewestFirst (j ∷ js) = All (StartedBefore j) js × NewestFirst js

before_trans :
    (j k : RunJournal) (js : List RunJournal)
    → k.started_at ≤ j.started_at
    → All (StartedBefore k) js
    → All (StartedBefore j) js
before_trans j k [] h a = tt
before_trans j k (x ∷ xs) h a = (omega (arith, h, a.0), before_trans j k xs h a.1)

insert_newest-All :
    (P : RunJournal → Type 0) (j : RunJournal) (ks : List RunJournal)
    → P j
    → All P ks
    → All P (insert_newest j ks)
unfolding insert_newest
insert_newest-All P j [] p a = (p, tt)
insert_newest-All P j (k ∷ ks) p a = elim (Bool-cases (leb k.started_at j.started_at)) [
  | inl h ↦ rw h (p, a)
  | inr h ↦ rw h (a.0, insert_newest-All P j ks p a.1)
]

insert_newest-NewestFirst :
    (j : RunJournal) (ks : List RunJournal) → NewestFirst ks → NewestFirst (insert_newest j ks)
unfolding insert_newest
insert_newest-NewestFirst j [] a = (tt, tt)
insert_newest-NewestFirst j (k ∷ ks) a = elim (Bool-cases (leb k.started_at j.started_at)) [
  | inl h ↦ rw h (
    (
      leb→le k.started_at j.started_at h,
      before_trans j k ks (leb→le k.started_at j.started_at h) a.0,
    ),
    a,
  )
  | inr h ↦ rw h (
    insert_newest-All (StartedBefore k) j ks
        (omega (arith, leb-false→lt k.started_at j.started_at h)) a.0,
    insert_newest-NewestFirst j ks a.1,
  )
]

pub sort_newest-NewestFirst : (js : List RunJournal) → NewestFirst (sort_newest js)
unfolding sort_newest
sort_newest-NewestFirst [] = tt
sort_newest-NewestFirst (j ∷ js) =
    insert_newest-NewestFirst j (sort_newest js) (sort_newest-NewestFirst js)

filter-All :
    (P : RunJournal → Type 0) (p : RunJournal → Bool) (js : List RunJournal)
    → All P js
    → All P (filter p js)
filter-All P p [] a = tt
filter-All P p (j ∷ js) a = elim (Bool-cases (p j)) [
  | inl h ↦ rw h (a.0, filter-All P p js a.1)
  | inr h ↦ rw h (filter-All P p js a.1)
]

pub filter-NewestFirst :
    (p : RunJournal → Bool) (js : List RunJournal) → NewestFirst js → NewestFirst (filter p js)
filter-NewestFirst p [] a = tt
filter-NewestFirst p (j ∷ js) a = elim (Bool-cases (p j)) [
  | inl h ↦ rw h (filter-All (StartedBefore j) p js a.0, filter-NewestFirst p js a.1)
  | inr h ↦ rw h (filter-NewestFirst p js a.1)
]

pub filter-In :
    (p : RunJournal → Bool) (js : List RunJournal) (j : RunJournal)
    → In j (filter p js) ↔ (In j js × (p j ≡ true))
filter-In p [] j = ((λ h. absurd h), λ h. h.0)
filter-In p (k ∷ js) j = elim (Bool-cases (p k)) [
  | inl h ↦ rw h (grind (arith, filter-In p js j))
  | inr h ↦ rw h (grind (arith, filter-In p js j))
]

insert_newest-In :
    (j : RunJournal) (ks : List RunJournal) (i : RunJournal)
    → In i (insert_newest j ks) ↔ ((i ≡ j) ⊎ In i ks)
unfolding insert_newest
insert_newest-In j [] i = ((λ h. h), λ h. h)
insert_newest-In j (k ∷ ks) i = elim (Bool-cases (leb k.started_at j.started_at)) [
  | inl h ↦ rw h ((λ x. x), λ x. x)
  | inr h ↦ rw h (grind (arith, insert_newest-In j ks i))
]

pub sort_newest-In : (js : List RunJournal) (i : RunJournal) → In i (sort_newest js) ↔ In i js
unfolding sort_newest
sort_newest-In [] i = ((λ h. h), λ h. h)
sort_newest-In (j ∷ js) i =
    grind (arith, insert_newest-In j (sort_newest js) i, sort_newest-In js i)
