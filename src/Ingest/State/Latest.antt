-- ===== src/Ingest/State/Latest.antt =====
-- What the reduction computes for one path: the first of the rows with the greatest timestamp.
use mathlib.Core.Path.{subst}
use mathlib.Core.List.{append_assoc, append-nil}
use anti_entropator.Prelude.{
  In-append_right, ◌≤◌, ◌<◌, ◌≡◌, refl, sym, ap, ◌∙◌, ◌≢◌, inl, inr, Option, none, some, List, [],
  ◌∷◌, ◌++◌, arith, leb, if◌then◌else◌, leb→le, leb-false→lt, Bool-cases, In, In-append, lookup,
  lookup-insert, Text, text_eq, text_eq_refl, text_eq_iff, ne_of_text_eq,
}
use anti_entropator.Ingest.State.{
  KnownPath, CurrentState, ObservationRow, candidate, replaces, reduce_row, reduce_from,
  reduce_latest,
}

-- The rows of `path` are no later than `k`, and its rows in `earlier` are strictly earlier.
abbrev pub NoLater : Text → KnownPath → List ObservationRow → Type 0
NoLater path k rows =
    (r : ObservationRow) → In r rows → r.relative_path ≡ path → r.observed_at ≤ k.observed_at

abbrev pub Earlier : Text → KnownPath → List ObservationRow → Type 0
Earlier path k rows =
    (r : ObservationRow) → In r rows → r.relative_path ≡ path → r.observed_at < k.observed_at

-- `k` is recorded by a row of `path` that no row of `path` is later than, and that is the first such.
pub record IsLatest (path : Text) (rows : List ObservationRow) (k : KnownPath) : Type 0 where
  pub before : List ObservationRow
  pub row : ObservationRow
  pub after : List ObservationRow
  pub split : rows ≡ before ++ row ∷ after
  pub at_path : row.relative_path ≡ path
  pub recorded : k ≡ candidate row
  pub first : Earlier path k before
  pub greatest : NoLater path k after

abbrev pub Latest : Text → List ObservationRow → Option KnownPath → Type 0
Latest path rows none = (r : ObservationRow) → In r rows → r.relative_path ≢ path
Latest path rows (some k) = IsLatest path rows k

-- The loop as one path sees it.
abbrev keep : Text → Option KnownPath → ObservationRow → Option KnownPath
keep path known row =
    if text_eq row.relative_path path
    then (if replaces row known then some (candidate row) else known)
    else known

pick : Text → Option KnownPath → List ObservationRow → Option KnownPath
pick path known [] = known
pick path known (row ∷ rows) = pick path (keep path known row) rows

lookup-reduce_row :
    (path : Text) (state : CurrentState) (row : ObservationRow)
    → lookup path (reduce_row state row) ≡ keep path (lookup path state) row
unfolding reduce_row
lookup-reduce_row path state row = elim (Bool-cases (text_eq row.relative_path path)) [
  | inl same ↦ rw ((text_eq_iff row.relative_path path).0 same) (
      rw (text_eq_refl path)
        (ground (arith, lookup-insert path path (candidate row) state, text_eq_refl path)))
  | inr other ↦ ground (arith, other, lookup-insert row.relative_path path (candidate row) state)
]

lookup-reduce_from :
    (path : Text) (state : CurrentState) (rows : List ObservationRow)
    → lookup path (reduce_from state rows) ≡ pick path (lookup path state) rows
unfolding reduce_from pick
lookup-reduce_from path state [] = refl
lookup-reduce_from path state (row ∷ rows) =
    lookup-reduce_from path (reduce_row state row) rows
    ∙ ap (λ k. pick path k rows) (lookup-reduce_row path state row)

pub IsLatest-In :
    {path : Text} {rows : List ObservationRow} {k : KnownPath}
    → (l : IsLatest path rows k) → In l.row rows
IsLatest-In l = rw l.split (In-append_right l.row l.before (l.row ∷ l.after) (inl refl))

module _ (path : Text) where
  pub IsLatest-NoLater :
      {rows : List ObservationRow} {k : KnownPath} → IsLatest path rows k → NoLater path k rows
  IsLatest-NoLater {rows} {k} l r h e =
      elim (In-append r l.before (l.row ∷ l.after) (subst (In r) l.split h)) [
        | inl early ↦ omega (arith, l.first r early e)
        | inr (inl it) ↦ rw (it, l.recorded) (omega arith)
        | inr (inr late) ↦ l.greatest r late e
      ]

  -- One more row that does not replace what is known.
  IsLatest-snoc :
      {rows : List ObservationRow} {k : KnownPath} (row : ObservationRow)
      → (row.relative_path ≡ path → row.observed_at ≤ k.observed_at)
      → IsLatest path rows k
      → IsLatest path (rows ++ row ∷ []) k
  IsLatest-snoc row late l = record {
    before = l.before;
    row = l.row;
    after = l.after ++ row ∷ [];
    split =
        ap (λ (t : List ObservationRow). t ++ row ∷ []) l.split
        ∙ append_assoc l.before (l.row ∷ l.after) (row ∷ []);
    at_path = l.at_path;
    recorded = l.recorded;
    first = l.first;
    greatest = λ r h e. elim (In-append r l.after (row ∷ []) h) [
      | inl old ↦ l.greatest r old e
      | inr (inl it) ↦ rw it (late (ap (λ (q : ObservationRow). q.relative_path) (sym it) ∙ e))
      | inr (inr never) ↦ absurd never
    ];
  }

  IsLatest-last :
      (rows : List ObservationRow) (row : ObservationRow)
      → row.relative_path ≡ path
      → Earlier path (candidate row) rows
      → IsLatest path (rows ++ row ∷ []) (candidate row)
  IsLatest-last rows row e early = record {
    before = rows;
    row = row;
    after = [];
    split = refl;
    at_path = e;
    recorded = refl;
    first = early;
    greatest = λ r h _. absurd h;
  }

  keep-Latest :
      (rows : List ObservationRow) (row : ObservationRow) (known : Option KnownPath)
      → Latest path rows known
      → Latest path (rows ++ row ∷ []) (keep path known row)
  keep-Latest rows row none l = elim (Bool-cases (text_eq row.relative_path path)) [
    | inl same ↦ rw same (
        IsLatest-last rows row ((text_eq_iff row.relative_path path).0 same)
          (λ r h e. absurd (l r h e)))
    | inr differs ↦ rw differs (λ r h e. elim (In-append r rows (row ∷ []) h) [
      | inl old ↦ l r old e
      | inr (inl it) ↦
          ne_of_text_eq row.relative_path path differs
            (ap (λ (q : ObservationRow). q.relative_path) (sym it) ∙ e)
      | inr (inr never) ↦ never
    ])
  ]
  keep-Latest rows row (some k) l = elim (Bool-cases (text_eq row.relative_path path)) [
    | inr differs ↦
        rw differs
          (IsLatest-snoc row (λ e. absurd (ne_of_text_eq row.relative_path path differs e)) l)
    | inl same ↦ rw same (elim (Bool-cases (leb row.observed_at k.observed_at)) [
      | inl kept ↦ rw kept (IsLatest-snoc row (λ e. leb→le row.observed_at k.observed_at kept) l)
      | inr replaced ↦ rw replaced (
          IsLatest-last rows row ((text_eq_iff row.relative_path path).0 same) (λ r h e.
            omega (
              arith,
              IsLatest-NoLater l r h e,
              leb-false→lt row.observed_at k.observed_at replaced,
            )))
    ])
  ]

  pick-Latest :
      (seen rows : List ObservationRow) (known : Option KnownPath)
      → Latest path seen known
      → Latest path (seen ++ rows) (pick path known rows)
  unfolding pick
  pick-Latest seen [] known l = rw append-nil l
  pick-Latest seen (row ∷ rows) known l =
      subst (λ (t : List ObservationRow). Latest path t (pick path (keep path known row) rows))
        (append_assoc seen (row ∷ []) rows)
        (pick-Latest (seen ++ row ∷ []) rows (keep path known row) (keep-Latest seen row known l))

-- For every path, the reduced state holds the first of the path's rows with the greatest timestamp,
-- and nothing for a path that has no row.
pub reduce_latest-Latest :
    (path : Text) (rows : List ObservationRow) → Latest path rows (lookup path (reduce_latest rows))
unfolding reduce_latest
reduce_latest-Latest path rows =
    rw (lookup-reduce_from path [] rows)
      (pick-Latest path [] rows (lookup path []) (unfold lookup in λ r h. absurd h))
