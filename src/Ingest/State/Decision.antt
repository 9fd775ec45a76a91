-- ===== src/Ingest/State/Decision.antt =====
-- When a scanned path is left without a new observation.
use mathlib.Core.Path.{subst}
use anti_entropator.Prelude.{
  ◌≤◌, ◌≡◌, refl, ap, ◌↔◌, inl, inr, Option, none, some, List, [], ◌∷◌, ◌++◌, arith, In-append,
  In-append_right, lookup, Text, text_eq_refl, text_eq_iff,
}
use anti_entropator.Ingest.State.{
  KnownPath, ObservationRow, unchanged, decide_known, decide, candidate, reduce_latest,
}
use anti_entropator.Ingest.State.Unique.{IsLatest-unique}
use anti_entropator.Ingest.State.Latest.{
  Earlier, IsLatest, Latest, IsLatest-In, IsLatest-NoLater, reduce_latest-Latest,
}

pub decide_known-unchanged :
    (o : Option KnownPath) (h : Text)
    → decide_known o h ≡ unchanged
    → (k : KnownPath) × (o ≡ some k) × (k.content_hash ≡ h)
decide_known-unchanged none h e = cc
decide_known-unchanged (some k) h e = (k, refl, (text_eq_iff k.content_hash h).0 (ground arith))

-- The first of the latest rows is unique.
known_as_first :
    (rows : List ObservationRow) (path : Text) (k : KnownPath) (o : Option KnownPath)
    → IsLatest path rows k
    → Latest path rows o
    → o ≡ some k
known_as_first rows path k none l m = absurd (m l.row (IsLatest-In l) l.at_path)
known_as_first rows path k (some n) l m = ap (λ (q : KnownPath). some q) (IsLatest-unique path m l)

-- Against the reduced catalog, a path is unchanged exactly when it has a row with the scanned content
-- that no row of the path is later than and that is the first such.
pub decide-unchanged :
    (rows : List ObservationRow) (path hash : Text)
    → (decide (some (reduce_latest rows)) path hash ≡ unchanged)
      ↔ ((k : KnownPath) × IsLatest path rows k × (k.content_hash ≡ hash))
unfolding decide
decide-unchanged rows path hash = (
  λ e.
      let (k, known, same) = decide_known-unchanged (lookup path (reduce_latest rows)) hash e in
      (k, subst (Latest path rows) known (reduce_latest-Latest path rows), same),
  λ (k, l, same).
      rw
        (
          known_as_first rows path k (lookup path (reduce_latest rows)) l
              (reduce_latest-Latest path rows),
          same,
          text_eq_refl hash,
        )
        refl,
)

Latest-row :
    (rows : List ObservationRow) (row : ObservationRow) (o : Option KnownPath)
    → Earlier row.relative_path (candidate row) rows
    → Latest row.relative_path (rows ++ row ∷ []) o
    → o ≡ some (candidate row)
Latest-row rows row none early l =
    absurd (l row (In-append_right row rows (row ∷ []) (inl refl)) refl)
Latest-row rows row (some k) early l = elim (In-append l.row rows (row ∷ []) (IsLatest-In l)) [
  | inl old ↦ absurd (omega (arith, early l.row old l.at_path, late, at))
  | inr (inl it) ↦ cc (it, l.recorded)
  | inr (inr never) ↦ absurd never
]
  where
    late : row.observed_at ≤ k.observed_at
    late =
        IsLatest-NoLater row.relative_path l row (In-append_right row rows (row ∷ []) (inl refl))
          refl

    at : k.observed_at ≡ l.row.observed_at
    at = ap (λ (q : KnownPath). q.observed_at) l.recorded

-- Against the reduced catalog of some rows and one more, later than all the rows of its path: `decide`
-- answers that the path of that row is unchanged for the content that the row records.
pub decide-appended :
    (rows : List ObservationRow) (row : ObservationRow)
    → Earlier row.relative_path (candidate row) rows
    → decide (some (reduce_latest (rows ++ row ∷ []))) row.relative_path row.content_hash
      ≡ unchanged
unfolding decide
decide-appended rows row early = rw (
  Latest-row rows row (lookup row.relative_path (reduce_latest (rows ++ row ∷ []))) early
      (reduce_latest-Latest row.relative_path (rows ++ row ∷ [])),
  text_eq_refl row.content_hash,
)
