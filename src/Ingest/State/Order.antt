-- ===== src/Ingest/State/Order.antt =====
-- The reduction and the order in which the catalog returns the rows.
use anti_entropator.Prelude.{
  ◌≤◌, ◌≡◌, refl, sym, ap, ◌∙◌, Option, none, some, List, arith, In, lookup, Text,
}
use anti_entropator.Ingest.State.{KnownPath, ObservationRow, reduce_latest}
use anti_entropator.Ingest.State.Latest.{
  Latest, IsLatest-In, IsLatest-NoLater, reduce_latest-Latest,
}

-- Rows of one path with one timestamp record one content.
abbrev pub TiesAgree : List ObservationRow → Type 0
TiesAgree rows =
    (r s : ObservationRow)
    → In r rows
    → In s rows
    → r.relative_path ≡ s.relative_path
    → r.observed_at ≡ s.observed_at
    → r.content_hash ≡ s.content_hash

module _ (path : Text) (xs ys : List ObservationRow)
    (forward : (r : ObservationRow) → In r xs → In r ys)
    (backward : (r : ObservationRow) → In r ys → In r xs) (ties : TiesAgree xs) where
  Latest-agree : (o p : Option KnownPath) → Latest path xs o → Latest path ys p → o ≡ p
  Latest-agree none none l m = refl
  Latest-agree none (some k) l m = absurd (l m.row (backward m.row (IsLatest-In m)) m.at_path)
  Latest-agree (some k) none l m = absurd (m l.row (forward l.row (IsLatest-In l)) l.at_path)
  Latest-agree (some j) (some k) l m =
      let there : l.row.observed_at ≤ k.observed_at =
        IsLatest-NoLater path m l.row (forward l.row (IsLatest-In l)) l.at_path in
      let here : m.row.observed_at ≤ j.observed_at =
        IsLatest-NoLater path l m.row (backward m.row (IsLatest-In m)) m.at_path in
      let j_at : j.observed_at ≡ l.row.observed_at =
        ap (λ (q : KnownPath). q.observed_at) l.recorded in
      let k_at : k.observed_at ≡ m.row.observed_at =
        ap (λ (q : KnownPath). q.observed_at) m.recorded in
      let at : l.row.observed_at ≡ m.row.observed_at = omega (arith, there, here, j_at, k_at) in
      let hash : l.row.content_hash ≡ m.row.content_hash =
        ties l.row m.row (IsLatest-In l) (backward m.row (IsLatest-In m))
          (l.at_path ∙ sym m.at_path) at in
      cc (l.recorded, m.recorded, at, hash)

  -- Two lists with the same rows, in whatever order and however often, reduce to the same known
  -- content of every path, if rows of one path with one timestamp record one content.
  pub reduce_latest_order : lookup path (reduce_latest xs) ≡ lookup path (reduce_latest ys)
  reduce_latest_order =
      Latest-agree (lookup path (reduce_latest xs)) (lookup path (reduce_latest ys))
        (reduce_latest-Latest path xs) (reduce_latest-Latest path ys)
