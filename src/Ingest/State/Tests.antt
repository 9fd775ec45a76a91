-- ===== src/Ingest/State/Tests.antt =====
-- The unit tests of src/ingest/state.rs.
use anti_entropator.Prelude.{
  ℕ, ◌≡◌, refl, ◌↔◌, some, List, [], ◌∷◌, ◌++◌, arith, lookup, insert, Text, ascii, text_eq,
}
use anti_entropator.Ingest.State.{
  KnownPath, ObservationRow, unchanged, decide, reduce_row, reduce_latest,
}
use anti_entropator.Ingest.State.Latest.{IsLatest, Latest, reduce_latest-Latest}
use anti_entropator.Ingest.State.Order.{TiesAgree, reduce_latest_order}
use anti_entropator.Ingest.State.Decision.{decide-unchanged, decide-appended}

abbrev row : Text → Text → ℕ → ObservationRow
row path hash at = record { relative_path = path; content_hash = hash; observed_at = at }

abbrev a_b_a : List ObservationRow
a_b_a =
    row (ascii "a") (ascii "hA") 10
    ∷ row (ascii "a") (ascii "hB") 20
    ∷ row (ascii "a") (ascii "hA") 30
    ∷ []

reduce_latest_runs :
    lookup (ascii "a") (reduce_latest a_b_a)
    ≡ some (record { content_hash = ascii "hA"; observed_at = 30 })
unfolding reduce_latest reduce_row lookup insert text_eq
reduce_latest_runs = refl

abbrev forward_rows : List ObservationRow
forward_rows = row (ascii "a") (ascii "h1") 10 ∷ row (ascii "a") (ascii "h2") 20 ∷ []

abbrev backward_rows : List ObservationRow
backward_rows = row (ascii "a") (ascii "h2") 20 ∷ row (ascii "a") (ascii "h1") 10 ∷ []

forward_rows_agree : TiesAgree forward_rows
forward_rows_agree r s p q same at = ground arith

reduce_latest_order_example :
    lookup (ascii "a") (reduce_latest forward_rows)
    ≡ lookup (ascii "a") (reduce_latest backward_rows)
reduce_latest_order_example =
    reduce_latest_order (ascii "a") forward_rows backward_rows (λ r h. ground arith)
      (λ r h. ground arith) forward_rows_agree

reduce_latest-Latest_example : Latest (ascii "a") a_b_a (lookup (ascii "a") (reduce_latest a_b_a))
reduce_latest-Latest_example = reduce_latest-Latest (ascii "a") a_b_a

decide-unchanged_example :
    (decide (some (reduce_latest a_b_a)) (ascii "a") (ascii "hA") ≡ unchanged)
    ↔ ((k : KnownPath) × IsLatest (ascii "a") a_b_a k × (k.content_hash ≡ ascii "hA"))
decide-unchanged_example = decide-unchanged a_b_a (ascii "a") (ascii "hA")

decide-appended_example :
    decide
      (some (reduce_latest (forward_rows ++ row (ascii "a") (ascii "h1") 30 ∷ [])))
      (ascii "a")
      (ascii "h1")
    ≡ unchanged
decide-appended_example =
    decide-appended forward_rows (row (ascii "a") (ascii "h1") 30) (λ r h e. ground arith)
