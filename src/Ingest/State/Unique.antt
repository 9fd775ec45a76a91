-- ===== src/Ingest/State/Unique.antt =====
-- A path has at most one first latest row.
use mathlib.Core.Path.{subst}
use anti_entropator.Prelude.{
  In-append_right, ◌≤◌, ◌<◌, ◌≡◌, refl, sym, ap, ◌∙◌, inl, inr, List, [], ◌∷◌, ◌++◌, arith, In,
  Text,
}
use anti_entropator.Ingest.State.{KnownPath, ObservationRow, candidate}
use anti_entropator.Ingest.State.Latest.{Earlier, NoLater, IsLatest}

module _ (path : Text) where
  -- Two splits of one list at a first greatest row are one.
  same_row :
      (b c : List ObservationRow) (r s : ObservationRow) (x y : List ObservationRow)
      → b ++ r ∷ x ≡ c ++ s ∷ y
      → r.relative_path ≡ path
      → s.relative_path ≡ path
      → Earlier path (candidate r) b
      → NoLater path (candidate r) x
      → Earlier path (candidate s) c
      → NoLater path (candidate s) y
      → r ≡ s
  same_row [] [] r s x y e p q early late early' late' = cc
  same_row [] (d ∷ ds) r s x y e p q early late early' late' =
      let head : r ≡ d = cc in
      let tail : x ≡ ds ++ s ∷ y = cc in
      let at : In s x = rw tail (In-append_right s ds (s ∷ y) (inl refl)) in
      let less : d.observed_at < s.observed_at =
        early' d (inl refl) (ap (λ (t : ObservationRow). t.relative_path) (sym head) ∙ p) in
      let more : s.observed_at ≤ r.observed_at = late s at q in
      let same : r.observed_at ≡ d.observed_at = ap (λ (t : ObservationRow). t.observed_at) head in
      absurd (omega (arith, less, more, same))
  same_row (b ∷ bs) [] r s x y e p q early late early' late' =
      let head : b ≡ s = cc in
      let tail : bs ++ r ∷ x ≡ y = cc in
      let at : In r y = rw (sym tail) (In-append_right r bs (r ∷ x) (inl refl)) in
      let less : b.observed_at < r.observed_at =
        early b (inl refl) (ap (λ (t : ObservationRow). t.relative_path) head ∙ q) in
      let more : r.observed_at ≤ s.observed_at = late' r at p in
      let same : b.observed_at ≡ s.observed_at = ap (λ (t : ObservationRow). t.observed_at) head in
      absurd (omega (arith, less, more, same))
  same_row (b ∷ bs) (c ∷ cs) r s x y e p q early late early' late' =
      let tail : bs ++ r ∷ x ≡ cs ++ s ∷ y = cc in
      same_row bs cs r s x y tail p q (λ t h. early t (inr h)) late (λ t h. early' t (inr h)) late'

  pub IsLatest-unique :
      {rows : List ObservationRow} {k n : KnownPath}
      → IsLatest path rows k
      → IsLatest path rows n
      → k ≡ n
  IsLatest-unique l m =
      let same : l.row ≡ m.row =
        same_row l.before m.before l.row m.row l.after m.after (sym l.split ∙ m.split) l.at_path
          m.at_path (subst (λ q. Earlier path q l.before) l.recorded l.first)
          (subst (λ q. NoLater path q l.after) l.recorded l.greatest)
          (subst (λ q. Earlier path q m.before) m.recorded m.first)
          (subst (λ q. NoLater path q m.after) m.recorded m.greatest) in
      l.recorded ∙ ap candidate same ∙ sym m.recorded
