-- ===== src/Domain/Stats/Totals.antt =====
-- What a group's statistics say of the files that were added to it.
use anti_entropator.Prelude.{
  ℕ, ◌+◌, ◌^◌, ◌≤◌, ◌<◌, ◌≡◌, refl, ◌⊎◌, inl, inr, List, [], ◌∷◌, arith, length, All, In, ltb,
  ltb-false→le, Bool-cases, u64, max_u64, Text,
}
use anti_entropator.Domain.Stats.{GroupStats, new_group, add}

-- A file with its size and its path.
abbrev pub Sized : Type 0
Sized = ℕ × Text

-- The statistics after the files, the last one first.
abbrev pub add_all : List Sized → GroupStats
add_all [] = new_group
add_all (f ∷ fs) = add (add_all fs) f.0 f.1

abbrev pub sum_sizes : List Sized → ℕ
sum_sizes [] = 0
sum_sizes (f ∷ fs) = f.0 + sum_sizes fs

pub record IsSummary (files : List Sized) (s : GroupStats) : Type 0 where
  pub counts : s.count ≡ u64 (length files)
  pub totals : s.total_bytes ≡ u64 (sum_sizes files)
  pub least : All (λ (f : Sized). s.min_bytes ≤ f.0) files
  pub greatest : All (λ (f : Sized). f.0 ≤ s.max_bytes) files
  pub min_seen : (files ≡ []) ⊎ ((f : Sized) × In f files × (f.0 ≡ s.min_bytes))
  pub largest_seen :
      (s.max_bytes ≡ 0) ⊎ ((f : Sized) × In f files × (f.0 ≡ s.max_bytes) × (f.1 ≡ s.largest_path))

lower :
    (m n : ℕ) (files : List Sized)
    → m ≤ n
    → All (λ (f : Sized). n ≤ f.0) files
    → All (λ (f : Sized). m ≤ f.0) files
lower m n [] h a = tt
lower m n (f ∷ fs) h a = (omega (arith, h, a.0), lower m n fs h a.1)

raise :
    (m n : ℕ) (files : List Sized)
    → m ≤ n
    → All (λ (f : Sized). f.0 ≤ m) files
    → All (λ (f : Sized). f.0 ≤ n) files
raise m n [] h a = tt
raise m n (f ∷ fs) h a = (omega (arith, h, a.0), raise m n fs h a.1)

module _ (f : Sized) (fs : List Sized) (s : GroupStats) (i : IsSummary fs s) where
  next_count : (add s f.0 f.1).count ≡ u64 (length (f ∷ fs))
  unfolding add
  next_count = omega (arith, i.counts)

  next_total : (add s f.0 f.1).total_bytes ≡ u64 (sum_sizes (f ∷ fs))
  unfolding add
  next_total = omega (arith, i.totals)

  min_falls : ((add s f.0 f.1).min_bytes ≤ f.0) × ((add s f.0 f.1).min_bytes ≤ s.min_bytes)
  unfolding add
  min_falls = ground arith

  max_grows : (f.0 ≤ (add s f.0 f.1).max_bytes) × (s.max_bytes ≤ (add s f.0 f.1).max_bytes)
  unfolding add
  max_grows = ground arith

  next_least : All (λ (g : Sized). (add s f.0 f.1).min_bytes ≤ g.0) (f ∷ fs)
  next_least = (min_falls.0, lower (add s f.0 f.1).min_bytes s.min_bytes fs min_falls.1 i.least)

  next_greatest : All (λ (g : Sized). g.0 ≤ (add s f.0 f.1).max_bytes) (f ∷ fs)
  next_greatest =
      (max_grows.0, raise s.max_bytes (add s f.0 f.1).max_bytes fs max_grows.1 i.greatest)

  next_min_seen :
      f.0 < 2 ^ 64
      → (fs ≡ [] → s.min_bytes ≡ max_u64)
      → (g : Sized) × In g (f ∷ fs) × (g.0 ≡ (add s f.0 f.1).min_bytes)
  unfolding add
  next_min_seen l first = elim (Bool-cases (ltb f.0 s.min_bytes)) [
    | inl h ↦ (f, inl refl, rw h refl)
    | inr h ↦
        let more : s.min_bytes ≤ f.0 = ltb-false→le f.0 s.min_bytes h in
        elim i.min_seen [
          | inl empty ↦ (f, inl refl, rw h (omega (arith, l, more, first empty)))
          | inr (g, at, same) ↦ (g, inr at, rw h same)
        ]
  ]

  next_largest_seen :
      ((add s f.0 f.1).max_bytes ≡ 0)
      ⊎ ((g : Sized) × In g (f ∷ fs)
          × (g.0 ≡ (add s f.0 f.1).max_bytes)
          × (g.1 ≡ (add s f.0 f.1).largest_path))
  unfolding add
  next_largest_seen = elim (Bool-cases (ltb s.max_bytes f.0)) [
    | inl h ↦ inr (f, inl refl, rw h refl, rw h refl)
    | inr h ↦ elim i.largest_seen [
      | inl z ↦ inl (rw h z)
      | inr (g, at, size, path) ↦ inr (g, inr at, rw h size, rw h path)
    ]
  ]

empty_min : (fs : List Sized) → fs ≡ [] → (add_all fs).min_bytes ≡ max_u64
unfolding new_group
empty_min [] e = refl
empty_min (f ∷ fs) e = absurd cc

-- The statistics of files whose sizes are `u64`s: the count and the total are those of the files
-- modulo 2^64, no size lies outside the least and the greatest, these are sizes of files where there
-- are files (the greatest where it is not 0), and the largest path is that of such a file.
pub add_all-IsSummary :
    (files : List Sized) → All (λ (f : Sized). f.0 < 2 ^ 64) files → IsSummary files (add_all files)
unfolding new_group
add_all-IsSummary [] h = record {
  counts = refl;
  totals = refl;
  least = tt;
  greatest = tt;
  min_seen = inl refl;
  largest_seen = inl refl;
}
add_all-IsSummary (f ∷ fs) h =
    let i : IsSummary fs (add_all fs) = add_all-IsSummary fs h.1 in
    record {
      counts = next_count f fs (add_all fs) i;
      totals = next_total f fs (add_all fs) i;
      least = next_least f fs (add_all fs) i;
      greatest = next_greatest f fs (add_all fs) i;
      min_seen = inr (next_min_seen f fs (add_all fs) i h.0 (empty_min fs));
      largest_seen = next_largest_seen f fs (add_all fs) i;
    }
