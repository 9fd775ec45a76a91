-- ===== src/Domain/Stats/Tests.antt =====
-- The unit tests of src/domain/stats.rs, and the statistics of two files.
use anti_entropator.Prelude.{◌/◌, ◌≡◌, refl, List, [], ◌∷◌, arith, ascii}
use anti_entropator.Domain.Stats.{new_group, add, sort_sizes, percentile, finalize_group}
use anti_entropator.Domain.Stats.Totals.{Sized, add_all, IsSummary, add_all-IsSummary}

add_runs : (add new_group 1024 (ascii "/test/file.txt")).min_bytes ≡ 1024
unfolding add new_group
add_runs = refl

finalize_group_runs : (finalize_group new_group).min_bytes ≡ 0
unfolding finalize_group new_group
finalize_group_runs = refl

abbrev two_files : List Sized
two_files = (10, ascii "/a") ∷ (20, ascii "/b") ∷ []

-- The median of three sizes, with the index that the rounding gives.
median_runs : percentile (λ p n. n / 2) (add (add (add new_group 30 []) 10 []) 20 []) 50 ≡ 20
unfolding percentile add new_group sort_sizes
median_runs = refl

add_all-IsSummary_example : IsSummary two_files (add_all two_files)
add_all-IsSummary_example = add_all-IsSummary two_files (omega arith, (omega arith, tt))
