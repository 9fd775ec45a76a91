-- ===== src/Domain/Stats.antt =====
-- src/domain/stats.rs: the statistics of the profile command. A hash map is an association list; the
-- arithmetic on `f64` is not part of the program: the rounded index of a percentile is a parameter,
-- and the average, which is a `f64`, is left out.
pub mod Totals
mod Tests
use anti_entropator.Prelude.{
  ℕ, zero, suc, ◌+◌, ◌-◌, Option, none, List, [], ◌∷◌, ◌++◌, length, take, is_empty, TextMap, ltb,
  leb, ◌==◌, if◌then◌else◌, u64, max_u64, Text,
}

pub record GroupStats : Type 0 where
  pub count : ℕ  -- u64
  pub total_bytes : ℕ  -- u64
  pub min_bytes : ℕ  -- u64
  pub max_bytes : ℕ  -- u64
  pub largest_path : Text
  pub sizes : List ℕ

unfoldable pub new_group : GroupStats
new_group = record {
  count = 0;
  total_bytes = 0;
  min_bytes = max_u64;
  max_bytes = 0;
  largest_path = [];
  sizes = [];
}

unfoldable pub add : GroupStats → (size : ℕ) → (path : Text) → GroupStats
add s size path = record {
  count = u64 (s.count + 1);
  total_bytes = u64 (s.total_bytes + size);
  min_bytes = if ltb size s.min_bytes then size else s.min_bytes;
  max_bytes = if ltb s.max_bytes size then size else s.max_bytes;
  largest_path = if ltb s.max_bytes size then path else s.largest_path;
  sizes = s.sizes ++ size ∷ [];
}

abbrev insert_size : ℕ → List ℕ → List ℕ
insert_size n [] = n ∷ []
insert_size n (m ∷ ms) = let rest = insert_size n ms in if leb n m then n ∷ m ∷ ms else m ∷ rest

-- `sort_unstable`; equal numbers cannot be told apart.
unfoldable pub sort_sizes : List ℕ → List ℕ
sort_sizes [] = []
sort_sizes (n ∷ ns) = insert_size n (sort_sizes ns)

abbrev nth_or_zero : ℕ → List ℕ → ℕ
nth_or_zero i [] = 0
nth_or_zero zero (n ∷ ns) = n
nth_or_zero (suc i) (n ∷ ns) = nth_or_zero i ns

-- `rounded p n` is `((p as f64 / 100.0) * n as f64).round() as usize`.
unfoldable pub percentile : (rounded : ℕ → ℕ → ℕ) → GroupStats → ℕ → ℕ
percentile rounded s p =
    if is_empty s.sizes
    then 0
    else nth_or_zero (rounded p (length (sort_sizes s.sizes) - 1)) (sort_sizes s.sizes)

unfoldable pub finalize_group : GroupStats → GroupStats
finalize_group s = if s.count == 0 then record s { min_bytes = 0 } else s

pub record DuplicateGroup : Type 0 where
  pub count : ℕ  -- u64
  pub size_bytes : ℕ  -- u64
  pub sample_paths : List Text

pub record DuplicateEstimate : Type 0 where
  pub size_candidate_groups : ℕ  -- u64
  pub quickhash_confirmed_groups : ℕ  -- u64
  pub files_hashed : ℕ  -- u64
  pub hash_cap : Option ℕ
  pub files_not_examined : ℕ  -- u64
  pub hash_errors : ℕ  -- u64
  pub reclaimable_bytes : ℕ  -- u64
  pub top_groups : List DuplicateGroup

abbrev pub no_estimate : DuplicateEstimate
no_estimate = record {
  size_candidate_groups = 0;
  quickhash_confirmed_groups = 0;
  files_hashed = 0;
  hash_cap = none;
  files_not_examined = 0;
  hash_errors = 0;
  reclaimable_bytes = 0;
  top_groups = [];
}

pub record ProfileError : Type 0 where
  pub path : Text
  pub error : Text

pub record ProfileResult : Type 0 where
  pub path : Text
  pub file_count : ℕ  -- u64
  pub dir_count : ℕ  -- u64
  pub symlink_count : ℕ  -- u64
  pub total_bytes : ℕ  -- u64
  pub zero_byte_count : ℕ  -- u64
  pub by_extension : TextMap GroupStats
  pub by_mime : TextMap GroupStats
  pub by_category : TextMap GroupStats
  pub largest_files : List (ℕ × Text)
  pub no_extension_examples : List Text
  pub name_patterns : TextMap ℕ
  pub duplicate_estimate : DuplicateEstimate
  pub errors : List ProfileError

unfoldable pub new_profile : Text → ProfileResult
new_profile path = record {
  path = path;
  file_count = 0;
  dir_count = 0;
  symlink_count = 0;
  total_bytes = 0;
  zero_byte_count = 0;
  by_extension = [];
  by_mime = [];
  by_category = [];
  largest_files = [];
  no_extension_examples = [];
  name_patterns = [];
  duplicate_estimate = no_estimate;
  errors = [];
}

unfoldable pub finalize_values : TextMap GroupStats → TextMap GroupStats
finalize_values [] = []
finalize_values ((k, s) ∷ m) = (k, finalize_group s) ∷ finalize_values m

abbrev insert_largest : ℕ × Text → List (ℕ × Text) → List (ℕ × Text)
insert_largest f [] = f ∷ []
insert_largest f (g ∷ gs) =
    let rest = insert_largest f gs in if leb g.0 f.0 then f ∷ g ∷ gs else g ∷ rest

-- Stable, the larger first.
unfoldable pub sort_largest : List (ℕ × Text) → List (ℕ × Text)
sort_largest [] = []
sort_largest (f ∷ fs) = insert_largest f (sort_largest fs)

unfoldable pub finalize_profile : ProfileResult → ProfileResult
finalize_profile r = record r {
  by_extension = finalize_values r.by_extension;
  by_mime = finalize_values r.by_mime;
  by_category = finalize_values r.by_category;
  largest_files = take 15 (sort_largest r.largest_files);
}
