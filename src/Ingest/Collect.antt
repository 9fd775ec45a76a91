-- ===== src/Ingest/Collect.antt =====
-- src/ingest/mod.rs `collect_files`: which files of a directory tree are candidates. The walk and the
-- glob patterns are parameters.
pub mod Filtered
pub mod Selected
mod Tests
use anti_entropator.Prelude.{
  ℕ, ◌+◌, Bool, true, false, ◌&&◌, ◌||◌, not, Option, none, some, List, [], ◌∷◌, ◌++◌, map, length,
  is_empty, any, Result, ok, err, ◌>>=◌, with_context, is_one_of, leb, if◌then◌else◌, Bytes, Text,
  ascii,
}
use anti_entropator.Domain.Category.{to_string, classify}
use anti_entropator.Domain.Paths.{file_name, extension}
use anti_entropator.Domain.FileInfo.{FilePath}

pub record IngestArgs : Type 0 where
  pub exclude : List Text
  pub include : List Text
  pub types : List Text
  pub max_size : Option ℕ
  pub limit : Option ℕ

-- An entry of the walk; its metadata is read only where a size is asked for.
pub record Entry : Type 0 where
  pub is_file : Bool
  pub path : FilePath
  pub metadata : Result ℕ

-- `glob::Pattern`, and the text operations of the standard library.
pub record Globs : Type 1 where
  pub Pattern : Type 0
  pub new_pattern : Text → Result Pattern
  pub matches : Pattern → Text → Bool
  pub to_string_lossy : Bytes → Text
  pub to_lowercase : Text → Text

-- A text of a path's part, or the empty text.
abbrev or_default : (Bytes → Text) → Option Bytes → Text
or_default f none = []
or_default f (some s) = f s

module _ (globs : Globs) where
  unfoldable pub parse_patterns : (kind : Text) → List Text → Result (List globs.Pattern)
  parse_patterns kind [] = ok []
  parse_patterns kind (p ∷ ps) = do
    pattern ←
        with_context (ascii "invalid " ++ kind ++ ascii " glob pattern: '" ++ p ++ ascii "'")
          (globs.new_pattern p)
    rest ← parse_patterns kind ps
    ok (pattern ∷ rest)

  abbrev entry_name : Entry → Text
  entry_name entry = or_default globs.to_string_lossy (file_name entry.path)

  abbrev entry_extension : Entry → Text
  entry_extension entry =
      or_default (λ e. globs.to_lowercase (globs.to_string_lossy e)) (extension entry.path)

  -- The filter on types: by the category, or by the extension.
  unfoldable pub has_type : (types : List Text) → Entry → Bool
  has_type types entry =
      is_empty types
      || (let lowered = map globs.to_lowercase types in
          is_one_of (to_string (classify globs.to_lowercase (entry_extension entry) none)) lowered
          || is_one_of (entry_extension entry) lowered)

  -- The filters on what the walk tells of an entry.
  unfoldable pub is_wanted :
      (exclude include : List globs.Pattern) → (types : List Text) → Entry → Bool
  is_wanted exclude include types entry =
      entry.is_file
      && not (any (λ p. globs.matches p (entry_name entry)) exclude)
      && (is_empty include || any (λ p. globs.matches p (entry_name entry)) include)
      && has_type types entry

  abbrev small_enough : (max : ℕ) → Entry → Result Bool
  small_enough max entry = do
    len ←
        with_context
          (ascii "Failed to read file metadata for size filtering: "
            ++ globs.to_string_lossy entry.path)
          entry.metadata
    ok (leb len max)

  -- The filter on sizes, which reads the metadata.
  unfoldable pub fits_size : (max_size : Option ℕ) → Entry → Result Bool
  fits_size none entry = ok true
  fits_size (some max) entry = small_enough max entry

  unfoldable pub accepts : (exclude include : List globs.Pattern) → IngestArgs → Entry → Result Bool
  accepts exclude include args entry =
      if is_wanted exclude include args.types entry then fits_size args.max_size entry else ok false

  abbrev reached : (limit : Option ℕ) → List FilePath → Bool
  reached none files = false
  reached (some limit) files = leb limit (length files)

  -- The loop.
  unfoldable pub collect_entries :
      (exclude include : List globs.Pattern)
      → IngestArgs
      → List (Result Entry)
      → List FilePath
      → Result (List FilePath)
  collect_entries exclude include args [] files = ok files
  collect_entries exclude include args (err e ∷ entries) files = err e
  collect_entries exclude include args (ok entry ∷ entries) files =
      elim (accepts exclude include args entry) [
        | err e ↦ err e
        | ok false ↦ collect_entries exclude include args entries files
        | ok true ↦
            let files' = files ++ entry.path ∷ [] in
            let rest = collect_entries exclude include args entries files' in
            if reached args.limit files' then ok files' else rest
      ]

  unfoldable pub collect_files : (walk : List (Result Entry)) → IngestArgs → Result (List FilePath)
  collect_files walk args = do
    exclude ← parse_patterns (ascii "exclude") args.exclude
    include ← parse_patterns (ascii "include") args.include
    collect_entries exclude include args walk []
