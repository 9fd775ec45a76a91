-- ===== src/Domain/Paths.antt =====
-- The operations of `std::path::Path` on Unix that the program uses, on the bytes of a path.
pub mod Laws
use anti_entropator.Prelude.{
  ℕ, ◌≡◌, refl, Option, none, some, List, [], ◌∷◌, ◌++◌, length, drop, starts_with,
  trim_start_matches, split_on, ◌==◌, if◌then◌else◌, Bytes, ascii, text_eq,
}
use anti_entropator.Domain.RelativePath.{Component, normal, components}

abbrev last_normal : List Component → Option Bytes
last_normal [] = none
last_normal (normal name ∷ []) = some name
last_normal (_ ∷ []) = none
last_normal (c ∷ d ∷ cs) = last_normal (d ∷ cs)

-- `path.file_name()`
unfoldable pub file_name : Bytes → Option Bytes
file_name path = last_normal (components path)

abbrev last_piece : Bytes → List Bytes → Bytes
last_piece p [] = p
last_piece p (q ∷ qs) = last_piece q qs

-- Behind the last dot, unless the name has none, or only one at its start.
abbrev extension_pieces : List Bytes → Option Bytes
extension_pieces [] = none
extension_pieces (p ∷ []) = none
extension_pieces ([] ∷ q ∷ []) = none
extension_pieces (p ∷ q ∷ qs) = some (last_piece q qs)

abbrev extension_of : Option Bytes → Option Bytes
extension_of none = none
extension_of (some name) = extension_pieces (split_on b'.' name)

-- `path.extension()`
unfoldable pub extension : Bytes → Option Bytes
extension path = extension_of (file_name path)

-- `path.strip_prefix(root)` for a canonical root, whose only trailing separator can be its first.
unfoldable pub strip_prefix : (root path : Bytes) → Option Bytes
strip_prefix root path =
    if text_eq root (ascii "/")
    then (if starts_with path root then some (trim_start_matches b'/' path) else none)
    else if text_eq path root
    then some []
    else if starts_with path (root ++ b'/' ∷ [])
    then some (trim_start_matches b'/' (drop (length root) path))
    else none

abbrev cons_kept : ℕ → Option Bytes → Option Bytes
cons_kept c none = none
cons_kept c (some s) = some (c ∷ s)

abbrev directory : Bytes → Option Bytes
directory [] = none
directory (c ∷ s) =
    let rest = cons_kept c (directory s) in
    elim (directory s) [ some d ↦ rest | none ↦ if c == b'/' then some [] else none ]

-- `path.parent()` for a path without doubled or trailing separators, as a directory walk gives it.
unfoldable pub parent : Bytes → Option Bytes
parent [] = none
parent (c ∷ []) = if c == b'/' then none else some []
parent (c ∷ d ∷ s) = elim (directory (d ∷ s)) [
  | some dir ↦ some (c ∷ dir)
  | none ↦ some (if c == b'/' then b'/' ∷ [] else [])
]

paths_example :
    (file_name (ascii "/a/b.tar.gz/") ≡ some (ascii "b.tar.gz"))
    × (extension (ascii "/a/b.tar.gz") ≡ some (ascii "gz"))
    × (extension (ascii "/a/.bashrc") ≡ none)
    × (extension (ascii "/a/x.") ≡ some [])
    × (strip_prefix (ascii "/a") (ascii "/a/b/c") ≡ some (ascii "b/c"))
    × (parent (ascii "b/c/d") ≡ some (ascii "b/c"))
    × (parent (ascii "b") ≡ some [])
    × (parent (ascii "/b") ≡ some (ascii "/"))
unfolding file_name extension strip_prefix parent components split_on starts_with text_eq
    trim_start_matches
paths_example = (refl, refl, refl, refl, refl, refl, refl, refl)
