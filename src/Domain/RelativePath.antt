-- ===== src/Domain/RelativePath.antt =====
-- src/domain/observation.rs `normalize_relative_path`: the catalog form of a path.
-- A path is its bytes, as `OsStr` is on Unix; `components` is that of `std::path`. The lossy printing of a
-- path, `Path::display`, is a parameter.
pub mod Laws
mod Tests
use anti_entropator.Prelude.{
  ◌||◌, ◌==◌, List, [], ◌∷◌, Text, Bytes, ascii, text_eq, split_on, join, Result, ok, err,
  non_utf8_path, ◌>>=◌, if◌then◌else◌,
}
use anti_entropator.Domain.Utf8.{is_utf8}

-- `std::path::Component` on Unix, where there are no prefixes.
pub data Component : Type 0 where
  root_dir cur_dir parent_dir : Component
  normal : Bytes → Component

-- A piece between separators that is not the first: empty pieces and `.` are dropped.
abbrev inner_pieces : List Bytes → List Component
inner_pieces [] = []
inner_pieces (p ∷ ps) =
    let rest = inner_pieces ps in
    if text_eq p [] || text_eq p (ascii ".")
    then rest
    else if text_eq p (ascii "..")
    then parent_dir ∷ rest
    else normal p ∷ rest

-- The first piece: empty before a leading separator, and `.` is kept there.
abbrev first_piece : Bytes → List Component → List Component
first_piece p rest =
    if text_eq p []
    then rest
    else if text_eq p (ascii ".")
    then cur_dir ∷ rest
    else if text_eq p (ascii "..")
    then parent_dir ∷ rest
    else normal p ∷ rest

abbrev pieces_to_components : List Bytes → List Component
pieces_to_components [] = []
pieces_to_components (p ∷ ps) = first_piece p (inner_pieces ps)

-- `path.components()`
unfoldable pub components : Bytes → List Component
components [] = []
components (c ∷ s) =
    if c == b'/'
    then root_dir ∷ inner_pieces (split_on b'/' s)
    else pieces_to_components (split_on b'/' (c ∷ s))

module _ (display : Bytes → Text) where
  -- The loop: normal components must be UTF-8, the others are skipped.
  normal_parts : Bytes → List Component → Result (List Text)
  normal_parts path [] = ok []
  normal_parts path (normal s ∷ cs) =
      if is_utf8 s
      then (do parts ← normal_parts path cs; ok (s ∷ parts))
      else err (non_utf8_path (display path))
  normal_parts path (_ ∷ cs) = normal_parts path cs

  unfoldable pub normalize_relative_path : Bytes → Result Text
  unfolding normal_parts
  normalize_relative_path path = do
    parts ← normal_parts path (components path)
    ok (join b'/' parts)
