-- ===== src/Domain/RelativePath/Tests.antt =====
-- The paths of the unit tests in src/domain/observation.rs.
use anti_entropator.Prelude.{
  ◌≡◌, refl, [], ◌∷◌, ◌++◌, map, if◌then◌else◌, all, ascii, text_eq, non_utf8_path, ok, err, Bytes,
  Text, split_on, join,
}
use anti_entropator.Domain.Utf8.{is_utf8}
use anti_entropator.Domain.RelativePath.{normal, components, normalize_relative_path}
use anti_entropator.Domain.RelativePath.Laws.{
  names, normalize_relative_path-eq, components-normalize_relative_path,
  normalize_relative_path_idem,
}

abbrev printed : Bytes → Text
printed path = ascii "lossy: " ++ path

normalize_relative_path_runs :
    (normalize_relative_path printed (ascii "a/b/c.txt") ≡ ok (ascii "a/b/c.txt"))
    × (normalize_relative_path printed (ascii "./a/b.txt") ≡ ok (ascii "a/b.txt"))
    × (normalize_relative_path printed (ascii "/x/../y/./z") ≡ ok (ascii "x/y/z"))
    × (normalize_relative_path printed [] ≡ ok [])
    × (normalize_relative_path printed (ascii "a/f" ++ 0xff ∷ [])
        ≡ err (non_utf8_path (printed (ascii "a/f" ++ 0xff ∷ []))))
unfolding normalize_relative_path components is_utf8 split_on join text_eq
normalize_relative_path_runs = (refl, refl, refl, refl, refl)

normalize_relative_path_dotted :
    normalize_relative_path printed (ascii "./a/b.txt") ≡ ok (ascii "a/b.txt")
unfolding normalize_relative_path components is_utf8 split_on join text_eq
normalize_relative_path_dotted = refl

components-normalize_relative_path_example :
    components (ascii "a/b.txt") ≡ map normal (names (components (ascii "./a/b.txt")))
components-normalize_relative_path_example =
    components-normalize_relative_path printed (ascii "./a/b.txt") normalize_relative_path_dotted

normalize_relative_path_idem_example :
    normalize_relative_path printed (ascii "a/b.txt") ≡ ok (ascii "a/b.txt")
normalize_relative_path_idem_example =
    normalize_relative_path_idem printed (ascii "./a/b.txt") normalize_relative_path_dotted

normalize_relative_path-eq_example : normalize_relative_path printed (ascii "a" ++ 0xff ∷ []) ≡ (
    if all is_utf8 (names (components (ascii "a" ++ 0xff ∷ [])))
    then ok (join b'/' (names (components (ascii "a" ++ 0xff ∷ []))))
    else err (non_utf8_path (printed (ascii "a" ++ 0xff ∷ []))))
normalize_relative_path-eq_example = normalize_relative_path-eq printed (ascii "a" ++ 0xff ∷ [])
