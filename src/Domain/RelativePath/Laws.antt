-- ===== src/Domain/RelativePath/Laws.antt =====
-- What a normalized path keeps of the path that it was made from.
use anti_entropator.Prelude.{
  ℕ, ◌≡◌, refl, sym, ap, ◌∙◌, inl, inr, false, List, [], ◌∷◌, ◌++◌, map, arith, ◌==◌, if◌then◌else◌,
  Bool-cases, all, All, Bytes, Text, ascii, text_eq, text_eq_refl, non_utf8_path, ok, err, split_on,
  join, has_byte, split_on-pieces, split_on-join,
}
use anti_entropator.Domain.Utf8.{is_utf8}
use anti_entropator.Domain.RelativePath.{
  Component, root_dir, cur_dir, parent_dir, normal, inner_pieces, first_piece, pieces_to_components,
  components, normal_parts, normalize_relative_path,
}

-- The names among the components, which are what identifies a file below a root.
abbrev pub names : List Component → List Bytes
names [] = []
names (normal s ∷ cs) = s ∷ names cs
names (_ ∷ cs) = names cs

-- A name is not empty, is not `.` or `..`, and holds no separator.
abbrev pub IsName : Bytes → Type 0
IsName s =
    (has_byte b'/' s ≡ false)
    × (text_eq s [] ≡ false)
    × (text_eq s (ascii ".") ≡ false)
    × (text_eq s (ascii "..") ≡ false)

NoSlash : List Bytes → Type 0
NoSlash ps = All (λ q. has_byte b'/' q ≡ false) ps

inner_pieces-IsName : (ps : List Bytes) → NoSlash ps → All IsName (names (inner_pieces ps))
unfolding NoSlash
inner_pieces-IsName [] h = tt
inner_pieces-IsName (p ∷ ps) h = ground (arith, inner_pieces-IsName ps h.1)

first_piece-IsName :
    (p : Bytes) (rest : List Component)
    → has_byte b'/' p ≡ false
    → All IsName (names rest)
    → All IsName (names (first_piece p rest))
first_piece-IsName p rest h k = ground arith

pieces_to_components-IsName :
    (ps : List Bytes) → NoSlash ps → All IsName (names (pieces_to_components ps))
unfolding NoSlash
pieces_to_components-IsName [] h = tt
pieces_to_components-IsName (p ∷ ps) h =
    first_piece-IsName p (inner_pieces ps) h.0 (inner_pieces-IsName ps h.1)

-- Every name among the components of a path is a proper name.
pub components-IsName : (path : Bytes) → All IsName (names (components path))
unfolding components NoSlash
components-IsName [] = tt
components-IsName (c ∷ s) = elim (Bool-cases (c == b'/')) [
  | inl e ↦ rw e (inner_pieces-IsName (split_on b'/' s) (split_on-pieces b'/' s))
  | inr e ↦
      rw e (pieces_to_components-IsName (split_on b'/' (c ∷ s)) (split_on-pieces b'/' (c ∷ s)))
]

normal_parts-eq :
    (display : Bytes → Text) (path : Bytes) (cs : List Component)
    → normal_parts display path cs
      ≡ (if all is_utf8 (names cs) then ok (names cs) else err (non_utf8_path (display path)))
unfolding normal_parts
normal_parts-eq display path [] = refl
normal_parts-eq display path (normal s ∷ cs) = ground (arith, normal_parts-eq display path cs)
normal_parts-eq display path (root_dir ∷ cs) = normal_parts-eq display path cs
normal_parts-eq display path (cur_dir ∷ cs) = normal_parts-eq display path cs
normal_parts-eq display path (parent_dir ∷ cs) = normal_parts-eq display path cs

-- A path is normalized exactly when its names are UTF-8: the result joins them by `/`, and any
-- other path is refused with the error that carries its lossy printing.
pub normalize_relative_path-eq :
    (display : Bytes → Text) (path : Bytes)
    → normalize_relative_path display path ≡ (
        if all is_utf8 (names (components path))
        then ok (join b'/' (names (components path)))
        else err (non_utf8_path (display path)))
unfolding normalize_relative_path
normalize_relative_path-eq display path =
    rw (normal_parts-eq display path (components path)) (ground arith)

inner_pieces-names : (ps : List Bytes) → All IsName ps → inner_pieces ps ≡ map normal ps
inner_pieces-names [] h = refl
inner_pieces-names (p ∷ ps) h = ground (arith, inner_pieces-names ps h.1)

All-NoSlash : (ps : List Bytes) → All IsName ps → NoSlash ps
unfolding NoSlash
All-NoSlash [] h = tt
All-NoSlash (p ∷ ps) h = (h.0.0, All-NoSlash ps h.1)

components-pieces :
    (c : ℕ) (s : Bytes)
    → (c == b'/') ≡ false
    → components (c ∷ s) ≡ pieces_to_components (split_on b'/' (c ∷ s))
unfolding components
components-pieces c s h = rw h

pieces_to_components-names :
    (p : Bytes) (ps : List Bytes)
    → All IsName (p ∷ ps)
    → pieces_to_components (p ∷ ps) ≡ map normal (p ∷ ps)
pieces_to_components-names p ps h = ground (arith, inner_pieces-names ps h.1)

join-cons :
    (sep c : ℕ) (p : Bytes) (ps : List Bytes) → (s : Bytes) × (join sep ((c ∷ p) ∷ ps) ≡ c ∷ s)
unfolding join
join-cons sep c p [] = (p, refl)
join-cons sep c p (q ∷ ps) = (p ++ sep ∷ join sep (q ∷ ps), refl)

-- The components of a joined list of names are those names.
components-join : (ps : List Bytes) → All IsName ps → components (join b'/' ps) ≡ map normal ps
unfolding NoSlash
components-join [] h = unfold components join in refl
components-join ([] ∷ ps) h = cc (h.0.1, text_eq_refl [])
components-join ((c ∷ p) ∷ ps) h =
    let (s, e) = join-cons b'/' c p ps in
    rw e (
      components-pieces c s (unfold has_byte in ground (arith, h.0.0))
      ∙ ap pieces_to_components (
          sym (ap (split_on b'/') e) ∙ split_on-join b'/' (c ∷ p) ps (All-NoSlash ((c ∷ p) ∷ ps) h))
      ∙ pieces_to_components-names (c ∷ p) ps h)

-- Where a path is normalized to a text, the components of that text are exactly the names of the
-- path, in their order and byte for byte; so two paths with one normal form have the same names.
pub components-normalize_relative_path :
    (display : Bytes → Text) (path : Bytes) {t : Text}
    → normalize_relative_path display path ≡ ok t
    → components t ≡ map normal (names (components path))
components-normalize_relative_path display path {t} h =
    let e : t ≡ join b'/' (names (components path)) =
      ground (arith, normalize_relative_path-eq display path) in
    rw e (components-join (names (components path)) (components-IsName path))

names-map : (ps : List Bytes) → names (map normal ps) ≡ ps
names-map [] = refl
names-map (p ∷ ps) = ap (λ t. p ∷ t) (names-map ps)

-- The normal form of a path is its own normal form.
pub normalize_relative_path_idem :
    (display : Bytes → Text) (path : Bytes) {t : Text}
    → normalize_relative_path display path ≡ ok t
    → normalize_relative_path display t ≡ ok t
normalize_relative_path_idem display path {t} h =
    let same : names (components t) ≡ names (components path) =
      rw (components-normalize_relative_path display path h)
        (names-map (names (components path))) in
    normalize_relative_path-eq display t
    ∙ rw same (ground (arith, normalize_relative_path-eq display path))
