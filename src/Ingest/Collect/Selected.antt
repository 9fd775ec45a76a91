-- ===== src/Ingest/Collect/Selected.antt =====
-- What the filters ask of an entry, and the candidates that they select.
use anti_entropator.Prelude.{
  ℕ, ◌≤◌, ◌≡◌, refl, sym, ap, ◌∙◌, ◌⊎◌, ◌↔◌, inl, inr, Bool, true, false, ◌&&◌, ◌||◌, not, Option,
  none, some, List, [], ◌∷◌, map, filter, any, is_empty, All, In, arith, leb, leb→le, leb-false→lt,
  Bool-cases, Result, ok, err, is_one_of, Text, ascii, text_eq, text_eq_iff,
}
use anti_entropator.Ingest.Collect.{
  IngestArgs, Entry, Globs, parse_patterns, entry_name, entry_extension, has_type, is_wanted,
  fits_size, accepts, collect_files,
}
use anti_entropator.Ingest.Collect.Filtered.{cut, collect_files-verdict}
use anti_entropator.Domain.Category.{to_string, classify}

all_of_iff :
    (a b c d : Bool)
    → ((a && b && c && d) ≡ true) ↔ ((a ≡ true) × (b ≡ true) × (c ≡ true) × (d ≡ true))
all_of_iff a b c d = ground arith

module _ {A : Type 0} (p : A → Bool) where
  any_iff : (xs : List A) → (any p xs ≡ true) ↔ ((x : A) × In x xs × (p x ≡ true))
  any_iff [] = ((λ e. cc), λ (x, at, h). absurd at)
  any_iff (x ∷ xs) = elim (Bool-cases (p x)) [
    | inl h ↦ rw h ((λ e. (x, inl refl, h)), λ w. refl)
    | inr h ↦ rw h (
      (λ e. let (y, at, good) = (any_iff xs).0 e in (y, inr at, good)),
      λ (y, at, good). elim at [
        | inl it ↦ let bad : false ≡ true = sym h ∙ ap p (sym it) ∙ good in cc
        | inr later ↦ (any_iff xs).1 (y, later, good)
      ],
    )
  ]

  none_iff : (xs : List A) → (not (any p xs) ≡ true) ↔ All (λ x. p x ≡ false) xs
  none_iff [] = ((λ e. tt), λ h. refl)
  none_iff (x ∷ xs) = elim (Bool-cases (p x)) [
    | inl h ↦ rw h ((λ e. cc), λ a. cc (a.0))
    | inr h ↦ rw h ((λ e. (refl, (none_iff xs).0 e)), λ a. (none_iff xs).1 a.1)
  ]

  -- No filter, or one that something passes.
  empty_or_any_iff :
      (xs : List A)
      → ((is_empty xs || any p xs) ≡ true) ↔ ((xs ≡ []) ⊎ ((x : A) × In x xs × (p x ≡ true)))
  empty_or_any_iff [] = ((λ e. inl refl), λ h. refl)
  empty_or_any_iff (x ∷ xs) = (
    λ e. inr ((any_iff (x ∷ xs)).0 e),
    λ h. elim h [ inl none_there ↦ cc | inr some_there ↦ (any_iff (x ∷ xs)).1 some_there ],
  )

one_of_map_iff :
    (f : Text → Text) (s : Text) (ts : List Text)
    → (is_one_of s (map f ts) ≡ true) ↔ ((t : Text) × In t ts × (f t ≡ s))
unfolding is_one_of
one_of_map_iff f s [] = ((λ e. cc), λ (t, at, h). absurd at)
one_of_map_iff f s (t ∷ ts) = elim (Bool-cases (text_eq s (f t))) [
  | inl h ↦ rw h ((λ e. (t, inl refl, sym ((text_eq_iff s (f t)).0 h))), λ w. refl)
  | inr h ↦ rw h (
    (λ e. let (u, at, same) = (one_of_map_iff f s ts).0 e in (u, inr at, same)),
    λ (u, at, same). elim at [
      | inl it ↦
          let hit : text_eq s (f t) ≡ true = (text_eq_iff s (f t)).1 (sym same ∙ ap f it) in
          let bad : false ≡ true = sym h ∙ hit in cc
      | inr later ↦ (one_of_map_iff f s ts).1 (u, later, same)
    ],
  )
]

module _ (globs : Globs) (args : IngestArgs) where
  abbrev category_text : Entry → Text
  category_text e = to_string (classify globs.to_lowercase (entry_extension globs e) none)

  -- There is no filter on types, or a lower-cased type is the category or the lower-cased extension.
  abbrev pub HasType : Entry → Type 0
  HasType e =
      (args.types ≡ [])
      ⊎ ((t : Text) × In t args.types
          × ((globs.to_lowercase t ≡ category_text e)
              ⊎ (globs.to_lowercase t ≡ entry_extension globs e)))

  typed_iff :
      (e : Entry) (types : List Text)
      → ((is_one_of (category_text e) (map globs.to_lowercase types)
            || is_one_of (entry_extension globs e) (map globs.to_lowercase types))
          ≡ true)
        ↔ ((t : Text) × In t types
            × ((globs.to_lowercase t ≡ category_text e)
                ⊎ (globs.to_lowercase t ≡ entry_extension globs e)))
  typed_iff e types = (
    λ h. elim (Bool-cases (is_one_of (category_text e) (map globs.to_lowercase types))) [
      | inl c ↦
          let (t, at, same) = (one_of_map_iff globs.to_lowercase (category_text e) types).0 c in
          (t, at, inl same)
      | inr c ↦
          let x : is_one_of (entry_extension globs e) (map globs.to_lowercase types) ≡ true =
            rw c at h in
          let (t, at, same) =
            (one_of_map_iff globs.to_lowercase (entry_extension globs e) types).0 x in
          (t, at, inr same)
    ],
    λ (t, at, either). elim either [
      | inl same ↦
          rw ((one_of_map_iff globs.to_lowercase (category_text e) types).1 (t, at, same)) refl
      | inr same ↦
          rw ((one_of_map_iff globs.to_lowercase (entry_extension globs e) types).1 (t, at, same))
            (ground arith)
    ],
  )

  has_type_iff : (e : Entry) → (has_type globs args.types e ≡ true) ↔ HasType e
  unfolding has_type
  has_type_iff e = type_cases args.types
    where
      type_cases :
          (types : List Text)
          → (has_type globs types e ≡ true) ↔ (
              (types ≡ [])
              ⊎ ((t : Text) × In t types
                  × ((globs.to_lowercase t ≡ category_text e)
                      ⊎ (globs.to_lowercase t ≡ entry_extension globs e))))
      type_cases [] = ((λ h. inl refl), λ h. refl)
      type_cases (t ∷ ts) = (
        λ h. inr ((typed_iff e (t ∷ ts)).0 h),
        λ h. elim h [ inl none_there ↦ cc | inr found ↦ (typed_iff e (t ∷ ts)).1 found ],
      )

  -- Where there is a limit on sizes, the length can be read.
  abbrev pub Readable : Entry → Type 0
  Readable e = (max : ℕ) → args.max_size ≡ some max → (n : ℕ) × (e.metadata ≡ ok n)

  abbrev pub SmallEnough : Entry → Type 0
  SmallEnough e = (max n : ℕ) → args.max_size ≡ some max → e.metadata ≡ ok n → n ≤ max

  module _ (exclude include : List globs.Pattern) where
    abbrev matching : Entry → globs.Pattern → Bool
    matching e p = globs.matches p (entry_name globs e)

    -- The entry is a file; no pattern to exclude matches its name; a pattern to include does, if there
    -- are any; it has a wanted type and is not too large.
    abbrev pub Passes : Entry → Type 0
    Passes e =
        (e.is_file ≡ true)
        × All (λ p. globs.matches p (entry_name globs e) ≡ false) exclude
        × ((include ≡ [])
            ⊎ ((p : globs.Pattern) × In p include × (globs.matches p (entry_name globs e) ≡ true)))
        × HasType e
        × SmallEnough e

    is_wanted_iff :
        (e : Entry)
        → (is_wanted globs exclude include args.types e ≡ true) ↔ (
            (e.is_file ≡ true)
            × (not (any (matching e) exclude) ≡ true)
            × ((is_empty include || any (matching e) include) ≡ true)
            × (has_type globs args.types e ≡ true))
    unfolding is_wanted
    is_wanted_iff e =
        all_of_iff e.is_file (not (any (matching e) exclude))
          (is_empty include || any (matching e) include) (has_type globs args.types e)

    -- What a size filter decides.
    fits_size_decides :
        (e : Entry)
        → Readable e
        → (b : Bool) × (fits_size globs args.max_size e ≡ ok b) × ((b ≡ true) ↔ SmallEnough e)
    unfolding fits_size
    fits_size_decides e readable = size_cases args.max_size refl
      where
        size_cases :
            (o : Option ℕ)
            → args.max_size ≡ o
            → (b : Bool) × (fits_size globs o e ≡ ok b) × ((b ≡ true) ↔ SmallEnough e)
        size_cases none h = (true, refl, ((λ x max n m. cc), λ x. refl))
        size_cases (some max) h =
            let (n, len) = readable max h in
            (
              leb n max,
              rw len refl,
              (
                (λ fits top m at len'.
                    let same_top : top ≡ max = cc in
                    let same_len : m ≡ n = cc in rw (same_top, same_len) (leb→le n max fits)),
                λ small. elim (Bool-cases (leb n max)) [
                  | inl fits ↦ fits
                  | inr over ↦ absurd (omega (arith, small max n h len, leb-false→lt n max over))
                ],
              ),
            )

    accepts_decides :
        (e : Entry)
        → Readable e
        → (b : Bool) × (accepts globs exclude include args e ≡ ok b) × ((b ≡ true) ↔ Passes e)
    unfolding accepts
    accepts_decides e readable =
        let (fits, said, small) = fits_size_decides e readable in
        elim (Bool-cases (is_wanted globs exclude include args.types e)) [
          | inl w ↦
              let (file, kept, included, typed) = (is_wanted_iff e).0 w in
              (
                fits,
                rw (w, said) refl,
                (
                  (λ f. (
                    file,
                    (none_iff (matching e) exclude).0 kept,
                    (empty_or_any_iff (matching e) include).0 included,
                    (has_type_iff e).0 typed,
                    small.0 f,
                  )),
                  λ (a, b, c, d, s). small.1 s,
                ),
              )
          | inr w ↦ (
            false,
            rw w refl,
            (
              (λ f. cc),
              λ (file, kept, included, typed, s).
                  let yes : is_wanted globs exclude include args.types e ≡ true =
                    (is_wanted_iff e).1 (
                      file,
                      (none_iff (matching e) exclude).1 kept,
                      (empty_or_any_iff (matching e) include).1 included,
                      (has_type_iff e).1 typed,
                    ) in
                  cc,
            ),
          )
        ]

    -- The passed entries of a list, in its order.
    abbrev pub Selects : List Entry → List Entry → Type 0
    Selects [] ps = ps ≡ []
    Selects (e ∷ es) ps =
        (Passes e × ((qs : List Entry) × (ps ≡ e ∷ qs) × Selects es qs))
        ⊎ ((¬ Passes e) × Selects es ps)

    abbrev ok_or_false : Result Bool → Bool
    ok_or_false (ok b) = b
    ok_or_false (err e) = false

    abbrev verdict : Entry → Bool
    verdict e = ok_or_false (accepts globs exclude include args e)

    decided :
        (entries : List Entry)
        → All Readable entries
        → All (λ e. accepts globs exclude include args e ≡ ok (verdict e)) entries
    decided [] h = tt
    decided (e ∷ es) h =
        let (b, said, means) = accepts_decides e h.0 in (rw said refl, decided es h.1)

    verdict_iff : (e : Entry) → Readable e → (verdict e ≡ true) ↔ Passes e
    verdict_iff e readable = let (b, said, means) = accepts_decides e readable in rw said means

    filter-Selects :
        (entries : List Entry) → All Readable entries → Selects entries (filter verdict entries)
    filter-Selects [] h = refl
    filter-Selects (e ∷ es) h = elim (Bool-cases (verdict e)) [
      | inl v ↦ inl ((verdict_iff e h.0).0 v, (filter verdict es, rw v refl, filter-Selects es h.1))
      | inr v ↦ inr (
        (λ passes.
            let yes : verdict e ≡ true = (verdict_iff e h.0).1 passes in
            let bad : false ≡ true = sym v ∙ yes in cc),
        rw v (filter-Selects es h.1),
      )
    ]

    -- Where the patterns are valid, the walk has no error, and every length that is asked for can be
    -- read, the candidates are, in the order of the walk, the entries that are files, whose names match
    -- no pattern to exclude and, if there are patterns to include, match one of them, that have one of
    -- the types by category or extension, if types are given, and that are no larger than the size, if
    -- one is given; with a limit, the first of them up to the limit, but one of them even where the
    -- limit is zero.
    pub collect_files-cut :
        (entries : List Entry)
        → parse_patterns globs (ascii "exclude") args.exclude ≡ ok exclude
        → parse_patterns globs (ascii "include") args.include ≡ ok include
        → All Readable entries
        → (passed : List Entry) × Selects entries passed
          × (collect_files globs (map ok entries) args
              ≡ ok (cut args.limit (map (λ (e : Entry). e.path) passed)))
    collect_files-cut entries ex inc h = (
      filter verdict entries,
      filter-Selects entries h,
      collect_files-verdict globs exclude include args verdict entries ex inc (decided entries h),
    )
