-- ===== src/Ingest/Collect/Filtered.antt =====
-- The loop over the walk, by the verdicts of the filters: its order and its limit.
use mathlib.Core.List.{append_assoc, append-nil}
use anti_entropator.Prelude.{
  ℕ, zero, suc, ◌+◌, ◌≡◌, refl, ap, ◌∙◌, inl, inr, Bool, true, false, Option, none, some, List, [],
  ◌∷◌, ◌++◌, map, arith, length, take, filter, All, length-append, Result, ok, leb, Bool-cases,
  ascii,
}
use anti_entropator.Ingest.Collect.{
  IngestArgs, Entry, Globs, parse_patterns, accepts, reached, collect_entries, collect_files,
}
use anti_entropator.Domain.FileInfo.{FilePath}

-- The limit counts files after one has been added, so that it is never below one.
abbrev at_least_one : ℕ → ℕ
at_least_one zero = 1
at_least_one (suc n) = suc n

abbrev pub cut : (limit : Option ℕ) → List FilePath → List FilePath
cut none files = files
cut (some limit) files = take (at_least_one limit) files

module _ (globs : Globs) (exclude include : List globs.Pattern) (args : IngestArgs)
    (verdict : Entry → Bool) where
  -- The filters can be decided on every entry.
  abbrev pub Decides : List Entry → Type 0
  Decides entries = All (λ e. accepts globs exclude include args e ≡ ok (verdict e)) entries

  abbrev pub wanted : List Entry → List FilePath
  wanted entries = map (λ (e : Entry). e.path) (filter verdict entries)

  abbrev read : List Entry → List (Result Entry)
  read entries = map ok entries

  refused :
      (e : Entry) (rest : List (Result Entry)) (files : List FilePath)
      → accepts globs exclude include args e ≡ ok false
      → collect_entries globs exclude include args (ok e ∷ rest) files
        ≡ collect_entries globs exclude include args rest files
  unfolding collect_entries
  refused e rest files h = rw (collect_entries, h) refl

  goes_on :
      (e : Entry) (rest : List (Result Entry)) (files : List FilePath)
      → accepts globs exclude include args e ≡ ok true
      → reached globs args.limit (files ++ e.path ∷ []) ≡ false
      → collect_entries globs exclude include args (ok e ∷ rest) files
        ≡ collect_entries globs exclude include args rest (files ++ e.path ∷ [])
  unfolding collect_entries
  goes_on e rest files h r = rw (collect_entries, h, r) refl

  stops :
      (e : Entry) (rest : List (Result Entry)) (files : List FilePath)
      → accepts globs exclude include args e ≡ ok true
      → reached globs args.limit (files ++ e.path ∷ []) ≡ true
      → collect_entries globs exclude include args (ok e ∷ rest) files ≡ ok (files ++ e.path ∷ [])
  unfolding collect_entries
  stops e rest files h r = rw (collect_entries, h, r) refl

  limit_is :
      (o : Option ℕ) (files : List FilePath) {b : Bool}
      → args.limit ≡ o
      → reached globs o files ≡ b
      → reached globs args.limit files ≡ b
  limit_is o files l h = ap (λ (x : Option ℕ). reached globs x files) l ∙ h

  regrouped :
      (files : List FilePath) (p : FilePath) (rest : List FilePath)
      → ok ((files ++ p ∷ []) ++ rest) ≡ ok (files ++ p ∷ rest)
  regrouped files p rest = ap (λ (fs : List FilePath). ok fs) (append_assoc files (p ∷ []) rest)

  unlimited :
      (entries : List Entry) (files : List FilePath)
      → args.limit ≡ none
      → Decides entries
      → collect_entries globs exclude include args (read entries) files
        ≡ ok (files ++ wanted entries)
  unfolding collect_entries
  unlimited [] files l h = rw (append-nil files) refl
  unlimited (e ∷ es) files l h = elim (Bool-cases (verdict e)) [
    | inl v ↦
        let said : accepts globs exclude include args e ≡ ok true = rw v at (h.0) in
        rw v (
          goes_on e (read es) files said (limit_is none (files ++ e.path ∷ []) l refl)
          ∙ unlimited es (files ++ e.path ∷ []) l h.1
          ∙ regrouped files e.path (wanted es))
    | inr v ↦
        let said : accepts globs exclude include args e ≡ ok false = rw v at (h.0) in
        rw v (refused e (read es) files said ∙ unlimited es files l h.1)
  ]

  reached_last :
      (n : ℕ) (files : List FilePath) (p : FilePath)
      → length files + 1 ≡ at_least_one n
      → leb n (length (files ++ p ∷ [])) ≡ true
  reached_last zero files p h = ground (arith, length-append files (p ∷ []))
  reached_last (suc n) files p h = ground (arith, length-append files (p ∷ []))

  not_reached :
      (n k : ℕ) (files : List FilePath) (p : FilePath)
      → length files + suc (suc k) ≡ at_least_one n
      → leb n (length (files ++ p ∷ [])) ≡ false
  not_reached zero k files p h = absurd (omega arith)
  not_reached (suc n) k files p h = ground (arith, length-append files (p ∷ []))

  room_left :
      (n k : ℕ) (files : List FilePath) (p : FilePath)
      → length files + suc (suc k) ≡ at_least_one n
      → length (files ++ p ∷ []) + suc k ≡ at_least_one n
  room_left n k files p h = omega (arith, length-append files (p ∷ []))

  limited :
      (n k : ℕ) (entries : List Entry) (files : List FilePath)
      → args.limit ≡ some n
      → length files + suc k ≡ at_least_one n
      → Decides entries
      → collect_entries globs exclude include args (read entries) files
        ≡ ok (files ++ take (suc k) (wanted entries))
  unfolding collect_entries
  limited n k [] files l room h = rw (append-nil files) refl
  limited n zero (e ∷ es) files l room h = elim (Bool-cases (verdict e)) [
    | inl v ↦
        let said : accepts globs exclude include args e ≡ ok true = rw v at (h.0) in
        rw v (
          stops e (read es) files said
            (limit_is (some n) (files ++ e.path ∷ []) l (reached_last n files e.path room)))
    | inr v ↦
        let said : accepts globs exclude include args e ≡ ok false = rw v at (h.0) in
        rw v (refused e (read es) files said ∙ limited n zero es files l room h.1)
  ]
  limited n (suc k) (e ∷ es) files l room h = elim (Bool-cases (verdict e)) [
    | inl v ↦
        let said : accepts globs exclude include args e ≡ ok true = rw v at (h.0) in
        rw v (
          goes_on e (read es) files said
            (limit_is (some n) (files ++ e.path ∷ []) l (not_reached n k files e.path room))
          ∙ limited n k es (files ++ e.path ∷ []) l (room_left n k files e.path room) h.1
          ∙ regrouped files e.path (take (suc k) (wanted es)))
    | inr v ↦
        let said : accepts globs exclude include args e ≡ ok false = rw v at (h.0) in
        rw v (refused e (read es) files said ∙ limited n (suc k) es files l room h.1)
  ]

  collected :
      (o : Option ℕ) (entries : List Entry)
      → args.limit ≡ o
      → Decides entries
      → collect_entries globs exclude include args (read entries) [] ≡ ok (cut o (wanted entries))
  collected none entries l h = unlimited entries [] l h
  collected (some zero) entries l h = limited zero zero entries [] l refl h
  collected (some (suc n)) entries l h = limited (suc n) n entries [] l (omega arith) h

  -- The candidates, by the verdicts.
  pub collect_files-verdict :
      (entries : List Entry)
      → parse_patterns globs (ascii "exclude") args.exclude ≡ ok exclude
      → parse_patterns globs (ascii "include") args.include ≡ ok include
      → Decides entries
      → collect_files globs (map ok entries) args ≡ ok (cut args.limit (wanted entries))
  unfolding collect_files
  collect_files-verdict entries ex inc h =
      rw (collect_files, ex, inc) (collected args.limit entries refl h)
