-- ===== src/Ingest/Collect/Tests.antt =====
-- A walk over a directory and two files, without filters and with the limit zero.
use anti_entropator.Prelude.{
  ◌≡◌, refl, true, false, none, some, List, [], ◌∷◌, map, All, ok, Text, ascii, text_eq,
}
use anti_entropator.Ingest.Collect.{
  IngestArgs, Entry, Globs, parse_patterns, collect_entries, has_type, is_wanted, fits_size,
  accepts, collect_files,
}
use anti_entropator.Ingest.Collect.Filtered.{cut}
use anti_entropator.Ingest.Collect.Selected.{Readable, Selects, collect_files-cut}

abbrev plain_globs : Globs
plain_globs = record {
  Pattern = Text;
  new_pattern = ok;
  matches = λ p s. text_eq p s;
  to_string_lossy = λ b. b;
  to_lowercase = λ s. s;
}

abbrev none_at_all : IngestArgs
none_at_all = record { exclude = []; include = []; types = []; max_size = none; limit = some 0 }

abbrev file_at : Text → Entry
file_at path = record { is_file = true; path = path; metadata = ok 3 }

abbrev walk : List Entry
walk =
    record { is_file = false; path = ascii "/usb"; metadata = ok 0 }
    ∷ file_at (ascii "/usb/a.txt")
    ∷ file_at (ascii "/usb/b.txt")
    ∷ []

walk-Readable : All (Readable plain_globs none_at_all) walk
walk-Readable = ((λ max e. cc), ((λ max e. cc), ((λ max e. cc), tt)))

collect_files_runs :
    collect_files plain_globs (map ok walk) none_at_all ≡ ok (ascii "/usb/a.txt" ∷ [])
unfolding collect_files collect_entries parse_patterns accepts is_wanted fits_size has_type
collect_files_runs = refl

collect_files-cut_example :
    (passed : List Entry) × Selects plain_globs none_at_all [] [] walk passed
    × (collect_files plain_globs (map ok walk) none_at_all
        ≡ ok (cut (some 0) (map (λ (e : Entry). e.path) passed)))
unfolding parse_patterns
collect_files-cut_example =
    collect_files-cut plain_globs none_at_all [] [] walk refl refl walk-Readable
