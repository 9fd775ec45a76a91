-- ===== src/Domain/Paths/Laws.antt =====
-- The name and the extension of a path hold no separator.
use anti_entropator.Domain.RelativePath.Laws.{components-IsName, IsName, names}
use anti_entropator.Prelude.{
  ℕ, ◌≡◌, refl, sym, false, Option, none, some, List, [], ◌∷◌, arith, All, cons_head, split_on,
  has_byte, ◌==◌, if◌then◌else◌, Bytes,
}
use anti_entropator.Domain.RelativePath.{
  Component, root_dir, cur_dir, parent_dir, normal, components,
}
use anti_entropator.Domain.Paths.{
  last_normal, file_name, last_piece, extension_pieces, extension_of, extension,
}

last_normal-plain :
    (cs : List Component) {name : Bytes}
    → All IsName (names cs)
    → last_normal cs ≡ some name
    → has_byte b'/' name ≡ false
last_normal-plain [] h e = cc
last_normal-plain (normal n ∷ []) {name} h e = let same : n ≡ name = cc in rw (sym same) (h.0.0)
last_normal-plain (root_dir ∷ []) h e = cc
last_normal-plain (cur_dir ∷ []) h e = cc
last_normal-plain (parent_dir ∷ []) h e = cc
last_normal-plain (normal n ∷ d ∷ cs) h e = last_normal-plain (d ∷ cs) h.1 e
last_normal-plain (root_dir ∷ d ∷ cs) h e = last_normal-plain (d ∷ cs) h e
last_normal-plain (cur_dir ∷ d ∷ cs) h e = last_normal-plain (d ∷ cs) h e
last_normal-plain (parent_dir ∷ d ∷ cs) h e = last_normal-plain (d ∷ cs) h e

abbrev pub Lacks : ℕ → Option Bytes → Type 0
Lacks b none = Unit
Lacks b (some s) = has_byte b s ≡ false

file_name_cases :
    (path : Bytes) (o : Option Bytes) → last_normal (components path) ≡ o → Lacks b'/' o
file_name_cases path none e = tt
file_name_cases path (some name) e = last_normal-plain (components path) (components-IsName path) e

-- The name of a file has no separator.
pub file_name-plain : (path : Bytes) → Lacks b'/' (file_name path)
unfolding file_name
file_name-plain path = file_name_cases path (last_normal (components path)) refl

pieces_step :
    (b sep c : ℕ) (pieces : List Bytes)
    → (c == b) ≡ false
    → All (λ q. has_byte b q ≡ false) pieces
    → All (λ q. has_byte b q ≡ false) (if c == sep then [] ∷ pieces else cons_head c pieces)
unfolding has_byte
pieces_step b sep c [] l h = ground arith
pieces_step b sep c (p ∷ ps) l h = ground arith

-- The pieces of a text lack what the text lacks.
pub split_on-lacks :
    (b sep : ℕ) (s : Bytes)
    → has_byte b s ≡ false
    → All (λ q. has_byte b q ≡ false) (split_on sep s)
unfolding split_on has_byte
split_on-lacks b sep [] h = (refl, tt)
split_on-lacks b sep (c ∷ s) h =
    pieces_step b sep c (split_on sep s) (ground arith) (split_on-lacks b sep s (ground arith))

last_piece-lacks :
    (b : ℕ) (p : Bytes) (ps : List Bytes)
    → All (λ q. has_byte b q ≡ false) (p ∷ ps)
    → has_byte b (last_piece p ps) ≡ false
last_piece-lacks b p [] h = h.0
last_piece-lacks b p (q ∷ qs) h = last_piece-lacks b q qs h.1

extension_pieces-Lacks :
    (b : ℕ) (ps : List Bytes) → All (λ q. has_byte b q ≡ false) ps → Lacks b (extension_pieces ps)
extension_pieces-Lacks b [] h = tt
extension_pieces-Lacks b (p ∷ []) h = tt
extension_pieces-Lacks b ([] ∷ q ∷ []) h = tt
extension_pieces-Lacks b ([] ∷ q ∷ r ∷ qs) h = last_piece-lacks b q (r ∷ qs) h.1
extension_pieces-Lacks b ((c ∷ p) ∷ q ∷ qs) h = last_piece-lacks b q qs h.1

extension_of-Lacks : (b : ℕ) (o : Option Bytes) → Lacks b o → Lacks b (extension_of o)
extension_of-Lacks b none h = tt
extension_of-Lacks b (some name) h =
    extension_pieces-Lacks b (split_on b'.' name) (split_on-lacks b b'.' name h)

-- Nor has its extension.
pub extension-plain : (path : Bytes) → Lacks b'/' (extension path)
unfolding extension
extension-plain path = extension_of-Lacks b'/' (file_name path) (file_name-plain path)
