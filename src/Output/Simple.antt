-- ===== src/Output/Simple.antt =====
-- What printSimple (output.go) writes can be read back.
use dup_detector.Prelude.{
  any, ◌≡◌, ◌≢◌, refl, ap, ◌∙◌, false, List, [], ◌∷◌, ◌++◌, map, flat_map, ◌==◌, Memᴰ,
}
use mathlib.Core.List.{append_assoc}
use dup_detector.Text.{Text, split}
use dup_detector.Text.Laws.{split-cons, split-line}
use dup_detector.Files.{DupGroup}
use dup_detector.Output.{newline, group_paths, line, print_simple}

-- a path in front of the first group
abbrev add_path : Text → List (List Text) → List (List Text)
add_path p [] = []
add_path p (g ∷ groups) = (p ∷ g) ∷ groups

-- the groups in a list of lines: an empty line ends a group, and the last line is what follows the last
-- newline
abbrev groups_in : List Text → List (List Text)
groups_in [] = []
groups_in (p ∷ []) = []
groups_in ([] ∷ q ∷ lines) = [] ∷ groups_in (q ∷ lines)
groups_in ((c ∷ p) ∷ q ∷ lines) = add_path (c ∷ p) (groups_in (q ∷ lines))

-- the groups of paths in a text
abbrev pub read_simple : Text → List (List Text)
read_simple s = groups_in (split s newline)

-- a text of at least one byte, none of which is a newline
abbrev pub IsOneLine : Text → Type 0
IsOneLine p = (p ≢ []) × (any (λ c. c == newline) p ≡ false)

-- an empty line first
read_simple_end : (s : Text) → read_simple (newline ∷ s) ≡ [] ∷ read_simple s
unfolding split
read_simple_end s = let (p, parts, e) = split-cons newline s in rw e refl

-- a path first
read_simple-line :
    (p s : Text) → IsOneLine p → read_simple (line p ++ s) ≡ add_path p (read_simple s)
unfolding line
read_simple-line [] s (some_byte, h) = absurd (some_byte refl)
read_simple-line (x ∷ p) s (some_byte, h) =
    let (q, parts, e) = split-cons newline s in
    rw (append_assoc (x ∷ p) (newline ∷ []) s, split-line newline (x ∷ p) s h, e) refl

read_simple-paths :
    (paths : List Text) (s : Text)
    → ((p : Text) → Memᴰ p paths → IsOneLine p)
    → read_simple (flat_map line paths ++ newline ∷ s) ≡ paths ∷ read_simple s
unfolding flat_map
read_simple-paths [] s h = read_simple_end s
read_simple-paths (p ∷ paths) s h =
    let rest = read_simple-paths paths s (λ q m. h q (Memᴰ.tail m)) in
    rw (append_assoc (line p) (flat_map line paths) (newline ∷ s))
      (read_simple-line p _ (h p (Memᴰ.head refl)) ∙ ap (add_path p) rest)

-- The simple format can be read back, if no path is empty or holds a newline: its text tells the paths
-- of each group in their order, with empty groups too.
pub read_simple-print_simple :
    (groups : List DupGroup)
    → ((g : DupGroup) → Memᴰ g groups → (p : Text) → Memᴰ p (group_paths g) → IsOneLine p)
    → read_simple (print_simple groups) ≡ map group_paths groups
unfolding print_simple split
read_simple-print_simple [] h = refl
read_simple-print_simple (g ∷ groups) h =
    read_simple-paths (group_paths g) (print_simple groups) (h g (Memᴰ.head refl))
    ∙ ap (◌∷◌ (group_paths g)) (read_simple-print_simple groups (λ k m. h k (Memᴰ.tail m)))
