-- ===== src/Text/Paths.antt =====
-- filepath.Clean and filepath.Dir on a system whose separator is `/`.
pub mod Lengths
use dup_detector.Prelude.{
  ◌+◌, Bool, not, ◌&&◌, none, some, List, [], ◌∷◌, if◌then◌else◌, list_eq, take,
}
use dup_detector.Text.{Text, codes, slash, split, join, has_prefix, last_index_byte}

-- one component, given those before it, the last one first
clean_part : Bool → Text → List Text → List Text
clean_part rooted part [] =
    if list_eq part []
    then []
    else if list_eq part (codes ".")
    then []
    else if rooted && list_eq part (codes "..")
    then []
    else part ∷ []
clean_part rooted part (last ∷ before) =
    if list_eq part []
    then last ∷ before
    else if list_eq part (codes ".")
    then last ∷ before
    else if list_eq part (codes "..") && not (list_eq last (codes ".."))
    then before
    else part ∷ last ∷ before

clean_parts : Bool → List Text → List Text → List Text
unfolding clean_part
clean_parts rooted [] done = done
clean_parts rooted (p ∷ parts) done = clean_parts rooted parts (clean_part rooted p done)

reversed : List Text → List Text → List Text
reversed [] done = done
reversed (p ∷ parts) done = reversed parts (p ∷ done)

-- filepath.Clean(path)
unfoldable pub clean : Text → Text
unfolding clean_parts reversed split join has_prefix
clean path =
    let rooted = has_prefix path (slash ∷ []) in
    let out = join (reversed (clean_parts rooted (split path slash) []) []) slash in
    if rooted then slash ∷ out else if list_eq out [] then (codes ".") else out

-- filepath.Dir(path)
unfoldable pub dir : Text → Text
unfolding clean last_index_byte
dir path = clean (elim (last_index_byte path slash) [ none ↦ [] | some i ↦ take (i + 1) path ])
