-- ===== src/Overlap/Columns.antt =====
-- virtualRootOf (overlap.go): the column of a path when there is one root.
use dup_detector.Prelude.{
  drop, ◌<◌, ap, ◌∙◌, ℕ, ◌≡◌, ◌≢◌, refl, inl, inr, true, false, List, [], ◌∷◌, ◌++◌, arith,
  if◌then◌else◌, ltb, leb, length, take, list_eq, list_eq_self, Bool-cases,
}
use mathlib.Core.Path.{subst}
use dup_detector.Text.{Text, slash, has_prefix, trim_prefix, split, join}
use dup_detector.Text.Laws.{has_prefix_iff, has_prefix-append}
use dup_detector.Text.Paths.{clean}
use dup_detector.Files.{signed_rank}

-- filepath.Join
unfoldable pub join_path : List Text → Text
unfolding clean join
join_path [] = []
join_path (part ∷ parts) =
    let rest = join_path parts in
    if list_eq part [] then rest else clean (join (part ∷ parts) slash)

-- depth, at least 1
unfoldable pub depth_of : ℕ → ℕ
depth_of n = if ltb (signed_rank n) (signed_rank 1) then 1 else n

-- virtualRootOf
unfoldable pub virtual_root_of : Text → Text → ℕ → Text
unfolding trim_prefix split join_path depth_of
virtual_root_of path root depth =
    let rel = trim_prefix path (root ++ slash ∷ []) in
    let parts = split rel slash in
    if list_eq rel path
    then []
    else if leb (length parts) (depth_of depth)
    then []
    else root ++ slash ∷ join_path (take (depth_of depth) parts)

drop-append : (p r : Text) → drop (length p) (p ++ r) ≡ r
drop-append [] r = refl
drop-append (x ∷ p) r = drop-append p r

untrimmed : (s p : Text) → has_prefix s p ≡ false → trim_prefix s p ≡ s
unfolding trim_prefix
untrimmed s p h = rw h refl

trimmed : (p r : Text) → trim_prefix (p ++ r) p ≡ r
unfolding trim_prefix
trimmed p r = rw (has_prefix-append p r) (drop-append p r)

-- the column of what is left of a path below the root
abbrev pub column_below : Text → ℕ → Text → Text
column_below root depth rel = root ++ slash ∷ join_path (take (depth_of depth) (split rel slash))

-- A path that has a column lies below the root, with more components than the depth, and the column
-- is the root joined with as many front components as the depth says, at least one.
pub virtual_root_of-below :
    (path root : Text) (depth : ℕ)
    → virtual_root_of path root depth ≢ []
    → (rel : Text) × (path ≡ (root ++ slash ∷ []) ++ rel)
      × (depth_of depth < length (split rel slash))
      × (virtual_root_of path root depth ≡ column_below root depth rel)
unfolding virtual_root_of
virtual_root_of-below path root depth h =
    let prefix = root ++ slash ∷ [] in
    let rel = trim_prefix path prefix in
    elim (Bool-cases (list_eq rel path)) [
      | inl e ↦ absurd (h (ground (arith, e)))
      | inr e ↦ elim (Bool-cases (leb (length (split rel slash)) (depth_of depth))) [
        | inl d ↦ absurd (h (ground (arith, e, d)))
        | inr d ↦ elim (Bool-cases (has_prefix path prefix)) [
          | inr f ↦
              let same : list_eq rel path ≡ true =
                rw (untrimmed path prefix f) (list_eq_self path) in
              absurd (ground (arith, e, same))
          | inl f ↦
              let (r, q) = (has_prefix_iff path prefix).0 f in
              let cut : rel ≡ r = ap (λ s. trim_prefix s prefix) q ∙ trimmed prefix r in
              let column : virtual_root_of path root depth ≡ column_below root depth rel =
                ground (arith, e, d) in
              let deep : depth_of depth < length (split rel slash) = ground (arith, d) in
              (
                r,
                q,
                subst (λ (s : Text). depth_of depth < length (split s slash)) cut deep,
                column ∙ ap (column_below root depth) cut,
              )
        ]
      ]
    ]
