-- ===== src/Store/Range.antt =====
-- The range of paths that a query for a directory asks for is the paths below the directory.
use dup_detector.Prelude.{
  ◌-◌, ◌≡◌, refl, ap, not, ◌&&◌, [], ◌∷◌, ◌++◌, arith, length, take, length-append,
}
use dup_detector.Text.{Text, slash, text_lt, has_prefix}
use dup_detector.Text.Paths.{clean}
use dup_detector.Files.{ScannedFile}
use dup_detector.Store.{prefix_range, in_range}

take-length-append : (q r : Text) → take (length q) (q ++ r) ≡ q
take-length-append [] r = refl
take-length-append (x ∷ q) r = ap (◌∷◌ x) (take-length-append q r)

-- the paths from q/ to q0 are those that begin with q/
between :
    (q p : Text)
    → (not (text_lt p (q ++ slash ∷ [])) && text_lt p (q ++ 48 ∷ []))
      ≡ has_prefix p (q ++ slash ∷ [])
unfolding text_lt has_prefix
between [] [] = refl
between [] (c ∷ []) = ground arith
between [] (c ∷ d ∷ p) = ground arith
between (x ∷ q) [] = refl
between (x ∷ q) (c ∷ p) = ground (arith, between q p)

upper_end : (dir : Text) → (prefix_range dir).1 ≡ clean dir ++ 48 ∷ []
unfolding prefix_range
upper_end dir =
    let n : length (clean dir ++ slash ∷ []) - 1 ≡ length (clean dir) =
      omega (arith, length-append (clean dir) (slash ∷ [])) in
    rw n (ap (λ q. q ++ 48 ∷ []) (take-length-append (clean dir) (slash ∷ [])))

-- A file is in the range of a directory exactly when its path begins with the cleaned directory and
-- a slash.
pub in_range-prefix :
    (dir : Text) (f : ScannedFile)
    → in_range (prefix_range dir).0 (prefix_range dir).1 f
      ≡ has_prefix f.path (clean dir ++ slash ∷ [])
unfolding in_range prefix_range
in_range-prefix dir f = rw (upper_end dir) (between (clean dir) f.path)
