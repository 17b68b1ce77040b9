-- ===== src/Filter.antt =====
-- filter.go: the include and exclude rules of a scan, and the files that list them. A rule file is
-- given by its lines, as a scanner without errors reads them.
pub mod Match
pub mod Rules
pub mod Stars
pub mod Lines
use dup_detector.Prelude.{
  ℕ, zero, suc, ◌+◌, ◌<◌, Bool, true, false, not, ◌&&◌, ◌||◌, ◌==◌, Option, none, some, List, [],
  ◌∷◌, ◌++◌, if◌then◌else◌, ltb, length, take, drop, any, list_eq,
}
use dup_detector.Text.{
  Text, codes, slash, has_prefix, trim_prefix, trim_suffix, index, contains, split, join,
  trim_space,
}
use dup_detector.Files.{FilterRule}
use dup_detector.Filter.Match.{match_path}

-- the loop over beforeParts, which is not longer than nameParts
unfoldable pub match_parts : List Text → List Text → Bool
unfolding match_path
match_parts [] names = true
match_parts (p ∷ parts) [] = false
match_parts (p ∷ parts) (n ∷ names) = match_path p n && match_parts parts names

-- the last loop: `rest` matches the name from some component on
unfoldable pub any_tail : (Text → Bool) → List Text → Bool
unfolding join
any_tail matches [] = false
any_tail matches (n ∷ names) =
    let later = any_tail matches names in if matches (join (n ∷ names) slash) then true else later

-- the components that are left for the stars and what follows them, if `before` matches
unfoldable pub after_before : Text → List Text → Option (List Text)
unfolding split match_parts
after_before before names =
    if list_eq before []
    then some names
    else let parts = split before slash in
      if ltb (length names) (length parts)
      then none
      else if not (match_parts parts names)
      then none
      else some (drop (length parts) names)

-- matchDoubleStar, on fuel; pattern[:idx] and pattern[idx+2:] are given by the index of the stars
unfoldable pub double_star : ℕ → Text → Text → Bool
unfolding trim_suffix trim_prefix index split after_before any_tail match_path
double_star zero pattern name = false
double_star (suc fuel) pattern name =
    if list_eq pattern (codes "**") then true else elim (index pattern (codes "**")) [
      | none ↦ match_path pattern name
      | some i ↦
          let before = trim_suffix (take i pattern) (slash ∷ []) in
          let after = trim_prefix (drop (i + 2) pattern) (slash ∷ []) in
          elim (after_before before (split name slash)) [
            | none ↦ false
            | some names ↦
                let tail = any_tail (double_star fuel after) names in
                if list_eq after [] then true else tail
          ]
    ]

unfoldable pub match_double_star : Text → Text → Bool
unfolding double_star
match_double_star pattern name = double_star (length pattern + 1) pattern name

-- globMatch, whose error is read as no match
unfoldable pub glob_match : Text → Text → Bool
unfolding contains match_path match_double_star
glob_match pattern name =
    if not (contains pattern (codes "**"))
    then match_path pattern name
    else match_double_star pattern name

-- the suffixes of a path that start at a component
unfoldable pub suffixes : Text → List Text
suffixes [] = []
suffixes (c ∷ s) = let rest = suffixes s in if c == slash then s ∷ rest else rest

-- FilterRule.matches
unfoldable pub matches : FilterRule → Text → Bool
unfolding trim_suffix has_prefix contains split glob_match suffixes
matches r rel_path =
    let pattern = trim_suffix r.pattern (slash ∷ []) in
    if list_eq pattern []
    then false
    else if has_prefix pattern (slash ∷ [])
    then glob_match (drop 1 pattern) rel_path
    else if contains pattern (slash ∷ [])
    then any (glob_match pattern) (rel_path ∷ suffixes rel_path)
    else any (glob_match pattern) (split rel_path slash)

-- the loop of ShouldExclude
unfoldable pub last_word : List FilterRule → Text → Bool → Bool
last_word [] rel_path excluded = excluded
last_word (r ∷ rules) rel_path excluded =
    last_word rules rel_path (if matches r rel_path then r.exclude else excluded)

-- ShouldExclude; ToSlash changes nothing where the separator is a slash
unfoldable pub should_exclude : Text → List FilterRule → Bool
unfolding last_word
should_exclude rel_path [] = false
should_exclude rel_path (r ∷ rules) = last_word (r ∷ rules) rel_path false

-- the rule of a line without white space at its ends
unfoldable pub rule_of : Bool → Text → Option FilterRule
unfolding has_prefix
rule_of default_exclude line =
    if list_eq line [] || has_prefix line (codes "#")
    then none
    else if has_prefix line (codes "+ ")
    then some (record { pattern = drop 2 line; exclude = false })
    else if has_prefix line (codes "- ")
    then some (record { pattern = drop 2 line; exclude = true })
    else some (record { pattern = line; exclude = default_exclude })

unfoldable pub with_rule : Option FilterRule → List FilterRule → List FilterRule
with_rule none rest = rest
with_rule (some r) rest = r ∷ rest

-- LoadRulesFromFile
unfoldable pub load_rules : Bool → List Text → List FilterRule
unfolding with_rule
load_rules default_exclude [] = []
load_rules default_exclude (line ∷ lines) =
    with_rule (rule_of default_exclude (trim_space line)) (load_rules default_exclude lines)
