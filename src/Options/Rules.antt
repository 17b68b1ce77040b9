-- ===== src/Options/Rules.antt =====
-- The order of the rules (main.go) against the rule that decides (ShouldExclude, filter.go).
use dup_detector.Prelude.{
  ◌≡◌, refl, sym, ap, ◌∙◌, inl, inr, Bool, true, false, not, ◌&&◌, ◌||◌, List, [], ◌∷◌, ◌++◌, arith,
  if◌then◌else◌, any, Bool-cases,
}
use dup_detector.Prelude.Runs.{done_inj, done}
use dup_detector.Text.{Text}
use dup_detector.Files.{FilterRule}
use dup_detector.Filter.{matches, last_word, should_exclude}
use dup_detector.Filter.Rules.{should_exclude-last_word}
use dup_detector.Options.{Options, Host, default_excludes, rules_for, rules_from, build_rules}

-- some pattern, as a rule, matches a path
abbrev pub matched_by : Bool → List Text → Text → Bool
matched_by exclude patterns rel_path = any (λ q. matches q rel_path) (rules_for exclude patterns)

last_word-append :
    (before after : List FilterRule) (rel_path : Text) (b : Bool)
    → last_word (before ++ after) rel_path b
      ≡ last_word after rel_path (last_word before rel_path b)
unfolding last_word
last_word-append [] after rel_path b = refl
last_word-append (r ∷ before) after rel_path b =
    last_word-append before after rel_path (if matches r rel_path then r.exclude else b)

-- patterns of one kind: that kind, if one of them matches
last_word-rules_for :
    (exclude : Bool) (patterns : List Text) (rel_path : Text) (b : Bool)
    → last_word (rules_for exclude patterns) rel_path b
      ≡ (if matched_by exclude patterns rel_path then exclude else b)
unfolding last_word
last_word-rules_for exclude [] rel_path b = refl
last_word-rules_for exclude (p ∷ patterns) rel_path b =
    let r : FilterRule = record { pattern = p; exclude = exclude } in
    elim (Bool-cases (matches r rel_path)) [
      | inl e ↦ rw e (ground (arith, last_word-rules_for exclude patterns rel_path exclude))
      | inr e ↦ rw e (ground (arith, last_word-rules_for exclude patterns rel_path b))
    ]

-- rules of three kinds, the last of which decide first
last_word-three :
    (first second third : List Text) (rel_path : Text)
    → last_word
        (rules_for true first ++ rules_for false second ++ [] ++ rules_for true third ++ [])
        rel_path
        false
      ≡ (matched_by true third rel_path
          || (matched_by true first rel_path && not (matched_by false second rel_path)))
unfolding last_word
last_word-three first second third rel_path =
    let a = last_word (rules_for true first) rel_path false in
    let b = last_word (rules_for false second) rel_path a in
    let d = rules_for true first in
    let i = rules_for false second in
    let e = rules_for true third in
    let path =
      last_word-append (d ++ i ++ [] ++ e) [] rel_path false
      ∙ (last_word-append (d ++ i ++ []) e rel_path false
          ∙ (ap (last_word e rel_path) (last_word-append (d ++ i) [] rel_path false)
              ∙ ap (last_word e rel_path) (last_word-append d i rel_path false))) in
    let e1 = last_word-rules_for true first rel_path false in
    let e2 = last_word-rules_for false second rel_path a in
    let e3 = last_word-rules_for true third rel_path b in path ∙ ground (arith, e1, e2, e3)

blank : {F : Type 0} (host : Host F) (exclude : Bool) → rules_from host exclude [] ≡ done []
unfolding rules_from
blank host exclude = refl

rules_from-none :
    {F : Type 0} (host : Host F) (exclude : Bool) (path : Text)
    → path ≡ []
    → rules_from host exclude path ≡ done []
rules_from-none host exclude path e = ap (rules_from host exclude) e ∙ blank host exclude

-- Without rule files, a path is excluded exactly when an --exclude matches it, or the built-in exclude
-- does and no --include: an --include never takes back an --exclude, in whatever order they are given.
pub build_rules-should_exclude :
    {F : Type 0} (host : Host F) (o : Options) (rules : List FilterRule) (rel_path : Text)
    → o.include_from ≡ []
    → o.exclude_from ≡ []
    → build_rules host o ≡ done rules
    → should_exclude rel_path rules ≡ (
        matched_by true o.excludes rel_path
        || (matched_by true default_excludes rel_path
            && not (matched_by false o.includes rel_path)))
unfolding build_rules
build_rules-should_exclude host o rules rel_path no_in no_ex h =
    let a = rules_from-none host false o.include_from no_in in
    let b = rules_from-none host true o.exclude_from no_ex in
    let built = rw (build_rules, a, b) at h in
    should_exclude-last_word rules rel_path
    ∙ (ap (λ l. last_word l rel_path false) (sym (done_inj built))
        ∙ last_word-three default_excludes o.includes o.excludes rel_path)
