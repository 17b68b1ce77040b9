-- ===== src/Filter/Lines.antt =====
-- A rule that is written to a rule file is read back.
use dup_detector.Prelude.{
  ◌≡◌, refl, ap, ◌∙◌, Bool, some, List, [], ◌∷◌, ◌++◌, map, arith, if◌then◌else◌, inl, inr,
  Bool-cases, Memᴰ,
}
use dup_detector.Text.{Text, codes, trim_space}
use dup_detector.Files.{FilterRule}
use dup_detector.Filter.{rule_of, with_rule, load_rules}

-- the line that stands for a rule
abbrev pub line_of : FilterRule → Text
line_of r = (if r.exclude then codes "- " else codes "+ ") ++ r.pattern

-- The line of the rule has no white space at its ends.
abbrev pub IsTidy : FilterRule → Type 0
IsTidy r = trim_space (line_of r) ≡ line_of r

rule_of-line_of :
    (default_exclude : Bool) (r : FilterRule) → rule_of default_exclude (line_of r) ≡ some r
unfolding rule_of
rule_of-line_of default_exclude r = elim (Bool-cases r.exclude) [
  | inl e ↦ ground (arith, e)
  | inr e ↦ ground (arith, e)
]

-- A rule file that holds the lines of some rules is read as those rules, whatever the default is.
pub load_rules-line_of :
    (default_exclude : Bool) (rules : List FilterRule)
    → ((r : FilterRule) → Memᴰ r rules → IsTidy r)
    → load_rules default_exclude (map line_of rules) ≡ rules
unfolding load_rules
load_rules-line_of default_exclude [] tidy = refl
load_rules-line_of default_exclude (r ∷ rules) tidy =
    let line =
      ap (rule_of default_exclude) (tidy r (Memᴰ.head refl)) ∙ rule_of-line_of default_exclude r in
    let rest = load_rules-line_of default_exclude rules (λ q m. tidy q (Memᴰ.tail m)) in
    ap (λ o. with_rule o (load_rules default_exclude (map line_of rules))) line ∙ ap (◌∷◌ r) rest
