-- ===== src/Filter/Rules.antt =====
-- ShouldExclude: the last rule that matches a path decides.
use dup_detector.Prelude.{
  ◌≡◌, refl, sym, ap, ◌∙◌, ◌↔◌, ◌⊎◌, inl, inr, Bool, true, false, List, [], ◌∷◌, ◌++◌, arith,
  if◌then◌else◌, any, Bool-cases,
}
use dup_detector.Text.{Text}
use dup_detector.Files.{FilterRule}
use dup_detector.Filter.{matches, last_word, should_exclude}

-- A rule that excludes matches the path, and no rule after it does.
abbrev pub HasLastWord : Text → List FilterRule → Type 0
HasLastWord rel_path rules =
    (before : List FilterRule) × (r : FilterRule) × (after : List FilterRule) × (rules
      ≡ before ++ r ∷ after)
    × (matches r rel_path ≡ true)
    × (r.exclude ≡ true)
    × (any (λ q. matches q rel_path) after ≡ false)

last_word-silent :
    (rules : List FilterRule) (rel_path : Text) (b : Bool)
    → any (λ q. matches q rel_path) rules ≡ false
    → last_word rules rel_path b ≡ b
unfolding last_word
last_word-silent [] rel_path b h = refl
last_word-silent (r ∷ rules) rel_path b h =
    let m : matches r rel_path ≡ false = ground (arith, h) in
    rw m (last_word-silent rules rel_path b (ground (arith, h)))

-- the result is that of the loop's start, if no rule matches, or of the last rule that does
last_word_sound :
    (rules : List FilterRule) (rel_path : Text) (b : Bool)
    → last_word rules rel_path b ≡ true
    → ((any (λ q. matches q rel_path) rules ≡ false) × (b ≡ true)) ⊎ HasLastWord rel_path rules
unfolding last_word
last_word_sound [] rel_path b h = inl (refl, h)
last_word_sound (r ∷ rules) rel_path b h =
    elim (last_word_sound rules rel_path (if matches r rel_path then r.exclude else b) h) [
      | inr (before, q, after, e, m, x, w) ↦ inr (r ∷ before, q, after, ap (◌∷◌ r) e, m, x, w)
      | inl (quiet, now) ↦ elim (Bool-cases (matches r rel_path)) [
        | inl m ↦ inr ([], r, rules, refl, m, rw m at now, quiet)
        | inr m ↦ inl (ground (arith, m, quiet), rw m at now)
      ]
    ]

last_word_complete :
    (before : List FilterRule) (r : FilterRule) (after : List FilterRule) (rel_path : Text)
    (b : Bool)
    → matches r rel_path ≡ true
    → r.exclude ≡ true
    → any (λ q. matches q rel_path) after ≡ false
    → last_word (before ++ r ∷ after) rel_path b ≡ true
unfolding last_word
last_word_complete [] r after rel_path b m x quiet =
    ap (λ c. last_word after rel_path (if c then r.exclude else b)) m
    ∙ (last_word-silent after rel_path r.exclude quiet ∙ x)
last_word_complete (q ∷ before) r after rel_path b m x quiet =
    last_word_complete before r after rel_path (if matches q rel_path then q.exclude else b) m x
      quiet

pub should_exclude-last_word :
    (rules : List FilterRule) (rel_path : Text)
    → should_exclude rel_path rules ≡ last_word rules rel_path false
unfolding should_exclude last_word
should_exclude-last_word [] rel_path = refl
should_exclude-last_word (r ∷ rules) rel_path = refl

-- A path is excluded exactly when some rule that excludes matches it and no later rule matches it.
pub should_exclude-HasLastWord :
    (rel_path : Text) (rules : List FilterRule)
    → (should_exclude rel_path rules ≡ true) ↔ HasLastWord rel_path rules
should_exclude-HasLastWord rel_path rules = (
  λ h.
      elim (last_word_sound rules rel_path false
        (sym (should_exclude-last_word rules rel_path) ∙ h)) [
          | inl (quiet, no_rule) ↦ absurd (ground arith)
          | inr w ↦ w
        ],
  λ (before, r, after, e, m, x, quiet).
      should_exclude-last_word rules rel_path
      ∙ (ap (λ l. last_word l rel_path false) e
          ∙ last_word_complete before r after rel_path false m x quiet),
)
