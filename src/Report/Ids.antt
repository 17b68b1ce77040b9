-- ===== src/Report/Ids.antt =====
-- The identifiers of the groups in the report (GroupID, no_interactive.go).
use dup_detector.Prelude.{
  ℕ, ◌^◌, ◌<◌, ◌≡◌, ◌≢◌, refl, sym, ap, ◌∙◌, ◌⊎◌, inl, inr, true, false, List, [], ◌∷◌, ◌++◌, arith,
  list_eq, list_eq_iff, Bool-cases,
}
use dup_detector.Text.{Text}
use dup_detector.Text.Decimals.{signed_decimal, signed_upto, EndsNumber, signed_upto-signed_decimal}
use dup_detector.Files.{ScannedFile, DupGroup}
use dup_detector.Report.{group_id}

-- the mtime of the first file
abbrev pub first_mtime : List ScannedFile → ℕ
first_mtime [] = 0
first_mtime (f ∷ files) = f.mod_time

-- The size and the mtime are int64 patterns.
abbrev pub IsGroup : DupGroup → Type 0
IsGroup g = (g.size < 2 ^ 64) × (first_mtime g.files < 2 ^ 64)

abbrev key_text : ℕ → ℕ → Text
key_text size mtime = signed_decimal size ++ (b'-' ∷ b'm' ∷ signed_decimal mtime)

ends_nil : EndsNumber []
ends_nil n = refl

key_text_inj :
    (s m s' m' : ℕ)
    → s < 2 ^ 64
    → m < 2 ^ 64
    → s' < 2 ^ 64
    → m' < 2 ^ 64
    → key_text s m ≡ key_text s' m'
    → (s ≡ s') × (m ≡ m')
key_text_inj s m s' m' hs hm hs' hm' e =
    let a = signed_upto-signed_decimal s (b'-' ∷ b'm' ∷ signed_decimal m) hs (λ n. refl) in
    let b = signed_upto-signed_decimal s' (b'-' ∷ b'm' ∷ signed_decimal m') hs' (λ n. refl) in
    let both = sym a ∙ (ap signed_upto e ∙ b) in
    let rest : signed_decimal m ≡ signed_decimal m' = ground (arith, both) in
    let c = signed_upto-signed_decimal m [] hm ends_nil in
    let d = signed_upto-signed_decimal m' [] hm' ends_nil in
    let again = sym c ∙ (ap (λ t. signed_upto (t ++ [])) rest ∙ d) in
    (ap (λ p. p.0) both, ap (λ p. p.0) again)

hashed : (g : DupGroup) → list_eq g.hash [] ≡ false → group_id g ≡ g.hash
unfolding group_id
hashed g e = rw (group_id, e) refl

unhashed :
    (g : DupGroup)
    → list_eq g.hash [] ≡ true
    → group_id g ≡ b's' ∷ key_text g.size (first_mtime g.files)
unfolding group_id
unhashed g e = rw (group_id, e) refl

-- Two groups of one identifier, both with a hash or both without one, as the groups of one pass are, have
-- the same hash, or without one the same size and the same mtime.
pub group_id-tells_apart :
    (g h : DupGroup)
    → IsGroup g
    → IsGroup h
    → list_eq g.hash [] ≡ list_eq h.hash []
    → group_id g ≡ group_id h
    → (g.hash ≡ h.hash)
      × ((g.hash ≢ []) ⊎ ((g.size ≡ h.size) × (first_mtime g.files ≡ first_mtime h.files)))
group_id-tells_apart g h (sg, mg) (sh, mh) alike e = elim (Bool-cases (list_eq g.hash [])) [
  | inr a ↦ (
    sym (hashed g a) ∙ (e ∙ hashed h (sym alike ∙ a)),
    inl (λ z. let q = (list_eq_iff g.hash []).1 z in ground (arith, a, q)),
  )
  | inl a ↦
      let b = sym alike ∙ a in
      let same = sym (unhashed g a) ∙ (e ∙ unhashed h b) in
      (
        (list_eq_iff g.hash []).0 a ∙ sym ((list_eq_iff h.hash []).0 b),
        inr (
            key_text_inj g.size (first_mtime g.files) h.size (first_mtime h.files) sg mg sh mh
              (ground (arith, same))),
      )
]
