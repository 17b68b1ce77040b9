-- ===== src/Scan/Visits.antt =====
-- What the function of scan.go that WalkDir calls does with the entries: which of them it hands on.
use dup_detector.Prelude.{
  ℕ, ◌≡◌, refl, sym, ◌⊎◌, inl, inr, true, false, Option, none, some, List, [], ◌∷◌, Memᴰ, arith,
  if◌then◌else◌, has, Bool-cases, Option-cases, has-mem, Distinct, mem-cons_cases, nat_eq, pair_eq,
}
use mathlib.Core.Path.{subst}
use dup_detector.Text.{Text}
use dup_detector.Files.{ScannedFile}
use dup_detector.Scan.{
  Key, FileInfo, Entry, Walk, Verdict, leave, unnamed, named, several_names, has_sidecar_suffix,
  remember, in_bounds, verdict, file_of, visit_file,
}
use dup_detector.Scan.Steps.{as_list}

-- The entry is a regular file with a relative path, no sidecar, and its information can be read.
pub record IsCandidate (rel : Text → Text → Option Text) (w : Walk) (path : Text) (e : Entry)
    (rel_path : Text) (i : FileInfo) : Type 0 where
  pub plain : e.is_dir ≡ false
  pub regular : e.is_regular ≡ true
  pub no_sidecar : has_sidecar_suffix e.name ≡ false
  pub has_path : verdict rel w path ≡ named rel_path
  pub readable : e.info ≡ some i

-- An inode that can have no other name.
abbrev pub IsSingle : FileInfo → Type 0
IsSingle i = (i.key ≡ none) ⊎ (several_names i ≡ false)

-- An inode with this key and several names.
abbrev pub IsShared : FileInfo → Key → Type 0
IsShared i k = (i.key ≡ some k) × (several_names i ≡ true)

-- What comes of remembering an inode: it was there, it need not be, or it is added.
pub data Remembered (i : FileInfo) (seen : List Key) : Option (ℕ × List Key) → Type 0 where
  known : (k : Key) → IsShared i k → Memᴰ k seen → Remembered i seen none
  unkept : (n : ℕ) → IsSingle i → Remembered i seen (some (n, seen))
  added : (k : Key) → IsShared i k → has k seen ≡ false → Remembered i seen (some (k.1, k ∷ seen))

pub single_not_shared : (i : FileInfo) {k : Key} → IsSingle i → IsShared i k → ⊥
single_not_shared i (inl a) t = ground (arith, a, t.0)
single_not_shared i (inr a) t = ground (arith, a, t.1)

only : {A : Type 0} {a b : A} → Memᴰ a (b ∷ []) → a ≡ b
only m = elim (mem-cons_cases m) [ inl e ↦ e | inr t ↦ elim t [ ] ]

remember-eq :
    {i : FileInfo} {seen : List Key} {o : Option (ℕ × List Key)}
    → remember i seen ≡ o
    → Remembered i seen o
    → Remembered i seen (remember i seen)
remember-eq e r = subst (Remembered _ _) (sym e) r

pub remember-Remembered : (i : FileInfo) (seen : List Key) → Remembered i seen (remember i seen)
unfolding remember
remember-Remembered i seen = elim (Option-cases i.key) [
  | inl a ↦ remember-eq (rw (remember, a) refl) (unkept 0 (inl a))
  | inr (k, a) ↦ elim (Bool-cases (several_names i)) [
    | inr b ↦ remember-eq (rw (remember, a, b) refl) (unkept k.1 (inr b))
    | inl b ↦ elim (Bool-cases (has k seen)) [
      | inl c ↦ remember-eq (rw (remember, a, b, c) refl) (known k (a, b) (has-mem k seen c))
      | inr c ↦ remember-eq (rw (remember, a, b, c) refl) (added k (a, b) c)
    ]
  ]
]

-- what a visit to a candidate does
abbrev pub visit_known :
    Walk → Text → Text → FileInfo → Option (ℕ × List Key) → List Key → Option ScannedFile × List Key
visit_known w path r i none seen = (none, seen)
visit_known w path r i (some (inode, seen')) seen =
    if in_bounds w.cfg i.size then (some (file_of path r i inode), seen') else (none, seen')

module _ (rel : Text → Text → Option Text) (w : Walk) where
  pub visit_file-candidate :
      (path : Text) (e : Entry) (r : Text) (i : FileInfo) (seen : List Key)
      → IsCandidate rel w path e r i
      → visit_file w path e (verdict rel w path) seen
        ≡ visit_known w path r i (remember i seen) seen
  unfolding visit_file
  visit_file-candidate path e r i seen c = elim (Option-cases (remember i seen)) [
    | inl a ↦ rw (c.has_path, visit_file, c.regular, c.no_sidecar, c.readable, a) refl
    | inr (kept, a) ↦ rw (c.has_path, visit_file, c.regular, c.no_sidecar, c.readable, a) refl
  ]

  -- A visit to any other entry does nothing.
  pub visit_file-cases :
      (path : Text) (e : Entry) (v : Verdict) (seen : List Key)
      → e.is_dir ≡ false
      → verdict rel w path ≡ v
      → (visit_file w path e v seen ≡ (none, seen))
        ⊎ ((r : Text) × (i : FileInfo) × IsCandidate rel w path e r i)
  unfolding visit_file
  visit_file-cases path e leave seen d q = inl refl
  visit_file-cases path e unnamed seen d q = inl refl
  visit_file-cases path e (named r) seen d q = elim (Bool-cases e.is_regular) [
    | inr a ↦ inl (rw (visit_file, a) refl)
    | inl a ↦ elim (Bool-cases (has_sidecar_suffix e.name)) [
      | inl b ↦ inl (rw (visit_file, a, b) refl)
      | inr b ↦ elim (Option-cases e.info) [
        | inl k ↦ inl (rw (visit_file, a, b, k) refl)
        | inr (i, k) ↦
            inr
              (r, i, record { plain = d; regular = a; no_sidecar = b; has_path = q; readable = k })
      ]
    ]
  ]

  -- what a visit to a candidate does to the keys and to the files handed on
  pub known_keeps :
      (path r : Text) (i : FileInfo) (seen : List Key) {o : Option (ℕ × List Key)} {k : Key}
      → Remembered i seen o
      → Memᴰ k seen
      → Memᴰ k (visit_known w path r i o seen).1
  known_keeps path r i seen (known j s m) h = h
  known_keeps path r i seen (unkept n s) h = elim (Bool-cases (in_bounds w.cfg i.size)) [
    | inl b ↦ rw b h
    | inr b ↦ rw b h
  ]
  known_keeps path r i seen (added j s m) h = elim (Bool-cases (in_bounds w.cfg i.size)) [
    | inl b ↦ rw b (Memᴰ.tail h)
    | inr b ↦ rw b (Memᴰ.tail h)
  ]

  pub known-Distinct :
      (path r : Text) (i : FileInfo) (seen : List Key) {o : Option (ℕ × List Key)}
      → Remembered i seen o
      → Distinct seen
      → Distinct (visit_known w path r i o seen).1
  known-Distinct path r i seen (known j s m) h = h
  known-Distinct path r i seen (unkept n s) h = elim (Bool-cases (in_bounds w.cfg i.size)) [
    | inl b ↦ rw b h
    | inr b ↦ rw b h
  ]
  known-Distinct path r i seen (added j s m) h = elim (Bool-cases (in_bounds w.cfg i.size)) [
    | inl b ↦ rw b (m, h)
    | inr b ↦ rw b (m, h)
  ]

  pub known_remembers :
      (path r : Text) (i : FileInfo) (seen : List Key) {o : Option (ℕ × List Key)} {k : Key}
      → Remembered i seen o
      → IsShared i k
      → Memᴰ k (visit_known w path r i o seen).1
  known_remembers path r i seen {k = k} (known j s m) t =
      let e : k ≡ j = ground (arith, s.0, t.0) in rw e m
  known_remembers path r i seen (unkept n s) t = absurd (single_not_shared i s t)
  known_remembers path r i seen {k = k} (added j s m) t =
      let e : k ≡ j = ground (arith, s.0, t.0) in
      elim (Bool-cases (in_bounds w.cfg i.size)) [
        | inl b ↦ rw b (Memᴰ.head e)
        | inr b ↦ rw b (Memᴰ.head e)
      ]

  -- A file is handed on only within the bounds, and of a shared inode only where its key is new.
  pub known_sound :
      (path r : Text) (i : FileInfo) (seen : List Key) {o : Option (ℕ × List Key)} {f : ScannedFile}
      → Remembered i seen o
      → Memᴰ f (as_list (visit_known w path r i o seen)).0
      → (in_bounds w.cfg i.size ≡ true)
        × ((n : ℕ) × (f ≡ file_of path r i n))
        × ((k : Key) → IsShared i k → has k seen ≡ false)
  unfolding as_list
  known_sound path r i seen (known j s m) h = elim h [ ]
  known_sound path r i seen (unkept n s) h = elim (Bool-cases (in_bounds w.cfg i.size)) [
    | inl b ↦ (b, (n, only (rw b at h)), λ k t. absurd (single_not_shared i s t))
    | inr b ↦ elim (rw b at h) [ ]
  ]
  known_sound path r i seen (added j s m) h = elim (Bool-cases (in_bounds w.cfg i.size)) [
    | inl b ↦
        (b, (j.1, only (rw b at h)), λ k t. let e : k ≡ j = ground (arith, s.0, t.0) in rw e m)
    | inr b ↦ elim (rw b at h) [ ]
  ]

  pub known_complete :
      (path r : Text) (i : FileInfo) (seen : List Key) {o : Option (ℕ × List Key)}
      → Remembered i seen o
      → in_bounds w.cfg i.size ≡ true
      → ((n : ℕ) × Memᴰ (file_of path r i n) (as_list (visit_known w path r i o seen)).0)
        ⊎ ((k : Key) × IsShared i k × Memᴰ k seen)
  unfolding as_list
  known_complete path r i seen (known j s m) b = inr (j, s, m)
  known_complete path r i seen (unkept n s) b = inl (n, rw b (Memᴰ.head refl))
  known_complete path r i seen (added j s m) b = inl (j.1, rw b (Memᴰ.head refl))
