-- ===== src/Trash/Place.antt =====
-- trash.go: the trash of a path: the home trash, or one at the mount root of the path's file system. Stat,
-- the home directory (empty if unknown), XDG_DATA_HOME (empty if unset) and the user are parameters.
use dup_detector.Prelude.{
  ℕ, zero, suc, ◌≤◌, ◌<◌, ◌≡◌, ◌≢◌, refl, sym, ap, ◌∙◌, ◌⊎◌, inl, inr, Bool, true, false, not, ◌&&◌,
  Option, none, some, [], ◌∷◌, ◌++◌, arith, if◌then◌else◌, ◌==◌, ==_iff, length, list_eq,
  list_eq_iff, some_inj, Bool-cases, Option-cases,
}
use dup_detector.Prelude.Runs.{Run, done, failed, panic}
use dup_detector.Text.{Text, codes, slash}
use dup_detector.Text.Decimals.{decimal}
use dup_detector.Text.Paths.{clean, dir}
use dup_detector.Text.Paths.Lengths.{dir-shorter, clean-rooted}
use dup_detector.Scan.{child_path}
use dup_detector.Trash.{TrashLocation}

-- the device that Stat reports, and what else the code asks for
pub record Volumes : Type 0 where
  pub stat : Text → Option ℕ
  pub home : Text
  pub xdg_data_home : Text
  pub uid : ℕ

module _ (volumes : Volumes) where
  -- deviceOf
  unfoldable pub device_of : Text → Option ℕ
  unfolding dir
  device_of path = elim (volumes.stat path) [ none ↦ volumes.stat (dir path) | some dev ↦ some dev ]

  -- sameFilesystem
  unfoldable pub same_filesystem : Text → Text → Bool
  unfolding device_of
  same_filesystem a b = elim (device_of a) [
    | none ↦ false
    | some da ↦ elim (device_of b) [ none ↦ false | some db ↦ da == db ]
  ]

  -- xdgDataHome
  unfoldable pub xdg_data_home_of : Text → Text
  unfolding child_path
  xdg_data_home_of home =
      if not (list_eq volumes.xdg_data_home [])
      then volumes.xdg_data_home
      else child_path home (codes ".local/share")

  -- the loop of mountPointOf, on fuel
  unfoldable pub ascend : ℕ → ℕ → Text → Option Text
  unfolding device_of dir
  ascend zero dev cur = none
  ascend (suc fuel) dev cur =
      let next = ascend fuel dev (dir cur) in
      if list_eq (dir cur) cur then some cur else elim (device_of (dir cur)) [
        | none ↦ some cur
        | some pdev ↦ if not (pdev == dev) then some cur else next
      ]

  -- mountPointOf
  unfoldable pub mount_point_of : ℕ → Text → Option (Run Text)
  unfolding device_of ascend clean
  mount_point_of fuel path = elim (device_of path) [
    | none ↦ some failed
    | some dev ↦ elim (ascend fuel dev (clean path)) [ none ↦ none | some top ↦ some (done top) ]
  ]

  -- trashLocationFor
  unfoldable pub trash_location_for : ℕ → Text → Option (Run TrashLocation)
  unfolding same_filesystem xdg_data_home_of mount_point_of child_path
  trash_location_for fuel abs =
      if not (list_eq volumes.home []) && same_filesystem abs volumes.home
      then some (
          done (record {
            dir = child_path (xdg_data_home_of volumes.home) (codes "Trash");
            top_dir = [];
          }))
      else elim (mount_point_of fuel abs) [
        | none ↦ none
        | some (done top) ↦ some (
            done (record {
              dir = child_path top (codes ".Trash-" ++ decimal volumes.uid);
              top_dir = top;
            }))
        | some failed ↦ some failed
        | some panic ↦ some panic
      ]

  -- a directory that is the root of the tree, or whose parent is not on the device
  abbrev pub IsTop : ℕ → Text → Type 0
  IsTop dev top = (dir top ≡ top) ⊎ (device_of (dir top) ≢ some dev)

  -- where the loop ends when it begins at a directory
  abbrev Ascends : ℕ → ℕ → Text → Type 0
  Ascends fuel dev cur =
      (top : Text) × (ascend fuel dev cur ≡ some top)
      × ((top ≡ cur) ⊎ (device_of top ≡ some dev))
      × IsTop dev top

  dir_root : dir (slash ∷ []) ≡ slash ∷ []
  unfolding dir clean
  dir_root = refl

  -- the parent is on the device, and so the loop goes on there
  goes_on :
      (fuel dev : ℕ) (cur : Text)
      → list_eq (dir cur) cur ≡ false
      → device_of (dir cur) ≡ some dev
      → Ascends fuel dev (dir cur)
      → Ascends (suc fuel) dev cur
  unfolding ascend
  goes_on fuel dev cur e d (top, up, on, is_top) = (
    top,
    (let same : (dev == dev) ≡ true = ground arith in rw (ascend, e, d, same) up),
    elim on [ inl at ↦ inr (ap device_of at ∙ d) | inr q ↦ inr q ],
    is_top,
  )

  above :
      (fuel dev : ℕ) (s : Text)
      → list_eq (dir (slash ∷ s)) (slash ∷ s) ≡ false
      → length s < suc fuel
      → ((t : Text) → length t < fuel → Ascends fuel dev (slash ∷ t))
      → Ascends fuel dev (dir (slash ∷ s))
  above fuel dev [] e h rec =
      absurd (let same = (list_eq_iff _ _).1 dir_root in let q = sym same ∙ e in ground (arith, q))
  above fuel dev (c ∷ s) e h rec =
      let ((out, rooted), shorter) = dir-shorter c s in
      let fewer : length out < fuel =
        let both = ap length rooted in omega (arith, both, shorter, h) in
      rw rooted (rec out fewer)

  ascend-IsTop : (fuel dev : ℕ) (s : Text) → length s < fuel → Ascends fuel dev (slash ∷ s)
  unfolding ascend
  ascend-IsTop zero dev s h = absurd (omega (arith, h))
  ascend-IsTop (suc fuel) dev s h = elim (Bool-cases (list_eq (dir (slash ∷ s)) (slash ∷ s))) [
    | inl e ↦ (slash ∷ s, rw (ascend, e) refl, inl refl, inl ((list_eq_iff _ _).0 e))
    | inr e ↦ elim (Option-cases (device_of (dir (slash ∷ s)))) [
      | inl d ↦ (
        slash ∷ s,
        rw (ascend, e, d) refl,
        inl refl,
        inr (λ q. let q' = sym d ∙ q in ground (arith, q')),
      )
      | inr (pdev, d) ↦ elim (Bool-cases (pdev == dev)) [
        | inr f ↦ (
          slash ∷ s,
          rw (ascend, e, d, f) refl,
          inl refl,
          inr (λ q. let p = some_inj (sym d ∙ q) in ground (arith, p, f)),
        )
        | inl f ↦
            goes_on fuel dev (slash ∷ s) e (d ∙ ap some ((==_iff pdev dev).0 f))
              (above fuel dev s e h (ascend-IsTop fuel dev))
      ]
    ]
  ]

  -- For a rooted path that has a device, fuel for the length of the cleaned path is enough. The loop
  -- ends at that path or at a directory on the path's device, which is the root of the tree or has a
  -- parent that is not on the device.
  pub mount_point_of-IsTop :
      (fuel dev : ℕ) (s : Text)
      → length (clean (slash ∷ s)) ≤ fuel
      → device_of (slash ∷ s) ≡ some dev
      → (top : Text) × (mount_point_of fuel (slash ∷ s) ≡ some (done top))
        × ((top ≡ clean (slash ∷ s)) ⊎ (device_of top ≡ some dev))
        × IsTop dev top
  unfolding mount_point_of
  mount_point_of-IsTop fuel dev s enough d =
      let (out, rooted) = clean-rooted s in
      let fewer : length out < fuel = let both = ap length rooted in omega (arith, both, enough) in
      let (top, up, on, is_top) = ascend-IsTop fuel dev out fewer in
      (
        top,
        rw (mount_point_of, d, rooted, up) refl,
        elim on [ inl at ↦ inl (at ∙ sym rooted) | inr q ↦ inr q ],
        is_top,
      )
