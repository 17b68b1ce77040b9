-- ===== src/Options.antt =====
-- main.go: what run makes of its options before it scans: the refusals, the sizes, the rules and the
-- roots. The package path/filepath, durations, numbers and the lines of a rule file are parameters.
pub mod Rules
pub mod Roots
pub mod Attribution
use dup_detector.Prelude.{
  ℕ, suc, Bool, true, false, not, ◌&&◌, ◌||◌, Option, none, some, List, [], ◌∷◌, ◌++◌, map,
  if◌then◌else◌, ltb, ◌==◌, length, list_eq, has, text_eq,
}
use dup_detector.Prelude.Runs.{Run, done, failed, ◌>>=◌}
use dup_detector.Text.{Text, codes, has_suffix, trim_suffix, is_subdir}
use dup_detector.Files.{FilterRule, ScanConfig, mul64}
use dup_detector.Filter.{load_rules}
use dup_detector.Sizes.{Floats, parse_size}

-- Config, as the flags fill it
pub record Options : Type 0 where
  pub checksum : Bool
  pub recursive : Bool
  pub dry_run : Bool
  pub headless : Bool
  pub no_interactive : Bool
  pub scan_store : Text
  pub trash : Bool
  pub remove_by_glob : Text
  pub excludes : List Text
  pub exclude_from : Text
  pub includes : List Text
  pub include_from : Text
  pub min_size_str : Text
  pub max_size_str : Text
  pub one_file_system : Bool
  pub additional_roots : List Text
  pub within_root : Bool
  pub no_overlap : Bool
  pub overlap_block_size : ℕ
  pub min_overlap : ℕ
  pub overlap_depth : ℕ
  pub cache_max_age : Text
  pub format : Text

-- filepath.Abs, time.ParseDuration and strconv.Atoi as int64 patterns, and the lines of a rule file, if
-- it can be read
pub record Host (F : Type 0) : Type 0 where
  pub abs : Text → Option Text
  pub parse_duration : Text → Option ℕ
  pub parse_int : Text → Option ℕ
  pub rule_lines : Text → Option (List Text)
  pub floats : Floats F

-- what the options come to
pub record Settings : Type 0 where
  pub scan : ScanConfig
  pub max_age : ℕ
  pub roots : List Text

-- the flags that --no-interactive refuses
unfoldable pub is_refused : Options → Bool
is_refused o = o.no_interactive && (o.headless || not (list_eq o.remove_by_glob []))

-- defaultExcludes
abbrev pub default_excludes : List Text
default_excludes = codes ".flexiblefs" ∷ []

abbrev pub rules_for : Bool → List Text → List FilterRule
rules_for exclude patterns = map (λ p. record { pattern = p; exclude = exclude }) patterns

-- a root j that lies inside root i is left out of the scan of i
unfoldable pub root_excludes : ℕ → Text → ℕ → List Text → List Text
unfolding is_subdir
root_excludes i root j [] = []
root_excludes i root j (r ∷ roots) =
    let rest = root_excludes i root (suc j) roots in
    if not (i == j) && is_subdir root r then r ∷ rest else rest

-- whether only duplicates across roots are wanted
unfoldable pub is_cross_root : Options → List Text → Bool
is_cross_root o roots = not (ltb (length roots) 2) && not o.within_root

module _ {F : Type 0} (host : Host F) where
  -- the age in --cache-max-age, with a suffix for days
  unfoldable pub max_age_of : Text → Run ℕ
  unfolding has_suffix trim_suffix mul64
  max_age_of text =
      if list_eq text [] || list_eq text (codes "0")
      then done 0
      else elim (host.parse_duration text) [
        | some duration ↦ done duration
        | none ↦
            if has_suffix text (codes "d")
            then elim (host.parse_int (trim_suffix text (codes "d"))) [
              | none ↦ failed
              | some n ↦ done (mul64 (mul64 n 24) 3600000000000)
            ]
            else failed
      ]

  -- the rules of a file, if one is named
  unfoldable pub rules_from : Bool → Text → Run (List FilterRule)
  unfolding load_rules
  rules_from exclude path = if list_eq path [] then done [] else elim (host.rule_lines path) [
    | none ↦ failed
    | some lines ↦ done (load_rules exclude lines)
  ]

  -- cfg.Rules
  unfoldable pub build_rules : Options → Run (List FilterRule)
  unfolding rules_from
  build_rules o = rules_from false o.include_from >>= λ included.
      rules_from true o.exclude_from >>= λ excluded. done (
        rules_for true default_excludes
        ++ rules_for false o.includes
        ++ included
        ++ rules_for true o.excludes
        ++ excluded)

  -- the loop over rawRoots; seenRoot holds the roots so far
  unfoldable pub resolve_roots : List Text → List Text → Run (List Text)
  resolve_roots [] roots = done roots
  resolve_roots (r ∷ raw) roots = elim (host.abs r) [
    | none ↦ failed
    | some abs ↦
        let same = resolve_roots raw roots in
        let more = resolve_roots raw (roots ++ abs ∷ []) in if has abs roots then same else more
  ]

  unfoldable pub roots_of : Options → List Text → Run (List Text)
  unfolding resolve_roots
  roots_of o args = resolve_roots (args ++ o.additional_roots) [] >>= λ roots.
      if length roots == 0 then failed else done roots

  -- run, up to the scan
  unfoldable pub read_options : Options → List Text → Run Settings
  unfolding is_refused parse_size max_age_of build_rules roots_of
  read_options o args =
      if is_refused o
      then failed
      else (parse_size host.floats o.min_size_str >>= λ min_size.
          parse_size host.floats o.max_size_str >>= λ max_size.
          max_age_of o.cache_max_age >>= λ max_age. build_rules o >>= λ rules.
          roots_of o args >>= λ roots. done (record {
            scan = record {
              recursive = o.recursive;
              one_file_system = o.one_file_system;
              min_size = min_size;
              max_size = max_size;
              rules = rules;
            };
            max_age = max_age;
            roots = roots;
          }))
