-- ===== src/Discovery/Cache.antt =====
-- lib/regression.py: the discovery cache, one file for each scope of benches, with the older files
-- that it replaces. Locks are left out but for their order: a reader that finds no file under the
-- shared lock looks again under the exclusive one, when another process may have written it. A
-- manifest and the discovered data are texts in canonical form.
pub mod Laws
use rules_verilog.Base.{
  ℕ, ◌≡◌, refl, Bool, true, false, not, ◌&&◌, ◌||◌, String, Option, none, some, ◌==◌, ◌⊎◌, inl, inr,
  ap, sym, ◌∙◌, if◌then◌else◌, arith, Bool-cases, subst,
}
use rules_verilog.Results.Text.{str_eq, same_text, str_eq_iff}

pub record Manifest : Type 0 where
  pub discovery_query : Option String
  pub allow_no_run : Option Bool
  pub cacheable : Option Bool
  pub inputs : String

pub record Generation : Type 0 where
  pub all_vcomp : String
  pub tests_to_tags : String
  pub tests_to_simulator : String
  pub manifest : Manifest

-- A cache file: its schema version, its scope, and its generation, `none` where one of the four
-- values is no dictionary.
pub record Payload : Type 0 where
  pub schema_version : ℕ
  pub scope : String
  pub generation : Option Generation

-- What a path holds; a file that is no JSON object of a schema version raises as well.
pub data File {ℓ} (A : Type ℓ) : Type ℓ where
  missing unreadable : File A
  holds : A → File A

pub record Store : Type 0 where
  pub cache : File Payload
  pub legacy : File Generation  -- missing where one of its four files is

pub data Read : Type 0 where
  not_found raised : Read
  read : Generation → Read

abbrev pub same_bool : Bool → Bool → Bool
same_bool true b = b
same_bool false b = not b

abbrev pub same_flag : Option Bool → Option Bool → Bool
same_flag none none = true
same_flag (some a) (some b) = same_bool a b
same_flag _ _ = false

abbrev pub same_manifest : Manifest → Manifest → Bool
same_manifest a b =
    same_text a.discovery_query b.discovery_query
    && same_flag a.allow_no_run b.allow_no_run
    && same_flag a.cacheable b.cacheable
    && str_eq a.inputs b.inputs

-- `manifest.get("cacheable", True)`.
abbrev pub flag_or_true : Option Bool → Bool
flag_or_true none = true
flag_or_true (some b) = b

abbrev pub is_cacheable : Manifest → Bool
is_cacheable m = flag_or_true m.cacheable

abbrev pub schema : ℕ
schema = 1

module _ (scope : String) where
  abbrev pub read_generation : Option Generation → Read
  read_generation none = raised
  read_generation (some g) = read g

  unfoldable pub read_discovery_cache : File Payload → Read
  read_discovery_cache missing = not_found
  read_discovery_cache unreadable = raised
  read_discovery_cache (holds p) =
      if not (p.schema_version == schema)
      then raised
      else if not (str_eq p.scope scope)
      then raised
      else read_generation p.generation

  abbrev pub payload : Generation → Payload
  payload g = record { schema_version = schema; scope = scope; generation = some g }

  -- `_migrate_legacy_discovery_cache_locked`, and the end of `_read_or_migrate_discovery_cache`,
  -- which raises FileNotFoundError where nothing was migrated.
  unfoldable pub migrate_legacy : Manifest → Store → Read × Store
  migrate_legacy current s = elim s.legacy [
    | missing ↦ (not_found, s)
    | unreadable ↦ (raised, s)
    | holds g ↦
        if not (same_manifest g.manifest current)
        then (not_found, s)
        else (read g, record { cache = holds (payload g); legacy = missing })
  ]

  -- The shared read, and the second one on the store as it is under the exclusive lock.
  unfoldable pub read_or_migrate : Manifest → (shared exclusive : Store) → Read × Store
  unfolding read_discovery_cache migrate_legacy
  read_or_migrate current shared exclusive = elim (read_discovery_cache shared.cache) [
    | raised ↦ (raised, exclusive)
    | read g ↦ (read g, exclusive)
    | not_found ↦ elim (read_discovery_cache exclusive.cache) [
      | raised ↦ (raised, exclusive)
      | read g ↦ (read g, exclusive)
      | not_found ↦ migrate_legacy current exclusive
    ]
  ]

  abbrev pub is_there {ℓ} : {A : Type ℓ} → File A → Bool
  is_there missing = false
  is_there _ = true

  -- The tests of `_should_use_cached_discovery` on what was read.
  abbrev pub accept : Manifest → Read → Option Generation
  accept current not_found = none
  accept current raised = none
  accept current (read g) =
      if not (is_cacheable g.manifest)
      then none
      else if not (same_manifest g.manifest current)
      then none
      else some g

  -- The generation that the discovery uses, if there is one, and the store afterwards.
  unfoldable pub should_use_cached_discovery :
      Manifest → (shared exclusive : Store) → Option Generation × Store
  unfolding read_or_migrate
  should_use_cached_discovery current shared exclusive =
      if not (is_there shared.cache) && not (is_there shared.legacy) then (none, exclusive) else (
        accept current (read_or_migrate current shared exclusive).0,
        (read_or_migrate current shared exclusive).1,
      )

  abbrev pub same_discovery_scope : Manifest → Manifest → Bool
  same_discovery_scope a b =
      same_text a.discovery_query b.discovery_query && same_flag a.allow_no_run b.allow_no_run

  abbrev pub drop_legacy : Manifest → File Generation → File Generation
  drop_legacy m missing = missing
  drop_legacy m unreadable = unreadable
  drop_legacy m (holds g) = if same_discovery_scope g.manifest m then missing else holds g

  unfoldable pub publish_discovery_cache : Generation → Store → Store
  publish_discovery_cache g s = record {
    cache = holds (payload g);
    legacy = drop_legacy g.manifest s.legacy;
  }
