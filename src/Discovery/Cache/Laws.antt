-- ===== src/Discovery/Cache/Laws.antt =====
-- lib/regression.py: what is read from the cache after it was published, or at a later start.
use rules_verilog.Base.{
  ◌≡◌, refl, Bool, true, false, not, ◌&&◌, String, Option, none, some, ap, ◌∙◌, if◌then◌else◌, ◌==◌,
  ==_iff, Bool-cases, inl, inr, arith,
}
use rules_verilog.Results.Text.{str_eq, str_eq_iff}
use rules_verilog.Results.Upsert.{same_text_refl}
use rules_verilog.Discovery.Cache.{
  Manifest, Payload, read_generation, Generation, File, missing, unreadable, holds, Store, Read,
  not_found, raised, read, same_flag, same_manifest, is_cacheable, read_discovery_cache,
  migrate_legacy, read_or_migrate, is_there, accept, payload, should_use_cached_discovery,
  publish_discovery_cache,
}

str_eq_refl : (s : String) → str_eq s s ≡ true
str_eq_refl s = (str_eq_iff s s).1 refl

same_flag_refl : (a : Option Bool) → same_flag a a ≡ true
same_flag_refl none = refl
same_flag_refl (some true) = refl
same_flag_refl (some false) = refl

pub same_manifest_refl : (m : Manifest) → same_manifest m m ≡ true
same_manifest_refl m = ground (
  arith,
  same_text_refl m.discovery_query,
  same_flag_refl m.allow_no_run,
  same_flag_refl m.cacheable,
  str_eq_refl m.inputs,
)

module _ (scope : String) where
  read_payload : (g : Generation) → read_discovery_cache scope (holds (payload scope g)) ≡ read g
  unfolding read_discovery_cache
  read_payload g = rw (str_eq_refl scope) refl

  accept_own :
      (g : Generation) → is_cacheable g.manifest ≡ true → accept scope g.manifest (read g) ≡ some g
  accept_own g h = rw (h, same_manifest_refl g.manifest) refl

  read_or_migrate_found :
      (current : Manifest) (shared exclusive : Store) (g : Generation)
      → read_discovery_cache scope shared.cache ≡ read g
      → read_or_migrate scope current shared exclusive ≡ (read g, exclusive)
  unfolding read_or_migrate
  read_or_migrate_found current shared exclusive g h =
      ap
        (λ r. elim r as (λ _. Read × Store) [
          | raised ↦ (raised, exclusive)
          | read k ↦ (read k, exclusive)
          | not_found ↦ elim (read_discovery_cache scope exclusive.cache) [
            | raised ↦ (raised, exclusive)
            | read k ↦ (read k, exclusive)
            | not_found ↦ migrate_legacy scope current exclusive
          ]
        ])
        h

  -- A store whose cache file is the payload of a generation.
  use_payload :
      (g : Generation) (legacy : File Generation) (current : Manifest)
      → let s : Store = record { cache = holds (payload scope g); legacy = legacy } in
        should_use_cached_discovery scope current s s ≡ (accept scope current (read g), s)
  unfolding should_use_cached_discovery
  use_payload g legacy current =
      let s : Store = record { cache = holds (payload scope g); legacy = legacy } in
      ap (λ r. (accept scope current r.0, r.1))
        (read_or_migrate_found current s s g (read_payload g))

  -- After a discovery was published, the next start with the same manifest uses exactly the published
  -- data, unless the manifest says that it cannot be cached, and changes nothing in the store.
  pub should_use-publish :
      (g : Generation) (before : Store)
      → is_cacheable g.manifest ≡ true
      → let s = publish_discovery_cache scope g before in
        should_use_cached_discovery scope g.manifest s s ≡ (some g, s)
  unfolding publish_discovery_cache
  should_use-publish g before h =
      use_payload g (publish_discovery_cache scope g before).legacy g.manifest
      ∙ ap (λ o. (o, publish_discovery_cache scope g before)) (accept_own g h)

  -- A cache file holds the generation, for this scope and in schema version 1.
  abbrev pub Holds : File Payload → Generation → Type 0
  Holds f g =
      (p : Payload) × (f ≡ holds p)
      × (p.schema_version ≡ 1)
      × (p.scope ≡ scope)
      × (p.generation ≡ some g)

  -- Where a generation can come from.
  pub data Source (shared exclusive : Store) (g : Generation) : Type 0 where
    from_shared : Holds shared.cache g → Source shared exclusive g
    from_exclusive : Holds exclusive.cache g → Source shared exclusive g
    from_legacy : exclusive.legacy ≡ holds g → Source shared exclusive g

  read_generation-some :
      (o : Option Generation) (g : Generation) → read_generation scope o ≡ read g → o ≡ some g
  read_generation-some none g h = cc
  read_generation-some (some k) g h = ground arith

  read-Holds :
      (f : File Payload) (g : Generation) → read_discovery_cache scope f ≡ read g → Holds f g
  unfolding read_discovery_cache
  read-Holds missing g h = cc
  read-Holds unreadable g h = cc
  read-Holds (holds p) g h = elim (Bool-cases (p.schema_version == 1)) [
    | inr other ↦ absurd (read-ne-raised g (rw other at h))
    | inl version ↦ elim (Bool-cases (str_eq p.scope scope)) [
      | inr other ↦ absurd (read-ne-raised g (rw (version, other) at h))
      | inl own ↦ (
        p,
        refl,
        (==_iff p.schema_version 1).0 version,
        (str_eq_iff p.scope scope).0 own,
        read_generation-some p.generation g (rw (version, own) at h),
      )
    ]
  ]
    where
      read-ne-raised : (g : Generation) → raised ≡ read g → ⊥
      read-ne-raised g h = cc

  legacy_source :
      (current : Manifest) (shared exclusive : Store) (g : Generation)
      → (migrate_legacy scope current exclusive).0 ≡ read g
      → Source shared exclusive g
  unfolding migrate_legacy
  legacy_source current shared exclusive g = split exclusive.legacy refl
    where
      from_read : Generation → Read → Generation
      from_read d not_found = d
      from_read d raised = d
      from_read d (read k) = k

      split :
          (f : File Generation)
          → exclusive.legacy ≡ f
          → (elim f as (λ _. Read × Store) [
            | missing ↦ (not_found, exclusive)
            | unreadable ↦ (raised, exclusive)
            | holds k ↦
                if not (same_manifest k.manifest current)
                then (not_found, exclusive)
                else (read k, record { cache = holds (payload scope k); legacy = missing })
          ]).0
            ≡ read g
          → Source shared exclusive g
      split missing e h = cc
      split unreadable e h = cc
      split (holds k) e h = decide (same_manifest k.manifest current) h
        where
          decide :
              (b : Bool)
              → (if◌then◌else◌ {A = Read × Store}
                  (not b)
                  (not_found, exclusive)
                  (read k, record { cache = holds (payload scope k); legacy = missing })).0
                ≡ read g
              → Source shared exclusive g
          decide false h = cc
          decide true h = from_legacy (e ∙ ap holds (ap (from_read g) h))

  found_source :
      (current : Manifest) (shared exclusive : Store) (g : Generation)
      → (read_or_migrate scope current shared exclusive).0 ≡ read g
      → Source shared exclusive g
  unfolding read_or_migrate
  found_source current shared exclusive g =
      first (read_discovery_cache scope shared.cache) refl
        (read_discovery_cache scope exclusive.cache) refl (legacy_source current shared exclusive g)
    where
      second :
          (r : Read)
          → read_discovery_cache scope exclusive.cache ≡ r
          → ((migrate_legacy scope current exclusive).0 ≡ read g → Source shared exclusive g)
          → (elim r as (λ _. Read × Store) [
            | raised ↦ (raised, exclusive)
            | read k ↦ (read k, exclusive)
            | not_found ↦ migrate_legacy scope current exclusive
          ]).0
            ≡ read g
          → Source shared exclusive g
      second raised e l h = cc
      second (read k) e l h = from_exclusive (read-Holds exclusive.cache g (e ∙ h))
      second not_found e l h = l h

      first :
          (q : Read)
          → read_discovery_cache scope shared.cache ≡ q
          → (r : Read) → read_discovery_cache scope exclusive.cache ≡ r
          → ((migrate_legacy scope current exclusive).0 ≡ read g → Source shared exclusive g)
          → (elim q as (λ _. Read × Store) [
            | raised ↦ (raised, exclusive)
            | read k ↦ (read k, exclusive)
            | not_found ↦ elim r as (λ _. Read × Store) [
              | raised ↦ (raised, exclusive)
              | read k ↦ (read k, exclusive)
              | not_found ↦ migrate_legacy scope current exclusive
            ]
          ]).0
            ≡ read g
          → Source shared exclusive g
      first raised e r f l h = cc
      first (read k) e r f l h = from_shared (read-Holds shared.cache g (e ∙ h))
      first not_found e r f l h = second r f l h

  accept_sound :
      (current : Manifest) (r : Read) (g : Generation)
      → accept scope current r ≡ some g
      → (r ≡ read g) × (same_manifest g.manifest current ≡ true) × (is_cacheable g.manifest ≡ true)
  accept_sound current not_found g h = cc
  accept_sound current raised g h = cc
  accept_sound current (read k) g h = ground arith

  -- A generation is used only if its manifest says that it can be cached and is that of the checkout
  -- as it is now, and only if it is the generation of the cache file of this scope and schema, read
  -- under the shared or the exclusive lock, or that of the older files.
  pub should_use-current :
      (current : Manifest) (shared exclusive : Store) (g : Generation)
      → (should_use_cached_discovery scope current shared exclusive).0 ≡ some g
      → (same_manifest g.manifest current ≡ true)
        × (is_cacheable g.manifest ≡ true)
        × Source shared exclusive g
  unfolding should_use_cached_discovery
  should_use-current current shared exclusive g h =
      let a =
        accept_sound current (read_or_migrate scope current shared exclusive).0 g
          (taken (not (is_there scope shared.cache) && not (is_there scope shared.legacy)) h) in
      (a.1, a.2, found_source current shared exclusive g a.0)
    where
      taken :
          (b : Bool)
          → (if◌then◌else◌ {A = Option Generation × Store} b
              (none, exclusive)
              (
                accept scope current (read_or_migrate scope current shared exclusive).0,
                (read_or_migrate scope current shared exclusive).1,
              )).0
            ≡ some g
          → accept scope current (read_or_migrate scope current shared exclusive).0 ≡ some g
      taken true k = cc
      taken false k = k
