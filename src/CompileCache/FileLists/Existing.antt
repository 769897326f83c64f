-- ===== src/CompileCache/FileLists/Existing.antt =====
-- lib/compile_cache.py, discover_filelist_inputs: which paths it gives.
use rules_verilog.Base.{
  ℕ, zero, suc, ◌≡◌, refl, Bool, true, false, ◌&&◌, String, Option, none, some, List, [], ◌∷◌,
  Bool-cases, inl, inr, arith,
}
use rules_verilog.Results.Text.{str_eq}
use rules_verilog.CompileCache.FileLists.{
  System, Kind, nested, nested_at_own, library_file, library_directory, include, nested_is,
  includes, option, source, resolve, Found, Walk, kind, handle, add_path, add_includes, scan_tokens,
  unquote_all, scan_file, add, add_all, step, walk, start, discover_filelist_inputs,
}

module _ (s : System) where
  unfoldable pub all_exist : List String → Bool
  all_exist [] = true
  all_exist (p ∷ ps) = s.is_file p && all_exist ps

  add-all_exist :
      (p : String) (ps : List String)
      → s.is_file p ≡ true
      → all_exist ps ≡ true
      → all_exist (add p ps) ≡ true
  unfolding all_exist
  add-all_exist p ps there h = ground arith

  add_all-all_exist :
      (qs ps : List String)
      → all_exist qs ≡ true
      → all_exist ps ≡ true
      → all_exist (add_all qs ps) ≡ true
  unfolding all_exist
  add_all-all_exist [] ps hq hp = hp
  add_all-all_exist (q ∷ qs) ps hq hp =
      add_all-all_exist qs (add q ps) (ground arith) (add-all_exist q ps (ground arith) hp)

  module _ (below : (d : String) → all_exist (s.files_below d) ≡ true) where
    add_path-all_exist :
        (path base : String) (directory : Bool) (ps : List String)
        → all_exist ps ≡ true
        → all_exist (add_path s path base directory ps) ≡ true
    add_path-all_exist path base directory ps h =
        let p = resolve s path base in
        ground (arith, below p, add-all_exist p ps, add_all-all_exist (s.files_below p) ps)

    add_includes-all_exist :
        (ds : List String) (base : String) (ps : List String)
        → all_exist ps ≡ true
        → all_exist (add_includes s ds base ps) ≡ true
    add_includes-all_exist [] base ps h = h
    add_includes-all_exist (d ∷ ds) base ps h = elim (Bool-cases (str_eq d "")) [
      | inl empty ↦ rw empty (add_includes-all_exist ds base ps h)
      | inr full ↦ rw full (
          add_includes-all_exist ds base (add_path s d base true ps)
            (add_path-all_exist d base true ps h))
    ]

    handle-all_exist :
        (k : Kind) (t : String) (u : Option String) (base : String) (found : Found)
        → all_exist found.files ≡ true
        → all_exist (handle s k t u base found).files ≡ true
    unfolding handle
    handle-all_exist nested t (some u) base found h = add_path-all_exist u base false found.files h
    handle-all_exist nested t none base found h = h
    handle-all_exist nested_at_own t (some u) base found h =
        add_path-all_exist u base false found.files h
    handle-all_exist nested_at_own t none base found h = h
    handle-all_exist (nested_is path) t u base found h =
        add_path-all_exist path base false found.files h
    handle-all_exist library_file t (some u) base found h =
        add_path-all_exist u base false found.files h
    handle-all_exist library_file t none base found h = h
    handle-all_exist library_directory t (some u) base found h =
        add_path-all_exist u base true found.files h
    handle-all_exist library_directory t none base found h = h
    handle-all_exist include t (some u) base found h = add_path-all_exist u base true found.files h
    handle-all_exist include t none base found h = h
    handle-all_exist (includes ds) t u base found h = add_includes-all_exist ds base found.files h
    handle-all_exist option t u base found h = h
    handle-all_exist source t u base found h = add_path-all_exist t base false found.files h

    scan_tokens-all_exist :
        (ts : List String) (base : String) (found : Found)
        → all_exist found.files ≡ true
        → all_exist (scan_tokens s ts base found).files ≡ true
    unfolding scan_tokens
    scan_tokens-all_exist [] base found h = h
    scan_tokens-all_exist (t ∷ []) base found h = handle-all_exist (kind s t) t none base found h
    scan_tokens-all_exist (t ∷ (u ∷ rest)) base found h =
        let next = handle s (kind s t) t (some u) base found in
        let there = handle-all_exist (kind s t) t (some u) base found h in
        ground (
          arith,
          scan_tokens-all_exist rest base next there,
          scan_tokens-all_exist (u ∷ rest) base next there,
        )

    scan_file-all_exist :
        (ts : Option (List String)) (base : String) (ps : List String)
        → all_exist ps ≡ true
        → all_exist (scan_file s ts base ps).files ≡ true
    scan_file-all_exist none base ps h = h
    scan_file-all_exist (some ts) base ps h =
        scan_tokens-all_exist (unquote_all s ts) base (record { files = ps; lists = [] }) h

    step-all_exist : (w : Walk) → all_exist w.files ≡ true → all_exist (step s w).files ≡ true
    unfolding step
    step-all_exist w h =
        elim w.pending as (λ ps. all_exist (step s (record w { pending = ps })).files ≡ true) [
          | [] ↦ h
          | (list, base) ∷ rest ↦ ground (
            arith,
            h,
            add-all_exist list w.files,
            scan_file-all_exist (s.tokens list) base (add list w.files),
          )
        ]

    walk-all_exist :
        (n : ℕ) (w : Walk) → all_exist w.files ≡ true → all_exist (walk s n w).files ≡ true
    unfolding walk
    walk-all_exist zero w h = h
    walk-all_exist (suc n) w h = walk-all_exist n (step s w) (step-all_exist w h)

    -- If the walk through a directory gives files only, every path that the search gives is one of a
    -- file, after any number of rounds.
    pub discover_filelist_inputs-all_exist :
        (rounds : ℕ) (path directory : String)
        → all_exist (discover_filelist_inputs s rounds path directory) ≡ true
    unfolding discover_filelist_inputs all_exist
    discover_filelist_inputs-all_exist rounds path directory =
        ground (arith, walk-all_exist rounds (start s path directory) refl)
