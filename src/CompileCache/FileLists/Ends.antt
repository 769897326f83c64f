-- ===== src/CompileCache/FileLists/Ends.antt =====
-- lib/compile_cache.py, discover_filelist_inputs: how many rounds its loop takes.
use rules_verilog.Base.{
  ℕ, zero, suc, ◌+◌, ◌≤◌, ◌<◌, ◌≡◌, ◌⊎◌, inl, inr, refl, ap, sym, ◌∙◌, subst, true, false, String,
  Option, none, some, List, [], ◌∷◌, length, length-append, Bool-cases, if◌then◌else◌, arith,
}
use rules_verilog.Results.Text.{has, str_eq, str_eq_iff}
use rules_verilog.CompileCache.FileLists.{
  System, Kind, nested, nested_at_own, library_file, library_directory, include, nested_is,
  includes, option, source, Found, Walk, kind, handle, takes_next, scan_tokens, unquote_all,
  scan_file, add, step, walk, start, discover_filelist_inputs,
}

module _ (s : System) where
  unfoldable pub own_list : Kind → Option String → ℕ
  own_list nested (some u) = 1
  own_list nested_at_own (some u) = 1
  own_list (nested_is path) u = 1
  own_list _ u = 0

  length-handle :
      (k : Kind) (t : String) (u : Option String) (base : String) (found : Found)
      → length (handle s k t u base found).lists ≡ own_list k u + length found.lists
  unfolding handle own_list
  length-handle nested t (some u) base found = omega arith
  length-handle nested t none base found = omega arith
  length-handle nested_at_own t (some u) base found = omega arith
  length-handle nested_at_own t none base found = omega arith
  length-handle (nested_is path) t u base found = omega arith
  length-handle library_file t (some u) base found = omega arith
  length-handle library_file t none base found = omega arith
  length-handle library_directory t (some u) base found = omega arith
  length-handle library_directory t none base found = omega arith
  length-handle include t (some u) base found = omega arith
  length-handle include t none base found = omega arith
  length-handle (includes ds) t u base found = omega arith
  length-handle option t u base found = omega arith
  length-handle source t u base found = omega arith

  -- How many nested filelists the tokens name.
  unfoldable pub refs : List String → ℕ
  refs [] = 0
  refs (t ∷ []) = own_list (kind s t) none
  refs (t ∷ (u ∷ rest)) =
      own_list (kind s t) (some u)
      + (elim (takes_next s (kind s t)) [ true ↦ refs rest | false ↦ refs (u ∷ rest) ])

  length-scan_tokens :
      (ts : List String) (base : String) (found : Found)
      → length (scan_tokens s ts base found).lists ≡ refs ts + length found.lists
  unfolding scan_tokens refs
  length-scan_tokens [] base found = omega arith
  length-scan_tokens (t ∷ []) base found = length-handle (kind s t) t none base found
  length-scan_tokens (t ∷ (u ∷ rest)) base found =
      let next = handle s (kind s t) t (some u) base found in
      ground (
        arith,
        length-handle (kind s t) t (some u) base found,
        length-scan_tokens rest base next,
        length-scan_tokens (u ∷ rest) base next,
      )

  unfoldable pub refs_of : Option (List String) → ℕ
  refs_of none = 0
  refs_of (some ts) = refs (unquote_all s ts)

  length-scan_file :
      (ts : Option (List String)) (base : String) (files : List String)
      → length (scan_file s ts base files).lists ≡ refs_of ts
  unfolding refs_of
  length-scan_file none base files = omega arith
  length-scan_file (some ts) base files =
      omega
        (arith, length-scan_tokens (unquote_all s ts) base (record { files = files; lists = [] }))

  -- How many nested filelists the files name that are not parsed yet.
  unfoldable pub todo : List String → List String → ℕ
  todo [] parsed = 0
  todo (u ∷ us) parsed = (if has u parsed then 0 else refs_of (s.tokens u)) + todo us parsed

  todo_mono : (p : String) (all parsed : List String) → todo all (p ∷ parsed) ≤ todo all parsed
  unfolding todo
  todo_mono p [] parsed = omega arith
  todo_mono p (u ∷ us) parsed = ground (arith, todo_mono p us parsed)

  todo_drop :
      (p : String) (all parsed : List String)
      → has p all ≡ true
      → has p parsed ≡ false
      → refs_of (s.tokens p) + todo all (p ∷ parsed) ≤ todo all parsed
  unfolding todo
  todo_drop p [] parsed known fresh = ground arith
  todo_drop p (u ∷ us) parsed known fresh = elim (Bool-cases (str_eq p u)) [
    | inl same ↦ todo_drop_first u ((str_eq_iff p u).0 same)
    | inr other ↦ ground (arith, todo_drop p us parsed)
  ]
    where
      todo_drop_first :
          (v : String)
          → p ≡ v
          → refs_of (s.tokens p) + todo (v ∷ us) (p ∷ parsed) ≤ todo (v ∷ us) parsed
      todo_drop_first v e =
          subst (λ v. refs_of (s.tokens p) + todo (v ∷ us) (p ∷ parsed) ≤ todo (v ∷ us) parsed) e
            (ground (arith, (str_eq_iff p p).1 refl, todo_mono p us parsed))

  measure : List String → Walk → ℕ
  measure all w = length w.pending + todo all w.parsed

  step-measure :
      (all : List String)
      → ((p : String) → s.is_file p ≡ true → has p all ≡ true)
      → (w : Walk) → (w.pending ≡ []) ⊎ (measure all (step s w) < measure all w)
  unfolding step measure
  step-measure all known w =
      elim w.pending
        as (λ ps.
          (ps ≡ [])
          ⊎ (measure all (step s (record w { pending = ps }))
              < measure all (record w { pending = ps }))) [
                | [] ↦ inl refl
                | (list, base) ∷ rest ↦ inr (
                    ground (
                      arith,
                      known list,
                      todo_mono list all w.parsed,
                      todo_drop list all w.parsed,
                      length-scan_file (s.tokens list) base (add list w.files),
                      length-append (scan_file s (s.tokens list) base (add list w.files)).lists
                          rest,
                    ))
              ]

  step_settled : (w : Walk) → w.pending ≡ [] → step s w ≡ w
  unfolding step
  step_settled w h =
      subst (λ ps. step s (record w { pending = ps }) ≡ (record w { pending = ps })) (sym h) refl

  pub walk_settled : (n : ℕ) (w : Walk) → w.pending ≡ [] → walk s n w ≡ w
  unfolding walk
  walk_settled zero w h = refl
  walk_settled (suc n) w h = ap (walk s n) (step_settled w h) ∙ walk_settled n w h

  zero_add : (m : ℕ) → 0 + m ≡ m
  zero_add m = omega arith

  suc_add : (n m : ℕ) → suc n + m ≡ suc (n + m)
  suc_add n m = omega arith

  walk_add : (n m : ℕ) (w : Walk) → walk s (n + m) w ≡ walk s m (walk s n w)
  unfolding walk
  walk_add zero m w = ap (λ k. walk s k w) (zero_add m)
  walk_add (suc n) m w = ap (λ k. walk s k w) (suc_add n m) ∙ walk_add n m (step s w)

  walk_ends :
      (all : List String)
      → ((p : String) → s.is_file p ≡ true → has p all ≡ true)
      → (n : ℕ) (w : Walk) → measure all w ≤ n
      → (walk s n w).pending ≡ []
  unfolding walk measure
  walk_ends all known zero w h =
      (elim w.pending as (λ ps. length ps ≤ 0 → ps ≡ []) [
        | [] ↦ λ l. refl
        | p ∷ ps ↦ λ l. ground arith
      ])
        (omega arith)
  walk_ends all known (suc n) w h = elim (step-measure all known w) [
    | inl done ↦ ap (λ v. v.pending) (walk_settled (suc n) w done) ∙ done
    | inr less ↦ walk_ends all known n (step s w) (omega arith)
  ]

  -- The search through nested filelists ends, cycles of filelists included: with one round more than
  -- the existing files name nested filelists, nothing is left pending, and more rounds give the same
  -- files. It is enough that a list has every existing file.
  pub discover_filelist_inputs_ends :
      (all : List String)
      → ((p : String) → s.is_file p ≡ true → has p all ≡ true)
      → (path directory : String) (more : ℕ)
      → let enough = suc (todo all []) in
        (walk s enough (start s path directory)).pending ≡ []
        × discover_filelist_inputs s (enough + more) path directory
          ≡ discover_filelist_inputs s enough path directory
  unfolding discover_filelist_inputs measure
  discover_filelist_inputs_ends all known path directory more =
      let w = start s path directory in
      let enough = suc (todo all []) in
      let ended : (walk s enough w).pending ≡ [] = walk_ends all known enough w (omega arith) in
      (
        ended,
        ap (λ (v : Walk). if str_eq path "" then [] else v.files)
            (walk_add enough more w ∙ walk_settled more (walk s enough w) ended),
      )
