-- ===== src/Cpus.antt =====
-- lib/job_lib.py, detect_allocated_cpus and its helpers: how many CPUs the process may use, from the
-- variables of the LSF and Slurm schedulers, the CPU affinity and the host. `int`, `lower` and
-- `split` of Python's texts are parameters, and a variable that is split is the list of its words.
pub mod Bounds
mod Examples
use rules_verilog.Base.{
  ℕ, zero, suc, ◌+◌, ◌%◌, Bool, true, false, ◌&&◌, ◌||◌, not, String, Option, none, some, List, [],
  ◌∷◌, length, ltb, ◌==◌, min, if◌then◌else◌,
}
use rules_verilog.Base.Int.{ℤ, pos, negsuc}
use rules_verilog.Results.Text.{str_eq}

pub record Texts : Type 0 where
  pub int : String → Option ℤ  -- `none` is the ValueError
  pub lower : String → String
  pub short : String → String  -- `host.split('.', 1)[0]`

-- The variables that are read, the size of the affinity set, `none` where it cannot be read, and
-- `os.cpu_count()`.
pub record Environment : Type 0 where
  pub lsb_mcpu_hosts : List String
  pub lsb_hosts : List String
  pub slurm_cpus_per_task : Option String
  pub lsb_djob_numproc : Option String
  pub hostname : String
  pub affinity : Option ℕ
  pub host_cpu_count : Option ℕ

pub data Source : Type 0 where
  lsb_mcpu_hosts lsb_hosts slurm_cpus_per_task lsb_djob_numproc : (capped : Bool) → Source
  conservative affinity_fallback host_fallback : Source

abbrev pub positive_number : Option ℤ → Option ℕ
positive_number none = none
positive_number (some (pos zero)) = none
positive_number (some (pos (suc n))) = some (suc n)
positive_number (some (negsuc n)) = none

-- `len(...) or None`, and the default of `host_cpu_count or 1`.
abbrev pub nonzero : Option ℕ → Option ℕ
nonzero none = none
nonzero (some zero) = none
nonzero (some (suc n)) = some (suc n)

abbrev pub or_one : Option ℕ → ℕ
or_one none = 1
or_one (some zero) = 1
or_one (some (suc n)) = suc n

-- `min` of a list that is not empty.
abbrev pub least : ℕ → List ℕ → ℕ
least n [] = n
least n (k ∷ ks) = least (min n k) ks

module _ (t : Texts) where
  abbrev pub bind_int : Option String → Option ℤ
  bind_int none = none
  bind_int (some s) = t.int s

  abbrev pub positive_integer : Option String → Option ℕ
  positive_integer value = positive_number (bind_int value)

  abbrev pub add_pair : String → Option ℕ → Option (List (String × ℕ)) → Option (List (String × ℕ))
  add_pair host none rest = none
  add_pair host (some slots) none = none
  add_pair host (some slots) (some rest) = some ((host, slots) ∷ rest)

  -- The loop over the tokens, two at a time. A list of odd length has no pairs.
  unfoldable pub pairs : List String → Option (List (String × ℕ))
  pairs [] = some []
  pairs (host ∷ []) = none
  pairs (host ∷ (slots ∷ tokens)) = add_pair host (positive_integer (some slots)) (pairs tokens)

  abbrev pub is_local_name : String → String → Bool
  is_local_name hostname name =
      str_eq name (t.lower hostname) || str_eq name (t.lower (t.short hostname))

  abbrev pub is_local : String → String → Bool
  is_local hostname host =
      is_local_name hostname (t.lower host) || is_local_name hostname (t.lower (t.short host))

  abbrev pub seconds : List (String × ℕ) → List ℕ
  seconds [] = []
  seconds ((_, n) ∷ ps) = n ∷ seconds ps

  -- The loop over the pairs, with the minimum that is returned behind it.
  abbrev pub local_or : String → ℕ → List (String × ℕ) → ℕ
  local_or hostname default [] = default
  local_or hostname default ((host, slots) ∷ ps) =
      if is_local hostname host then slots else local_or hostname default ps

  abbrev pub choose_slots : String → Option (List (String × ℕ)) → Option ℕ
  choose_slots hostname none = none
  choose_slots hostname (some []) = none
  choose_slots hostname (some ((host, slots) ∷ [])) = some slots
  choose_slots hostname (some ((host, slots) ∷ (q ∷ qs))) =
      some (local_or hostname (least slots (seconds (q ∷ qs))) ((host, slots) ∷ (q ∷ qs)))

  unfoldable pub lsf_host_slots : List String → String → Option ℕ
  unfolding pairs
  lsf_host_slots tokens hostname = choose_slots hostname (pairs tokens)

  abbrev pub count_local : String → List String → ℕ
  count_local hostname [] = 0
  count_local hostname (h ∷ hs) =
      if is_local hostname h then suc (count_local hostname hs) else count_local hostname hs

  -- `slots_by_host[short_name] = slots_by_host.get(short_name, 0) + 1`.
  abbrev pub add_slot : String → List (String × ℕ) → List (String × ℕ)
  add_slot name [] = (name, 1) ∷ []
  add_slot name ((host, n) ∷ slots) =
      if str_eq name host then (host, n + 1) ∷ slots else (host, n) ∷ add_slot name slots

  abbrev pub slots_by_host : List String → List (String × ℕ) → List (String × ℕ)
  slots_by_host [] slots = slots
  slots_by_host (h ∷ hs) slots = slots_by_host hs (add_slot (t.lower (t.short h)) slots)

  abbrev pub least_slots : List (String × ℕ) → Option ℕ
  least_slots [] = none
  least_slots ((_, n) ∷ slots) = some (least n (seconds slots))

  unfoldable pub lsf_host_list_slots : List String → String → Option ℕ
  lsf_host_list_slots hosts hostname =
      if ltb 0 (count_local hostname hosts)
      then some (count_local hostname hosts)
      else least_slots (slots_by_host hosts [])

  -- `affinity_count is not None and affinity_count < slots`.
  abbrev pub capped : Option ℕ → ℕ → (Bool → Source) → ℕ × Source
  capped none slots source = (slots, source false)
  capped (some n) slots source = if ltb n slots then (n, source true) else (slots, source false)

  abbrev pub lsf_total : Option ℕ → ℕ → ℕ × Source
  lsf_total none total = (1, if total == 1 then lsb_djob_numproc false else conservative)
  lsf_total (some n) total =
      if ltb n total
      then (n, lsb_djob_numproc true)
      else (1, if total == 1 then lsb_djob_numproc false else conservative)

  abbrev pub fallback : Option ℕ → Option ℕ → ℕ × Source
  fallback (some n) host_cpu_count = (min n 8, affinity_fallback)
  fallback none host_cpu_count = (min (or_one host_cpu_count) 8, host_fallback)

  -- The guards in the order of the code: the slots of the two host lists, then of Slurm, then the
  -- total of LSF.
  abbrev pub resolve :
      (affinity host_cpu_count : Option ℕ)
      → (mcpu_slots list_slots slurm_cpus total : Option ℕ) → ℕ × Source
  resolve a h (some slots) hosts slurm total = capped a slots lsb_mcpu_hosts
  resolve a h none (some slots) slurm total = capped a slots lsb_hosts
  resolve a h none none (some cpus) total = capped a cpus slurm_cpus_per_task
  resolve a h none none none (some total) = lsf_total a total
  resolve a h none none none none = fallback a h

  unfoldable pub detect_allocated_cpus : Environment → ℕ × Source
  unfolding lsf_host_slots lsf_host_list_slots
  detect_allocated_cpus e =
      resolve (nonzero e.affinity) e.host_cpu_count (lsf_host_slots e.lsb_mcpu_hosts e.hostname)
        (lsf_host_list_slots e.lsb_hosts e.hostname) (positive_integer e.slurm_cpus_per_task)
        (positive_integer e.lsb_djob_numproc)
