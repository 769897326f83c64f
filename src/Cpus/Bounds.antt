-- ===== src/Cpus/Bounds.antt =====
-- The number of CPUs is positive and within what the process has been given.
use rules_verilog.Base.{
  ℕ, zero, suc, ◌≤◌, ◌<◌, ◌≡◌, refl, Bool, true, false, String, Option, none, some, List, [], ◌∷◌,
  ltb, ltb→lt, min, arith, if◌then◌else◌,
}
use rules_verilog.Base.Int.{ℤ, pos, negsuc}
use rules_verilog.Cpus.{
  Texts, Environment, Source, positive_number, positive_integer, nonzero, or_one, least, add_pair,
  pairs, seconds, local_or, choose_slots, lsf_host_slots, count_local, add_slot, slots_by_host,
  least_slots, lsf_host_list_slots, capped, lsf_total, fallback, resolve, bind_int,
  detect_allocated_cpus,
}

-- Nothing, or a number that is positive.
abbrev pub IsPositive : Option ℕ → Type 0
IsPositive none = Unit
IsPositive (some n) = 1 ≤ n

-- Every host of the pairs has a slot.
abbrev pub HaveSlots : List (String × ℕ) → Type 0
HaveSlots [] = Unit
HaveSlots ((_, n) ∷ ps) = (1 ≤ n) × HaveSlots ps

abbrev pub HaveSlotsIfAny : Option (List (String × ℕ)) → Type 0
HaveSlotsIfAny none = Unit
HaveSlotsIfAny (some ps) = HaveSlots ps

positive_number-IsPositive : (z : Option ℤ) → IsPositive (positive_number z)
positive_number-IsPositive none = tt
positive_number-IsPositive (some (pos zero)) = tt
positive_number-IsPositive (some (pos (suc n))) = omega arith
positive_number-IsPositive (some (negsuc n)) = tt

nonzero-IsPositive : (n : Option ℕ) → IsPositive (nonzero n)
nonzero-IsPositive none = tt
nonzero-IsPositive (some zero) = tt
nonzero-IsPositive (some (suc n)) = omega arith

or_one-pos : (n : Option ℕ) → 1 ≤ or_one n
or_one-pos none = omega arith
or_one-pos (some zero) = omega arith
or_one-pos (some (suc n)) = omega arith

module _ (t : Texts) where
  add_pair-HaveSlots :
      (host : String) (n : Option ℕ) (ps : Option (List (String × ℕ)))
      → IsPositive n
      → HaveSlotsIfAny ps
      → HaveSlotsIfAny (add_pair t host n ps)
  add_pair-HaveSlots host none ps h k = tt
  add_pair-HaveSlots host (some n) none h k = tt
  add_pair-HaveSlots host (some n) (some ps) h k = (h, k)

  pairs-HaveSlots : (tokens : List String) → HaveSlotsIfAny (pairs t tokens)
  unfolding pairs
  pairs-HaveSlots [] = tt
  pairs-HaveSlots (host ∷ []) = tt
  pairs-HaveSlots (host ∷ (slots ∷ tokens)) =
      add_pair-HaveSlots host (positive_integer t (some slots)) (pairs t tokens)
        (positive_number-IsPositive (t.int slots)) (pairs-HaveSlots tokens)

  least-pos : (n : ℕ) (ps : List (String × ℕ)) → 1 ≤ n → HaveSlots ps → 1 ≤ least n (seconds t ps)
  least-pos n [] h k = h
  least-pos n ((host, m) ∷ ps) h k = least-pos (min n m) ps (omega (arith, k.0)) k.1

  local_or-pos :
      (hostname : String) (d : ℕ) (ps : List (String × ℕ))
      → 1 ≤ d
      → HaveSlots ps
      → 1 ≤ local_or t hostname d ps
  local_or-pos hostname d [] h k = h
  local_or-pos hostname d ((host, n) ∷ ps) h k =
      ground (arith, k.0, local_or-pos hostname d ps h k.1)

  choose_slots-IsPositive :
      (hostname : String) (ps : Option (List (String × ℕ)))
      → HaveSlotsIfAny ps
      → IsPositive (choose_slots t hostname ps)
  choose_slots-IsPositive hostname none h = tt
  choose_slots-IsPositive hostname (some []) h = tt
  choose_slots-IsPositive hostname (some ((host, n) ∷ [])) h = h.0
  choose_slots-IsPositive hostname (some ((host, n) ∷ (q ∷ qs))) h =
      local_or-pos hostname (least n (seconds t (q ∷ qs))) ((host, n) ∷ (q ∷ qs))
        (least-pos n (q ∷ qs) h.0 h.1) h

  add_slot-HaveSlots :
      (name : String) (ps : List (String × ℕ)) → HaveSlots ps → HaveSlots (add_slot t name ps)
  add_slot-HaveSlots name [] h = (omega arith, tt)
  add_slot-HaveSlots name ((host, n) ∷ ps) h =
      ground (arith, h.0, h.1, add_slot-HaveSlots name ps h.1)

  slots_by_host-HaveSlots :
      (hosts : List String) (ps : List (String × ℕ))
      → HaveSlots ps
      → HaveSlots (slots_by_host t hosts ps)
  slots_by_host-HaveSlots [] ps h = h
  slots_by_host-HaveSlots (k ∷ hosts) ps h =
      slots_by_host-HaveSlots hosts (add_slot t (t.lower (t.short k)) ps)
        (add_slot-HaveSlots (t.lower (t.short k)) ps h)

  least_slots-IsPositive : (ps : List (String × ℕ)) → HaveSlots ps → IsPositive (least_slots t ps)
  least_slots-IsPositive [] h = tt
  least_slots-IsPositive ((host, n) ∷ ps) h = least-pos n ps h.0 h.1

  list_slots-IsPositive :
      (hosts : List String) (hostname : String) → IsPositive (lsf_host_list_slots t hosts hostname)
  unfolding lsf_host_list_slots
  list_slots-IsPositive hosts hostname =
      split (ltb 0 (count_local t hostname hosts)) (ltb→lt 0 (count_local t hostname hosts))
    where
      split :
          (b : Bool)
          → (b ≡ true → 0 < count_local t hostname hosts)
          → IsPositive (
              if b
              then some (count_local t hostname hosts)
              else least_slots t (slots_by_host t hosts []))
      split true h = h refl
      split false h =
          least_slots-IsPositive (slots_by_host t hosts []) (slots_by_host-HaveSlots hosts [] tt)

  -- What holds of a result, for the affinity of the process.
  abbrev pub IsAllowed : Option ℕ → ℕ → Type 0
  IsAllowed none n = 1 ≤ n
  IsAllowed (some a) n = (1 ≤ n) × (n ≤ a)

  capped-IsAllowed :
      (a : Option ℕ) (n : ℕ) (s : Bool → Source)
      → IsPositive a
      → 1 ≤ n
      → IsAllowed a (capped t a n s).0
  capped-IsAllowed none n s h k = k
  capped-IsAllowed (some a) n s h k = (ground arith, ground arith)

  lsf_total-IsAllowed : (a : Option ℕ) (n : ℕ) → IsPositive a → IsAllowed a (lsf_total t a n).0
  lsf_total-IsAllowed none n h = omega arith
  lsf_total-IsAllowed (some a) n h = (ground arith, ground arith)

  fallback-IsAllowed : (a h : Option ℕ) → IsPositive a → IsAllowed a (fallback t a h).0
  fallback-IsAllowed none h k = omega (arith, or_one-pos h)
  fallback-IsAllowed (some a) h k = (omega arith, omega arith)

  resolve-IsAllowed :
      (a h x y z w : Option ℕ)
      → IsPositive a
      → IsPositive x
      → IsPositive y
      → IsPositive z
      → IsAllowed a (resolve t a h x y z w).0
  resolve-IsAllowed a h (some n) y z w p i j k = capped-IsAllowed a n Source.lsb_mcpu_hosts p i
  resolve-IsAllowed a h none (some n) z w p i j k = capped-IsAllowed a n Source.lsb_hosts p j
  resolve-IsAllowed a h none none (some n) w p i j k =
      capped-IsAllowed a n Source.slurm_cpus_per_task p k
  resolve-IsAllowed a h none none none (some n) p i j k = lsf_total-IsAllowed a n p
  resolve-IsAllowed a h none none none none p i j k = fallback-IsAllowed a h p

  -- For every environment, at least one CPU is allocated, and never more than the CPU affinity of the
  -- process allows where it is known.
  pub detect_allocated_cpus-IsAllowed :
      (e : Environment) → IsAllowed (nonzero e.affinity) (detect_allocated_cpus t e).0
  unfolding detect_allocated_cpus lsf_host_slots
  detect_allocated_cpus-IsAllowed e =
      resolve-IsAllowed (nonzero e.affinity) e.host_cpu_count
        (choose_slots t e.hostname (pairs t e.lsb_mcpu_hosts))
        (lsf_host_list_slots t e.lsb_hosts e.hostname) (positive_integer t e.slurm_cpus_per_task)
        (positive_integer t e.lsb_djob_numproc) (nonzero-IsPositive e.affinity)
        (choose_slots-IsPositive e.hostname (pairs t e.lsb_mcpu_hosts)
          (pairs-HaveSlots e.lsb_mcpu_hosts))
        (list_slots-IsPositive e.lsb_hosts e.hostname)
        (positive_number-IsPositive (bind_int t e.slurm_cpus_per_task))
