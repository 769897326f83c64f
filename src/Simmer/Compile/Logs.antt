-- ===== src/Simmer/Compile/Logs.antt =====
-- bin/simmer.py, VCompJob.post_run: what the check of the log makes of each status.
use rules_verilog.Base.{
  ℕ, suc, ◌∷◌, ◌≡◌, refl, Bool, true, false, ◌&&◌, String, Option, none, some, List, [], ◌↔◌, ◌⊎◌,
  Bool-cases, inl, inr, arith,
}
use rules_verilog.Status.{bypassed, passed, failed}
use rules_verilog.Simmer.Compile.{
  Warnings, Post, is_zero, check_warnings, scan_loaded, scan_warnings, load_waivers,
}
use rules_verilog.Simmer.Compile.Harmless.{
  AllHarmless, scan_warnings-failed, scan_warnings-passed, scan_warnings-cases,
}

-- The waivers and the log are read, and every warning of the log is ignored or waived.
abbrev pub ReadsClean : Warnings → Option (List String) → Option (List String) → Type 0
ReadsClean w (some waivers) (some lines) = AllHarmless w waivers 1 lines
ReadsClean w _ _ = false ≡ true

-- The check of the log lets a compile pass: there is nothing to check, or the log is clean.
abbrev pub LogPasses : Warnings → Post → Type 0
LogPasses w p = (p.waivers_exist && p.log_exists ≡ false) ⊎ ReadsClean w p.waivers p.log

scan_loaded-failed :
    (w : Warnings) (z : Bool) (ws : List String) (log : Option (List String))
    → scan_loaded w z (ws, failed) log ≡ failed
scan_loaded-failed w z ws none = ground arith
scan_loaded-failed w z ws (some lines) = ground (arith, scan_warnings-failed w ws 1 lines)

scan_loaded-passed :
    (w : Warnings) (z : Bool) (waivers log : Option (List String))
    → (scan_loaded w z (load_waivers waivers passed) log ≡ passed) ↔ ReadsClean w waivers log
scan_loaded-passed w z (some ws) (some lines) = scan_warnings-passed w ws 1 lines
scan_loaded-passed w z (some ws) none = (λ h. ground arith, λ h. ground arith)
scan_loaded-passed w z none log =
    (λ h. absurd (ground (arith, scan_loaded-failed w z [] log)), λ h. ground arith)

scan_loaded-cases :
    (w : Warnings) (z : Bool) (waivers log : Option (List String))
    → (scan_loaded w z (load_waivers waivers passed) log ≡ passed)
      ⊎ (scan_loaded w z (load_waivers waivers passed) log ≡ failed)
scan_loaded-cases w z (some ws) (some lines) = scan_warnings-cases w ws 1 lines
scan_loaded-cases w z (some ws) none = inr refl
scan_loaded-cases w z none log = inr (scan_loaded-failed w z [] log)

load_failed :
    (w : Warnings) (z : Bool) (waivers log : Option (List String))
    → scan_loaded w z (load_waivers waivers failed) log ≡ failed
load_failed w z none log = scan_loaded-failed w z [] log
load_failed w z (some ws) log = scan_loaded-failed w z ws log

pub check_warnings-failed : (w : Warnings) (p : Post) → check_warnings w p failed ≡ failed
unfolding check_warnings
check_warnings-failed w p = ground (arith, load_failed w (is_zero p.returncode) p.waivers p.log)

pub check_warnings-passed :
    (w : Warnings) (p : Post) → (check_warnings w p passed ≡ passed) ↔ LogPasses w p
unfolding check_warnings
check_warnings-passed w p =
    let clean = scan_loaded-passed w (is_zero p.returncode) p.waivers p.log in
    (
      λ h. elim (Bool-cases (p.waivers_exist && p.log_exists)) [
        | inl e ↦ inr (clean.0 (ground arith))
        | inr e ↦ inl e
      ],
      λ h. elim h [ inl e ↦ ground arith | inr e ↦ ground (arith, clean.1 e) ],
    )

pub check_warnings-cases :
    (w : Warnings) (p : Post)
    → (check_warnings w p passed ≡ passed) ⊎ (check_warnings w p passed ≡ failed)
unfolding check_warnings
check_warnings-cases w p =
    ground (arith, scan_loaded-cases w (is_zero p.returncode) p.waivers p.log)

pub check_warnings-bypassed : (w : Warnings) (p : Post) → check_warnings w p bypassed ≡ bypassed
unfolding check_warnings
check_warnings-bypassed w p = ground (arith, scan_bypassed w (is_zero p.returncode) p.waivers p.log)
  where
    lines_bypassed :
        (w : Warnings) (ws : List String) (n : ℕ) (lines : List String)
        → scan_warnings w ws n lines bypassed ≡ bypassed
    lines_bypassed w ws n [] = refl
    lines_bypassed w ws n (line ∷ lines) = ground (arith, lines_bypassed w ws (suc n) lines)

    scan_bypassed :
        (w : Warnings) (z : Bool) (waivers log : Option (List String))
        → scan_loaded w z (load_waivers waivers bypassed) log ≡ bypassed
    scan_bypassed w z none none = ground arith
    scan_bypassed w z (some ws) none = ground arith
    scan_bypassed w z none (some lines) = ground (arith, lines_bypassed w [] 1 lines)
    scan_bypassed w z (some ws) (some lines) = ground (arith, lines_bypassed w ws 1 lines)
