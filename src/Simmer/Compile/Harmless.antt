-- ===== src/Simmer/Compile/Harmless.antt =====
-- bin/simmer.py, VCompJob.post_run: the scan of the compile log for warnings.
use rules_verilog.Base.{
  ℕ, suc, ◌≡◌, refl, subst, true, false, String, List, [], ◌∷◌, ◌↔◌, ◌⊎◌, Bool-cases, inl, inr,
  arith,
}
use rules_verilog.Results.Text.{str_eq, str_eq_iff, has}
use rules_verilog.Status.{passed, failed}
use rules_verilog.Simmer.Compile.{Warnings, is_waived, is_unwaived, scan_warnings}

-- A line with its number does no harm: it is no warning, it is ignored, it is blank, or one of the
-- waivers is found in it.
abbrev pub Harmless : Warnings → List String → ℕ → String → Type 0
Harmless w waivers n line =
    (w.is_warning line ≡ false)
    ⊎ (w.is_ignored n ≡ true)
    ⊎ (w.strip line ≡ "")
    ⊎ (waiver : String) × (has waiver waivers ≡ true) × (w.search waiver (w.strip line) ≡ true)

waived_by :
    (w : Warnings) (waivers : List String) (line : String)
    → is_waived w waivers line ≡ true
    → (waiver : String) × (has waiver waivers ≡ true) × (w.search waiver line ≡ true)
waived_by w [] line h = ground arith
waived_by w (p ∷ ps) line h = elim (Bool-cases (w.search p line)) [
  | inl e ↦ (p, ground (arith, str_eq_iff p p), e)
  | inr e ↦ let (q, there, found) = waived_by w ps line (rw e at h) in (q, ground arith, found)
]

by_waived :
    (w : Warnings) (waivers : List String) (line waiver : String)
    → has waiver waivers ≡ true
    → w.search waiver line ≡ true
    → is_waived w waivers line ≡ true
by_waived w [] line waiver h e = ground arith
by_waived w (p ∷ ps) line waiver h e = elim (Bool-cases (str_eq waiver p)) [
  | inl this ↦ rw (subst (λ q. w.search q line ≡ true) ((str_eq_iff waiver p).0 this) e) refl
  | inr other ↦ ground (arith, by_waived w ps line waiver (rw other at h) e)
]

is_unwaived-Harmless :
    (w : Warnings) (waivers : List String) (n : ℕ) (line : String)
    → (is_unwaived w waivers n line ≡ false) ↔ Harmless w waivers n line
is_unwaived-Harmless w waivers n line =
    let blank = str_eq_iff (w.strip line) "" in
    (
      λ h. elim (Bool-cases (is_waived w waivers (w.strip line))) [
        | inl e ↦ inr (inr (inr (waived_by w waivers (w.strip line) e)))
        | inr e ↦ elim (Bool-cases (str_eq (w.strip line) "")) [
          | inl b ↦ inr (inr (inl (blank.0 b)))
          | inr b ↦ elim (Bool-cases (w.is_warning line)) [
            | inl i ↦ inr (inl (ground arith))
            | inr i ↦ inl i
          ]
        ]
      ],
      λ h. elim h [
        | inl e ↦ ground arith
        | inr (inl e) ↦ ground arith
        | inr (inr (inl e)) ↦ ground (arith, blank)
        | inr (inr (inr (q, there, found))) ↦
            ground (arith, by_waived w waivers (w.strip line) q there found)
      ],
    )

-- No line, with numbers from `n` on, is an unwaived warning.
abbrev pub AllHarmless : Warnings → List String → ℕ → List String → Type 0
AllHarmless w waivers n [] = Unit
AllHarmless w waivers n (line ∷ lines) =
    Harmless w waivers n line × AllHarmless w waivers (suc n) lines

pub scan_warnings-failed :
    (w : Warnings) (waivers : List String) (n : ℕ) (lines : List String)
    → scan_warnings w waivers n lines failed ≡ failed
scan_warnings-failed w waivers n [] = refl
scan_warnings-failed w waivers n (line ∷ lines) =
    ground (arith, scan_warnings-failed w waivers (suc n) lines)

pub scan_warnings-passed :
    (w : Warnings) (waivers : List String) (n : ℕ) (lines : List String)
    → (scan_warnings w waivers n lines passed ≡ passed) ↔ AllHarmless w waivers n lines
scan_warnings-passed w waivers n [] = (λ h. tt, λ h. refl)
scan_warnings-passed w waivers n (line ∷ lines) =
    let rest = scan_warnings-passed w waivers (suc n) lines in
    let fails = scan_warnings-failed w waivers (suc n) lines in
    (
      λ h. elim (Bool-cases (is_unwaived w waivers n line)) [
        | inl e ↦ absurd (ground (arith, fails))
        | inr e ↦ ((is_unwaived-Harmless w waivers n line).0 e, rest.0 (ground arith))
      ],
      λ h. rw ((is_unwaived-Harmless w waivers n line).1 h.0) (rest.1 h.1),
    )

pub scan_warnings-cases :
    (w : Warnings) (waivers : List String) (n : ℕ) (lines : List String)
    → (scan_warnings w waivers n lines passed ≡ passed)
      ⊎ (scan_warnings w waivers n lines passed ≡ failed)
scan_warnings-cases w waivers n [] = inl refl
scan_warnings-cases w waivers n (line ∷ lines) = ground (
  arith,
  scan_warnings-failed w waivers (suc n) lines,
  scan_warnings-cases w waivers (suc n) lines,
)
