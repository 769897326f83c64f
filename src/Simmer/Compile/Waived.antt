-- ===== src/Simmer/Compile/Waived.antt =====
-- bin/simmer.py, VCompJob.post_run: when a compile passes.
use rules_verilog.Base.{
  ◌≡◌, refl, sym, ap, ◌∙◌, subst, Bool, true, false, not, ◌&&◌, ◌||◌, if◌then◌else◌, ◌↔◌, ◌⊎◌, ◌≢◌,
  Bool-cases, inl, inr, arith,
}
use rules_verilog.Status.{
  JobStatus, not_started, to_be_bypassed, bypassed, passed, failed, update, moved, value_error,
}
use rules_verilog.CompileCache.Fingerprint.{Stored, holds}
use rules_verilog.Simmer.Compile.{
  Request, Warnings, Post, returned, uncaught, PostEnd, ended_status, raise_post, post_run, is_zero,
  fail_if_passed, finish_compile, check_warnings,
}
use rules_verilog.Simmer.Compile.Logs.{
  LogPasses, check_warnings-failed, check_warnings-passed, check_warnings-cases,
  check_warnings-bypassed,
}

-- The conditions under which a compile is judged as passed: it returned 0, its log passes, its hooks
-- return, and a real compile leaves its artifacts.
abbrev pub JudgesPassed : Warnings → Post → Request → Bool → Type 0
JudgesPassed w p r hit =
    (is_zero p.returncode ≡ true)
    × LogPasses w p
    × (p.base_raises ≡ false)
    × ((r.no_compile || hit ≡ true) ⊎ (p.records ≡ returned))

-- No call raises what is not caught: the log rules are there, a real compile is recorded and its
-- fingerprint written or given up, and the metrics and the record of the job are taken.
abbrev pub Returns : Post → Request → Bool → Type 0
Returns p r hit =
    (p.parses ≡ true) × (p.ends ≡ true) × ((r.no_compile || hit ≡ true) ⊎ (p.writes ≢ uncaught))

abbrev checked : Warnings → Post → JobStatus
checked w p = check_warnings w p (if is_zero p.returncode then passed else failed)

checked-passed :
    (w : Warnings) (p : Post)
    → (checked w p ≡ passed) ↔ (is_zero p.returncode ≡ true) × LogPasses w p
checked-passed w p = elim (Bool-cases (is_zero p.returncode)) [
  | inl e ↦
      rw e (λ h. (refl, (check_warnings-passed w p).0 h), λ h. (check_warnings-passed w p).1 h.1)
  | inr e ↦ rw (e, check_warnings-failed w p) (λ h. ground arith, λ h. ground arith)
]

checked-cases : (w : Warnings) (p : Post) → (checked w p ≡ passed) ⊎ (checked w p ≡ failed)
checked-cases w p = ground (arith, check_warnings-cases w p, check_warnings-failed w p)

-- Whether the file of the fingerprint gets its new content.
abbrev pub stores : Post → Request → Bool → Bool
stores p r hit =
    not r.no_compile
    && not hit
    && p.parses
    && (elim p.records [ returned ↦ true | _ ↦ false ])
    && (elim p.writes [ returned ↦ true | _ ↦ false ])

-- The conditions under which the fingerprint is stored.
abbrev pub StoresFingerprint : Warnings → Post → Request → Bool → Type 0
StoresFingerprint w p r hit =
    (is_zero p.returncode ≡ true)
    × LogPasses w p
    × (p.base_raises ≡ false)
    × (stores p r hit ≡ true)

after_base : Post → JobStatus → JobStatus
after_base p s = if p.base_raises then fail_if_passed s else s

after_base-passed :
    (p : Post) (s : JobStatus)
    → (s ≡ passed) ⊎ (s ≡ failed)
    → ((after_base p s ≡ passed) ⊎ (after_base p s ≡ failed))
      × ((after_base p s ≡ passed) ↔ (s ≡ passed) × (p.base_raises ≡ false))
unfolding after_base
after_base-passed p s h = (ground (arith, h), (λ e. ground (arith, h), λ e. ground (arith, h)))

-- What `finish_compile` makes of the status before it.
finish_failed :
    (p : Post) (r : Request) (hit : Bool) (stored : Stored)
    → (ended_status (finish_compile p r hit stored failed) ≡ failed)
      × ((finish_compile p r hit stored failed).stored ≡ stored)
finish_failed p r hit stored = (ground arith, refl)

finish_passed :
    (p : Post) (r : Request) (hit : Bool) (stored : Stored)
    → p.parses ≡ true
    → let e = finish_compile p r hit stored passed in
      ((ended_status e ≡ passed) ⊎ (ended_status e ≡ failed))
      × ((ended_status e ≡ passed)
          ↔ ((r.no_compile || hit ≡ true) ⊎ (p.records ≡ returned)) × Returns p r hit)
      × (e.stored ≡ (if stores p r hit then holds r.expected else stored))
finish_passed p r hit stored q =
    (ground arith, (λ e. ground arith, λ e. ground arith), ground arith)

-- How a compile that was not started may end.
abbrev EndsAs : Warnings → Post → Request → Bool → Stored → PostEnd → Type 0
EndsAs w p r hit stored e =
    ((ended_status e ≡ passed) ⊎ (ended_status e ≡ failed))
    × ((ended_status e ≡ passed) ↔ JudgesPassed w p r hit × Returns p r hit)
    × ((StoresFingerprint w p r hit × (e.stored ≡ holds r.expected))
        ⊎ ((¬ StoresFingerprint w p r hit) × (e.stored ≡ stored)))

-- The end of a compile with the status `t` before it is recorded.
judged :
    (w : Warnings) (p : Post) (r : Request) (hit : Bool) (stored : Stored) (t : JobStatus)
    → p.parses ≡ true
    → (t ≡ passed) ⊎ (t ≡ failed)
    → (t ≡ passed → (is_zero p.returncode ≡ true) × LogPasses w p)
    → (t ≡ passed → p.base_raises ≡ false)
    → ((is_zero p.returncode ≡ true) × LogPasses w p → p.base_raises ≡ false → t ≡ passed)
    → EndsAs w p r hit stored (finish_compile p r hit stored t)
judged w p r hit stored t q c f g k = elim c [
  | inr bad ↦
      let no_pass : t ≢ passed = λ e. ground arith in
      rw bad (
        inr (finish_failed p r hit stored).0,
        (
          λ h. absurd (ground (arith, (finish_failed p r hit stored).0)),
          λ h. absurd (no_pass (k (h.0.0, h.0.1) h.0.2)),
        ),
        inr (λ h. no_pass (k (h.0, h.1) h.2), refl),
      )
  | inl good ↦
      let e = finish_passed p r hit stored q in
      rw good (
        e.0,
        (
          λ h. let x = e.1.0 h in (((f good).0, (f good).1, g good, x.0), x.1),
          λ h. e.1.1 (h.0.3, h.1),
        ),
        elim (Bool-cases (stores p r hit)) [
          | inl yields ↦ inl (((f good).0, (f good).1, g good, yields), ground (arith, e.2))
          | inr keeps ↦ inr (λ h. ground (arith, h.3), ground (arith, e.2))
        ],
      )
]

post_run-started :
    (w : Warnings) (p : Post) (r : Request) (hit : Bool) (stored : Stored)
    → post_run w p r hit stored not_started ≡ (
        if p.parses
        then finish_compile p r hit stored (after_base p (checked w p))
        else raise_post (if is_zero p.returncode then passed else failed) stored)
unfolding post_run update after_base
post_run-started w p r hit stored = with_code (is_zero p.returncode) p.parses
  where
    with_code :
        (z q : Bool)
        → (elim (update not_started (if z then passed else failed)) [
          | value_error _ _ ↦ raise_post not_started stored
          | moved first ↦
              if not q
              then raise_post first stored
              else finish_compile p r hit stored (after_base p (check_warnings w p first))
        ])
          ≡ (if q
              then finish_compile p r hit stored
                  (after_base p (check_warnings w p (if z then passed else failed)))
              else raise_post (if z then passed else failed) stored)
    with_code true true = refl
    with_code true false = refl
    with_code false true = refl
    with_code false false = refl

-- A compile that was not started: whatever `post_run` meets, the job ends as passed or as failed, and
-- as passed exactly when the compile is judged as passed and no call raises what is not caught. The
-- fingerprint is stored exactly when the return code, the log and the hooks let the compile pass,
-- and a real compile was recorded and its file could be written; the file is left alone otherwise.
pub post_run-passed :
    (w : Warnings) (p : Post) (r : Request) (hit : Bool) (stored : Stored)
    → let e = post_run w p r hit stored not_started in
      ((ended_status e ≡ passed) ⊎ (ended_status e ≡ failed))
      × ((ended_status e ≡ passed) ↔ JudgesPassed w p r hit × Returns p r hit)
      × ((StoresFingerprint w p r hit × (e.stored ≡ holds r.expected))
          ⊎ ((¬ StoresFingerprint w p r hit) × (e.stored ≡ stored)))
post_run-passed w p r hit stored =
    let b = after_base-passed p (checked w p) (checked-cases w p) in
    let good = finish_compile p r hit stored (after_base p (checked w p)) in
    let bad = raise_post (if is_zero p.returncode then passed else failed) stored in
    let started = post_run-started w p r hit stored in
    elim (Bool-cases p.parses) [
      | inl rules ↦
          subst (EndsAs w p r hit stored) (sym (started ∙ ap (λ q. if q then good else bad) rules))
            (judged w p r hit stored (after_base p (checked w p)) rules b.0
              (λ h. (checked-passed w p).0 (b.1.0 h).0) (λ h. (b.1.0 h).1)
              (λ h k. b.1.1 ((checked-passed w p).1 h, k)))
      | inr no_rules ↦
          subst (EndsAs w p r hit stored)
            (sym (started ∙ ap (λ q. if q then good else bad) no_rules))
            (inr refl, (λ h. ground arith, λ h. ground arith), inr (λ h. ground (arith, h.3), refl))
    ]

-- A compile that is to be bypassed ends as bypassed when its command returned 0 and no call raises what
-- is not caught, and as failed otherwise; it stores nothing.
pub post_run-bypassed :
    (w : Warnings) (p : Post) (r : Request) (hit : Bool) (stored : Stored)
    → let e = post_run w p r hit stored to_be_bypassed in
      (ended_status e ≡ (if is_zero p.returncode && p.parses && p.ends then bypassed else failed))
      × (e.stored ≡ stored)
unfolding post_run update
post_run-bypassed w p r hit stored =
    ground (arith, check_warnings-bypassed w p, check_warnings-failed w p)
