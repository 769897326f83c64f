-- ===== src/Simmer/Compile/Reuse.antt =====
-- bin/simmer.py, class VCompJob: what a job that does not compile relies on.
use rules_verilog.Base.{
  Option, ℕ, ◌+◌, ◌<◌, ◌≡◌, refl, ap₂, Bool, true, false, not, ◌&&◌, ◌||◌, none, some, [], ◌↔◌, ◌⊎◌,
  inl, inr, if◌then◌else◌, arith,
}
use rules_verilog.CompileCache.Json.{Fields, object, same, changed_fields}
use rules_verilog.CompileCache.Json.Levels.{levels, changed_fields_stable}
use rules_verilog.CompileCache.Json.Changed.{Agree, changed_fields_iff}
use rules_verilog.CompileCache.Fingerprint.{
  Failure, mismatch, Result, ok, raised, Stored, missing, unreadable, malformed, holds,
  validate_compile_fingerprint, can_reuse_compile,
}
use rules_verilog.Status.{
  JobStatus, passed, failed, same_status, Update, update, moved, value_error,
}
use rules_verilog.Simmer.Compile.{
  Request, raise_post, PostEnd, Post, Warnings, is_zero, fail_if_passed, check_warnings,
  finish_compile, CommandLine, Job, Directory, JobEnd, refused, bypassed_run, compiled, pre_run,
  post_run, run_job, end_of, after_start, after_recompile, last_compile,
}

-- A build that can be used again.
abbrev pub Reusable : Fields → Request → Type 0
Reusable g r = (r.artifacts ≡ none) × (same (object g) (object r.expected) ≡ true)

validate_accepts :
    (bound : ℕ) (stored : Stored) (expected : Fields)
    → validate_compile_fingerprint bound stored expected ≡ none
    → (g : Fields) × (stored ≡ holds g) × (same (object g) (object expected) ≡ true)
unfolding validate_compile_fingerprint
validate_accepts bound (holds g) expected h = (g, refl, ground arith)
validate_accepts bound missing expected h = ground arith
validate_accepts bound unreadable expected h = ground arith
validate_accepts bound malformed expected h = ground arith

-- How `pre_run` leaves the file: a bypass keeps it, a compile removes it.
abbrev StartsAs : ℕ → Stored → Request → CommandLine → Stored → Type 0
StartsAs bound stored r c after =
    (c.bypasses ≡ true)
      × (after ≡ stored)
      × (not r.no_compile && not c.hit ≡ false)
      × (r.artifacts ≡ none)
      × (validate_compile_fingerprint bound stored r.expected ≡ none)
    ⊎ (c.bypasses ≡ false) × (after ≡ missing)

pre_run-StartsAs :
    (bound : ℕ) (stored : Stored) (r : Request) (c : CommandLine) (after : Stored)
    → pre_run bound stored r ≡ ok (c, after)
    → StartsAs bound stored r c after
unfolding pre_run can_reuse_compile
pre_run-StartsAs bound stored r c after h = ground arith

-- How a job that ends changes the file.
abbrev HasStored : Request → Bool → Stored → PostEnd → Type 0
HasStored r hit stored e =
    (e.stored ≡ stored)
    ⊎ (same_status e.status passed ≡ true)
      × (e.stored ≡ holds r.expected)
      × (not r.no_compile && not hit ≡ true)

finish_compile-HasStored :
    (p : Post) (r : Request) (hit : Bool) (stored : Stored) (s : JobStatus)
    → HasStored r hit stored (finish_compile p r hit stored s)
finish_compile-HasStored p r hit stored s = ground arith

post_run-HasStored :
    (w : Warnings) (p : Post) (r : Request) (hit : Bool) (stored : Stored) (s : JobStatus)
    → HasStored r hit stored (post_run w p r hit stored s)
unfolding post_run
post_run-HasStored w p r hit stored s =
    ended (update s (if is_zero p.returncode then passed else failed))
  where
    rest :
        (parses : Bool) (first : JobStatus)
        → HasStored r hit stored (
            if not parses
            then raise_post first stored
            else finish_compile p r hit stored (
                if p.base_raises
                then fail_if_passed (check_warnings w p first)
                else check_warnings w p first))
    rest false first = inl refl
    rest true first = finish_compile-HasStored p r hit stored _

    ended :
        (u : Update)
        → HasStored r hit stored (elim u [
          | value_error _ _ ↦ raise_post s stored
          | moved first ↦
              if not p.parses
              then raise_post first stored
              else finish_compile p r hit stored (
                  if p.base_raises
                  then fail_if_passed (check_warnings w p first)
                  else check_warnings w p first)
        ])
    ended (value_error _ _) = inl refl
    ended (moved first) = rest p.parses first

end_of-stored :
    (j : Job) (hit : Bool) (stored : Stored)
    → ((end_of j hit stored).1 ≡ stored)
      ⊎ ((end_of j hit stored) ≡ (true, holds j.request.expected))
        × (not j.request.no_compile && not hit ≡ true)
end_of-stored j hit stored = ended j.post
  where
    ended :
        (o : Option Post)
        → let e : Bool × Stored = elim o [
          | none ↦ (false, stored)
          | some p ↦
              let e = post_run j.warnings p j.request hit stored j.status in
              (same_status e.status passed, e.stored)
        ] in
          (e.1 ≡ stored)
          ⊎ (e ≡ (true, holds j.request.expected)) × (not j.request.no_compile && not hit ≡ true)
    ended none = inl refl
    ended (some p) = elim (post_run-HasStored j.warnings p j.request hit stored j.status) [
      | inl e ↦ inl e
      | inr e ↦ inr (ap₂ (λ b q. (b, q)) e.0 e.1, e.2)
    ]

-- The fingerprint of the directory, if there is one, is that of the newest compile, which was judged as passed.
abbrev pub Vouched : Directory → Type 0
Vouched d = (g : Fields) → d.stored ≡ holds g → last_compile d ≡ some (g, true)

after_start-Vouched :
    (bound : ℕ) (j : Job) (d : Directory) (p : Result (CommandLine × Stored))
    → pre_run bound d.stored j.request ≡ p
    → Vouched d
    → Vouched (after_start j d p).0
after_start-Vouched bound j d (raised e) q h = h
after_start-Vouched bound j d (ok (c, after)) q h = λ g i.
    ground
      (arith, h g, pre_run-StartsAs bound d.stored j.request c after q, end_of-stored j c.hit after)

run_job-Vouched : (bound : ℕ) (d : Directory) (j : Job) → Vouched d → Vouched (run_job bound d j).0
unfolding run_job
run_job-Vouched bound d j h =
    let stored = after_recompile j.request d.stored in
    after_start-Vouched bound j (record d { stored = stored }) (pre_run bound stored j.request) refl
      (λ g i. ground (arith, h g))

-- The directories after any jobs, from one without a fingerprint.
pub data Reaches (bound : ℕ) : Directory → Type 0 where
  new : {d : Directory} → d.stored ≡ missing → Reaches bound d
  next : {d : Directory} (j : Job) → Reaches bound d → Reaches bound (run_job bound d j).0

Reaches-Vouched : {bound : ℕ} {d : Directory} → Reaches bound d → Vouched d
Reaches-Vouched (new e) = λ g i. ground arith
Reaches-Vouched {bound} (next {d} j r) = run_job-Vouched bound d j (Reaches-Vouched r)

after_start-bypassed :
    (bound : ℕ) (j : Job) (d : Directory) (p : Result (CommandLine × Stored))
    → pre_run bound d.stored j.request ≡ p
    → (after_start j d p).1 ≡ bypassed_run
    → (j.request.artifacts ≡ none)
      × (validate_compile_fingerprint bound d.stored j.request.expected ≡ none)
after_start-bypassed bound j d (raised e) q h = ground arith
after_start-bypassed bound j d (ok (c, after)) q h =
    ground (arith, pre_run-StartsAs bound d.stored j.request c after q)

-- Over any jobs, from a directory without a fingerprint: when a job does not compile, its artifacts are
-- valid, and `post_run` has judged the newest compile of the directory as passed, with the fingerprint
-- that the job expects.
pub bypassed-last_compile :
    {bound : ℕ} {d : Directory} (j : Job)
    → Reaches bound d
    → (run_job bound d j).1 ≡ bypassed_run
    → (g : Fields) × (last_compile d ≡ some (g, true)) × Reusable g j.request
unfolding run_job
bypassed-last_compile {bound} {d} j r h =
    let stored = after_recompile j.request d.stored in
    let p =
      after_start-bypassed bound j (record d { stored = stored }) (pre_run bound stored j.request)
        refl h in
    let (g, e, s) = validate_accepts bound stored j.request.expected p.1 in
    (g, Reaches-Vouched r g (ground arith), (p.0, s))

-- How a job ends, by equality of the fingerprints, the two options and the mismatch.
decide_end : Bool → Bool → Bool → Failure → JobEnd
decide_end true true auto e = bypassed_run
decide_end false true auto e = refused e
decide_end true false true e = bypassed_run
decide_end _ _ _ e = compiled

decide_end-branches :
    (q bypass auto : Bool) (e : Failure)
    → ((decide_end q bypass auto e ≡ bypassed_run) ↔ (q ≡ true) × (bypass || auto ≡ true))
      × ((decide_end q bypass auto e ≡ refused e) ↔ (q ≡ false) × (bypass ≡ true))
      × ((decide_end q bypass auto e ≡ compiled) ↔ (bypass ≡ false) × (q && auto ≡ false))
unfolding decide_end
decide_end-branches q bypass auto e = (
  (λ h. ground arith, λ h. ground arith),
  (λ h. ground arith, λ h. ground arith),
  (λ h. ground arith, λ h. ground arith),
)

run_job-decide_end :
    (bound : ℕ) (d : Directory) (j : Job) (g : Fields)
    → d.stored ≡ holds g
    → j.request.recompile ≡ false
    → j.request.artifacts ≡ none
    → (run_job bound d j).1
      ≡ decide_end
          (same (object g) (object j.request.expected))
          j.request.no_compile
          j.request.auto_reuse
          (mismatch (changed_fields bound "" g j.request.expected))
unfolding run_job pre_run validate_compile_fingerprint can_reuse_compile decide_end
run_job-decide_end bound d j g h r a = ground arith

-- A job with valid artifacts on a directory that holds a fingerprint, without --recompile: when it is
-- bypassed, when it is refused, and when it compiles. The refusal names no field exactly when the
-- dictionaries agree at every key, a missing key as None, and a bound above the levels of the stored
-- fingerprint is enough for it.
pub run_job_ends :
    (bound k : ℕ) (d : Directory) (j : Job) (g : Fields)
    → levels g < bound
    → d.stored ≡ holds g
    → j.request.recompile ≡ false
    → j.request.artifacts ≡ none
    → (((run_job bound d j).1 ≡ bypassed_run)
        ↔ (same (object g) (object j.request.expected) ≡ true)
          × (j.request.no_compile || j.request.auto_reuse ≡ true))
      × (((run_job bound d j).1 ≡ refused (mismatch (changed_fields bound "" g j.request.expected)))
          ↔ (same (object g) (object j.request.expected) ≡ false) × (j.request.no_compile ≡ true))
      × (((run_job bound d j).1 ≡ compiled)
          ↔ (j.request.no_compile ≡ false)
            × (same (object g) (object j.request.expected) && j.request.auto_reuse ≡ false))
      × ((changed_fields bound "" g j.request.expected ≡ []) ↔ Agree bound g j.request.expected)
      × (changed_fields bound "" g j.request.expected
          ≡ changed_fields (k + bound) "" g j.request.expected)
run_job_ends bound k d j g enough h r a =
    let q = same (object g) (object j.request.expected) in
    let e = mismatch (changed_fields bound "" g j.request.expected) in
    let b = decide_end-branches q j.request.no_compile j.request.auto_reuse e in
    rw (run_job-decide_end bound d j g h r a) (
      b.0,
      b.1,
      b.2,
      changed_fields_iff bound "" g j.request.expected,
      changed_fields_stable bound k "" g j.request.expected enough,
    )
