-- ===== src/ActiveRuns/State/Updates.antt =====
-- What an update of the state of a run leaves.
use rules_verilog.Base.{
  ◌≡◌, refl, Bool, true, false, not, ◌&&◌, ◌||◌, String, some, List, [], ◌∷◌, if◌then◌else◌, arith,
}
use rules_verilog.Results.Text.{str_eq, str_eq_iff}
use rules_verilog.ActiveRuns.State.{ActiveRun, get, put, differs, apply_changes, publish, update}

module _ {Value : Type 0} (same : Value → Value → Bool) (null : Value) where
  -- Whether the keys are different, and none of them is `k`.
  unfoldable pub is_free : String → List (String × Value) → Bool
  is_free k [] = true
  is_free k ((j, v) ∷ cs) = not (str_eq k j) && is_free k cs

  unfoldable pub has_own_keys : List (String × Value) → Bool
  has_own_keys [] = true
  has_own_keys ((k, v) ∷ cs) = is_free k cs && has_own_keys cs

  -- Whether the state has the value of each change.
  unfoldable pub has_all : List (String × Value) → List (String × Value) → Bool
  has_all [] s = true
  has_all ((k, v) ∷ cs) s = not (differs same null (get same null k s) v) && has_all cs s

  get-put :
      (k : String) (v : Value) (s : List (String × Value))
      → get same null k (put same null k v s) ≡ some v
  get-put k v [] = rw ((str_eq_iff k k).1 refl) refl
  get-put k v ((j, w) ∷ s) = ground (arith, get-put k v s)

  get-put_other :
      (k j : String) (v : Value) (s : List (String × Value))
      → str_eq k j ≡ false
      → get same null k (put same null j v s) ≡ get same null k s
  get-put_other k j v [] h = rw h refl
  get-put_other k j v ((i, w) ∷ s) h =
      ground (arith, get-put_other k j v s, str_eq_iff j i, str_eq_iff k i, str_eq_iff k j)

  unchanged :
      (cs s : List (String × Value)) (b : Bool)
      → has_all cs s ≡ true
      → apply_changes same null cs s b ≡ (s, b)
  unfolding has_all apply_changes
  unchanged [] s b h = refl
  unchanged ((k, v) ∷ cs) s b h = ground (arith, unchanged cs s b)

  has_all-put :
      (k : String) (v : Value) (cs s : List (String × Value))
      → is_free k cs ≡ true
      → has_all cs (put same null k v s) ≡ has_all cs s
  unfolding has_all is_free
  has_all-put k v [] s h = refl
  has_all-put k v ((j, w) ∷ cs) s h =
      ground (arith, has_all-put k v cs s, get-put_other j k v s, str_eq_iff k j, str_eq_iff j k)

  apply_changes-flag :
      (cs s : List (String × Value)) (b : Bool)
      → has_own_keys cs ≡ true
      → (apply_changes same null cs s b).1 ≡ (b || not (has_all cs s))
  unfolding apply_changes has_all has_own_keys
  apply_changes-flag [] s b h = ground arith
  apply_changes-flag ((k, v) ∷ cs) s b h = ground (
    arith,
    apply_changes-flag cs s b,
    apply_changes-flag cs (put same null k v s) true,
    apply_changes-flag cs (put same null k v s) (b || true),
    has_all-put k v cs s,
  )

  get-apply_changes :
      (k : String) (cs s : List (String × Value)) (b : Bool)
      → is_free k cs ≡ true
      → get same null k (apply_changes same null cs s b).0 ≡ get same null k s
  unfolding apply_changes is_free
  get-apply_changes k [] s b h = refl
  get-apply_changes k ((j, v) ∷ cs) s b h =
      let differ = differs same null (get same null j s) v in
      ground (
        arith,
        get-apply_changes k cs (if differ then put same null j v s else s) (b || differ),
        get-put_other k j v s,
      )

  module _ (same_refl : (v : Value) → same v v ≡ true) where
    has_all-apply_changes :
        (cs s : List (String × Value)) (b : Bool)
        → has_own_keys cs ≡ true
        → has_all cs (apply_changes same null cs s b).0 ≡ true
    unfolding apply_changes has_all has_own_keys
    has_all-apply_changes [] s b h = refl
    has_all-apply_changes ((k, v) ∷ cs) s b h =
        let differ = differs same null (get same null k s) v in
        let next = if differ then put same null k v s else s in
        ground (
          arith,
          has_all-apply_changes cs next (b || differ),
          get-apply_changes k cs next (b || differ),
          get-put k v s,
          same_refl v,
        )

    publish-state :
        (writable : Bool) (r : ActiveRun same null) → (publish same null writable r).state ≡ r.state
    unfolding publish
    publish-state writable r = ground arith

    update-has_all :
        (writable : Bool) (now : Value) (cs : List (String × Value)) (r : ActiveRun same null)
        → has_own_keys cs ≡ true
        → is_free "updated_at" cs ≡ true
        → has_all cs (update same null writable now cs r).1.state ≡ true
    unfolding update
    update-has_all writable now cs r own free =
        let s = (apply_changes same null cs r.state false).0 in
        ground (
          arith,
          apply_changes-flag cs r.state false own,
          has_all-apply_changes cs r.state false own,
          has_all-put "updated_at" now cs s free,
          publish-state writable (record r { state = put same null "updated_at" now s }),
        )

    update_known :
        (writable : Bool) (now : Value) (cs : List (String × Value)) (r : ActiveRun same null)
        → has_all cs r.state ≡ true
        → update same null writable now cs r ≡ (false, r)
    unfolding update
    update_known writable now cs r h = rw (unchanged cs r.state false h) refl

    update_answer :
        (writable : Bool) (now : Value) (cs : List (String × Value)) (r : ActiveRun same null)
        → has_own_keys cs ≡ true
        → (update same null writable now cs r).0 ≡ not (has_all cs r.state)
    unfolding update
    update_answer writable now cs r own = ground (arith, apply_changes-flag cs r.state false own)

    -- With different keys, none of which is the time of the update: an update answers whether the
    -- state lacked a value, the state has all the values after it whether or not the file could be
    -- written, and the same update again answers `false` and leaves the run as it is.
    pub update_again :
        (writable again : Bool) (now later : Value) (cs : List (String × Value))
        (r : ActiveRun same null)
        → has_own_keys cs ≡ true
        → is_free "updated_at" cs ≡ true
        → let first = update same null writable now cs r in
          (first.0 ≡ not (has_all cs r.state))
          × (has_all cs first.1.state ≡ true)
          × (update same null again later cs first.1 ≡ (false, first.1))
    update_again writable again now later cs r own free = (
      update_answer writable now cs r own,
      update-has_all writable now cs r own free,
      update_known again later cs (update same null writable now cs r).1
          (update-has_all writable now cs r own free),
    )
