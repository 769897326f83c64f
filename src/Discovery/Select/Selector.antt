-- ===== src/Discovery/Select/Selector.antt =====
-- lib/regression.py, RegressionConfig._split_btglob: what a selector says, read part by part.
use Prim.Native.String.{len}
use rules_verilog.Base.{
  ◌+◌, ◌≡◌, refl, ◌∙◌, ap, ◌&&◌, String, Option, none, some, List, [], ◌∷◌, ltb, if◌then◌else◌,
  arith,
}
use rules_verilog.Base.Int.{ℤ, pos}
use rules_verilog.Discovery.Select.{
  Library, Globs, globs, critical, split_btglob, split_at, bench_and_test, join_globs,
}

-- `glob`, or `glob@iterations`.
abbrev pub glob_part : String → List String → String
glob_part text (g ∷ (k ∷ [])) = g
glob_part text _ = text

abbrev pub count_part : (String → Option ℤ) → List String → Option ℤ
count_part int (g ∷ (k ∷ [])) = int k
count_part int _ = some (pos 1)

-- `bench:test`, or a test of the bench whose directory is given.
abbrev pub pair_part : Option String → String → List String → Option (String × String)
pair_part here text (b ∷ (t ∷ [])) = some (b, t)
pair_part none text _ = none
pair_part (some bench) text _ = some (bench, text)

abbrev pub both : Option (String × String) → Option ℤ → Globs
both (some (b, t)) (some k) = globs b t k
both _ _ = critical

module _ (py : Library) (pwd benches_dir : String) where
  -- The bench of the current directory, if it lies below the directory of the benches.
  abbrev pub bench_here : Option String
  bench_here =
      if ltb (len benches_dir) (len pwd) && py.contains benches_dir pwd
      then some (py.drop (len benches_dir + 1) pwd)
      else none

  -- What a selector says. Without a bench it needs one from the current directory, and its iterations
  -- are a number.
  abbrev pub selector : String → Globs
  selector text =
      let glob = glob_part text (py.split "@" text) in
      both (pair_part bench_here glob (py.split ":" glob)) (count_part py.int (py.split "@" text))

  pair-bench_and_test :
      (text : String) (l : List String)
      → bench_and_test py pwd benches_dir text l ≡ pair_part bench_here text l
  pair-bench_and_test text (b ∷ (t ∷ [])) = refl
  pair-bench_and_test text [] = ground arith
  pair-bench_and_test text (b ∷ []) = ground arith
  pair-bench_and_test text (b ∷ (t ∷ (u ∷ l))) = ground arith

  join_globs-both : (k : Option ℤ) (bt : Option (String × String)) → join_globs py k bt ≡ both bt k
  join_globs-both none none = refl
  join_globs-both (some k) none = refl
  join_globs-both none (some (b, t)) = refl
  join_globs-both (some k) (some (b, t)) = refl

  pub split_btglob-selector : (text : String) → split_btglob py pwd benches_dir text ≡ selector text
  unfolding split_btglob
  split_btglob-selector text = parts (py.split "@" text)
    where
      one :
          (k : Option ℤ) (glob : String)
          → join_globs py k (bench_and_test py pwd benches_dir glob (py.split ":" glob))
            ≡ both (pair_part bench_here glob (py.split ":" glob)) k
      one k glob =
          ap (join_globs py k) (pair-bench_and_test glob (py.split ":" glob)) ∙ join_globs-both k _

      parts :
          (l : List String)
          → split_at py pwd benches_dir text l
            ≡ both
                (pair_part bench_here (glob_part text l) (py.split ":" (glob_part text l)))
                (count_part py.int l)
      parts (g ∷ (k ∷ [])) = one (py.int k) g
      parts [] = one (some (pos 1)) text
      parts (g ∷ []) = one (some (pos 1)) text
      parts (g ∷ (k ∷ (j ∷ l))) = one (some (pos 1)) text
