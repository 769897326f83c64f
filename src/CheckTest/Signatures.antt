-- ===== src/CheckTest/Signatures.antt =====
-- The directives keep the active signatures a set.
use rules_verilog.Base.{
  ℕ, ◌+◌, ◌≤◌, ◌≡◌, ◌⊎◌, inr, refl, ap, Bool, true, false, String, Option, none, some, List, [],
  ◌∷◌, ◌++◌, if◌then◌else◌, arith, one_if,
}
use rules_verilog.Results.Text.{str_eq, str_eq_iff}
use rules_verilog.CheckTest.{
  Patterns, has_signature, remove_signature, enable, disable, update_signatures,
}

-- How often a signature is in the list.
abbrev pub occurrences : String → List String → ℕ
occurrences s [] = 0
occurrences s (t ∷ ts) = one_if (str_eq s t) + occurrences s ts

occurrences-append :
    (s : String) (ts us : List String)
    → occurrences s (ts ++ us) ≡ occurrences s ts + occurrences s us
occurrences-append s [] us = omega arith
occurrences-append s (t ∷ ts) us = omega (arith, occurrences-append s ts us)

has_signature-occurrences :
    (s : String) (ts : List String)
    → (has_signature s ts ≡ true) × (1 ≤ occurrences s ts)
      ⊎ (has_signature s ts ≡ false) × (occurrences s ts ≡ 0)
has_signature-occurrences s [] = inr (refl, refl)
has_signature-occurrences s (t ∷ ts) = ground (arith, has_signature-occurrences s ts)

str_eq-same : (s a b : String) → str_eq a b ≡ true → str_eq s a ≡ str_eq s b
str_eq-same s a b h = ap (str_eq s) ((str_eq_iff a b).0 h)

occurrences-remove :
    (s z : String) (ts : List String)
    → has_signature s ts ≡ true
    → occurrences z (remove_signature s ts) + one_if (str_eq z s) ≡ occurrences z ts
occurrences-remove s z [] h = ground arith
occurrences-remove s z (t ∷ ts) h = ground (arith, occurrences-remove s z ts, str_eq-same z s t)

-- No signature is active twice.
abbrev pub AreUnique : List String → Type 0
AreUnique active = (s : String) → occurrences s active ≤ 1

-- What a directive line names: a signature to enable, one to disable, or nothing. A line that
-- has the word of the first directive is never read as the second.
pub data Directive : Type 0 where
  enables disables : String → Directive
  neither : Directive

abbrev pub named : (String → Directive) → Option String → Directive
named f none = neither
named f (some s) = f s

abbrev pub directive : Patterns → String → Directive
directive p line =
    if p.contains "TEST_CHECK_ENABLE" line
    then named enables (p.enable_match line)
    else if p.contains "TEST_CHECK_DISABLE" line
    then named disables (p.disable_match line)
    else neither

-- How often a signature is active after a directive.
abbrev pub after : Directive → String → List String → ℕ
after neither z active = occurrences z active
after (enables s) z active = if str_eq z s then 1 else occurrences z active
after (disables s) z active = if str_eq z s then 0 else occurrences z active

occurrences-same :
    (z s : String) (active : List String)
    → str_eq z s ≡ true
    → occurrences z active ≡ occurrences s active
occurrences-same z s active h = ap (λ t. occurrences t active) ((str_eq_iff z s).0 h)

enable_lem :
    (p : Patterns) (m : Option String) (z : String) (active : List String)
    → AreUnique active
    → occurrences z (enable p m active).1 ≡ after (named enables m) z active
enable_lem p none z active u = refl
enable_lem p (some s) z active u = ground (
  arith,
  has_signature-occurrences s active,
  u s,
  occurrences-append z active (s ∷ []),
  occurrences-same z s active,
)

disable_lem :
    (p : Patterns) (m : Option String) (z : String) (active : List String)
    → AreUnique active
    → occurrences z (disable p m active).1 ≡ after (named disables m) z active
disable_lem p none z active u = refl
disable_lem p (some s) z active u = ground (
  arith,
  has_signature-occurrences s active,
  u z,
  occurrences-remove s z active,
  occurrences-same z s active,
)

-- A directive makes the signature that it names active once, or inactive, leaves every other
-- signature as it was, and keeps the active signatures without duplicates.
pub update_signatures-occurrences :
    (p : Patterns) (line z : String) (active : List String)
    → AreUnique active
    → (occurrences z (update_signatures p line active).1 ≡ after (directive p line) z active)
      × (occurrences z (update_signatures p line active).1 ≤ 1)
unfolding update_signatures
update_signatures-occurrences p line z active u =
    let law = split (p.contains "TEST_CHECK_ENABLE" line) (p.contains "TEST_CHECK_DISABLE" line) in
    (law, ground (arith, law, u z, after_le (directive p line)))
  where
    split :
        (b c : Bool)
        → occurrences z
            (if b
              then enable p (p.enable_match line) active
              else if c
              then disable p (p.disable_match line) active
              else (false, active)).1
          ≡ after
              (if b
                then named enables (p.enable_match line)
                else if c
                then named disables (p.disable_match line)
                else neither)
              z
              active
    split true c = enable_lem p (p.enable_match line) z active u
    split false true = disable_lem p (p.disable_match line) z active u
    split false false = refl

    after_le : (d : Directive) → after d z active ≤ 1
    after_le neither = u z
    after_le (enables s) = ground (arith, u z)
    after_le (disables s) = ground (arith, u z)
