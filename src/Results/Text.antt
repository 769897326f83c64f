-- ===== src/Results/Text.antt =====
-- Texts as keys: equality, order, and Python's `a or b`.
use rules_verilog.Base.{
  Bool, true, false, ◌||◌, String, Option, none, some, List, [], ◌∷◌, if◌then◌else◌,
}
use Prim.Native.Nat.{Ordering}
use Prim.Native.String.{compare}
pub use text.Mathlib.Text.{◌==◌ as str_eq}
pub use text.Mathlib.TextEquality.{eq_iff as str_eq_iff}

-- `a < b`.
unfoldable pub str_lt : String → String → Bool
str_lt a b = elim (compare a b) [ Ordering.lt ↦ true | _ ↦ false ]

-- A value that is missing, null or the empty text is false.
abbrev pub truthy : Option String → Bool
truthy none = false
truthy (some s) = if str_eq s "" then false else true

abbrev pub or_text : Option String → Option String → Option String
or_text a b = if truthy a then a else b

abbrev pub text_or : Option String → String → String
text_or none d = d
text_or (some s) d = if str_eq s "" then d else s

abbrev pub same_text : Option String → Option String → Bool
same_text none none = true
same_text (some a) (some b) = str_eq a b
same_text _ _ = false

-- Python's `text in texts`.
abbrev pub has : String → List String → Bool
has t [] = false
has t (u ∷ us) = str_eq t u || has t us

-- Whether two sets have a common member.
abbrev pub meets : List String → List String → Bool
meets [] us = false
meets (t ∷ ts) us = has t us || meets ts us
