-- ===== src/CompileCache/Json/Changed.antt =====
-- lib/compile_cache.py: which fields are reported as changed.
use rules_verilog.Base.{
  ℕ, zero, suc, ◌≡◌, refl, ap, sym, ◌∙◌, Bool, true, false, ◌&&◌, ◌||◌, String, List, [], ◌∷◌, ◌++◌,
  if◌then◌else◌, ◌↔◌, Bool-cases, inl, inr, subst, arith,
}
use rules_verilog.Results.Text.{str_eq, str_eq_iff, has}
use rules_verilog.CompileCache.Json.{
  Value, null, atom, object, Fields, end, field, has_key, get, keys_within, same, covers,
  insert_keys, insert_key, union_keys, field_name, changed_one, changed_keys, changed_fields,
}

get_missing : (k : String) (fs : Fields) → has_key k fs ≡ false → get k fs ≡ null
get_missing k end h = refl
get_missing k (field j v fs) h = ground (arith, get_missing k fs)

both : (a b : Bool) → a && b ≡ true → (a ≡ true) × (b ≡ true)
both a b h = (ground arith, ground arith)

-- What `covers` says of its first field.
covers_first :
    (j : String) (v : Value) (fs gs : Fields)
    → covers (field j v fs) gs ≡ true
    → (same v (get j gs) ≡ true) × (covers fs gs ≡ true)
unfolding covers
covers_first j v fs gs h =
    let parts = both (has_key j gs && same v (get j gs)) (covers fs gs) h in
    ((both (has_key j gs) (same v (get j gs)) parts.0).1, parts.1)

covers-get :
    (k : String) (fs gs : Fields)
    → covers fs gs ≡ true
    → has_key k fs ≡ true
    → same (get k fs) (get k gs) ≡ true
covers-get k end gs h i = ground arith
covers-get k (field j v fs) gs h i =
    let first = covers_first j v fs gs h in
    elim (Bool-cases (str_eq k j)) [
      | inl this ↦
          rw this (subst (λ q. same v (get q gs) ≡ true) (sym ((str_eq_iff k j).0 this)) first.0)
      | inr other ↦ rw other (covers-get k fs gs first.1 (rw other at i))
    ]

keys_within_lem :
    (k : String) (fs gs : Fields)
    → keys_within fs gs ≡ true
    → has_key k fs ≡ true
    → has_key k gs ≡ true
keys_within_lem k end gs h i = ground arith
keys_within_lem k (field j v fs) gs h i = ground (arith, keys_within_lem k fs gs, str_eq_iff k j)

object_parts :
    (fs gs : Fields)
    → same (object fs) (object gs) ≡ true
    → (covers fs gs ≡ true) × (keys_within gs fs ≡ true)
unfolding same
object_parts fs gs h = both (covers fs gs) (keys_within gs fs) h

null_same : same null null ≡ true
unfolding same
null_same = refl

-- Two equal dictionaries have the same value at each key, None where it is missing.
same-get :
    (k : String) (fs gs : Fields)
    → same (object fs) (object gs) ≡ true
    → same (get k fs) (get k gs) ≡ true
same-get k fs gs h =
    let parts = object_parts fs gs h in
    elim (Bool-cases (has_key k fs)) [
      | inl there ↦ covers-get k fs gs parts.0 there
      | inr missing ↦ elim (Bool-cases (has_key k gs)) [
        | inl extra ↦ absurd (ground (arith, keys_within_lem k gs fs parts.1 extra))
        | inr absent ↦ rw (get_missing k fs missing, get_missing k gs absent) null_same
      ]
    ]

has-insert_key :
    (k j : String) (ks : List String) → has k (insert_key j ks) ≡ (str_eq k j || has k ks)
has-insert_key k j [] = refl
has-insert_key k j (i ∷ ks) =
    ground (arith, has-insert_key k j ks, str_eq_iff j i, str_eq_iff k j, str_eq_iff k i)

has-insert_keys :
    (k : String) (fs : Fields) (ks : List String)
    → has k (insert_keys fs ks) ≡ (has_key k fs || has k ks)
has-insert_keys k end ks = refl
has-insert_keys k (field j v fs) ks =
    ground (arith, has-insert_key k j (insert_keys fs ks), has-insert_keys k fs ks)

append_empty : (xs ys : List String) → xs ++ ys ≡ [] → (xs ≡ []) × (ys ≡ [])
append_empty [] ys h = (refl, h)
append_empty (x ∷ xs) ys h = ground arith

-- Two dictionaries agree at every key, a missing one as None, and so down to a number of levels; other
-- values agree when they are equal.
abbrev pub AgreeAt : (Fields → Fields → Type 0) → Value → Value → Type 0
AgreeAt P (object fs) (object gs) = P fs gs
AgreeAt P v w = same v w ≡ true

unfoldable pub Agree : ℕ → Fields → Fields → Type 0
Agree zero fs gs = Unit
Agree (suc n) fs gs = (k : String) → AgreeAt (λ a e. Agree n a e) (get k fs) (get k gs)

if_empty : (b : Bool) (name : String) → ((if b then [] else name ∷ []) ≡ []) ↔ (b ≡ true)
if_empty true name = (λ h. refl, λ h. refl)
if_empty false name = (λ h. ground arith, λ h. ground arith)

module _ (n : ℕ)
    (ih : (p : String) (fs gs : Fields) → (changed_fields n p fs gs ≡ []) ↔ Agree n fs gs) where
  inner : String → Fields → Fields → List String
  inner p fs gs = changed_fields n p fs gs

  changed_one_iff :
      (name : String) (v w : Value)
      → (changed_one inner name v w ≡ []) ↔ AgreeAt (λ a e. Agree n a e) v w
  unfolding inner
  changed_one_iff name (object fs) (object gs) = ih name fs gs
  changed_one_iff name (object fs) null = if_empty (same (object fs) null) name
  changed_one_iff name (object fs) (atom b) = if_empty (same (object fs) (atom b)) name
  changed_one_iff name null (object gs) = if_empty (same null (object gs)) name
  changed_one_iff name null null = if_empty (same null null) name
  changed_one_iff name null (atom b) = if_empty (same null (atom b)) name
  changed_one_iff name (atom a) (object gs) = if_empty (same (atom a) (object gs)) name
  changed_one_iff name (atom a) null = if_empty (same (atom a) null) name
  changed_one_iff name (atom a) (atom b) = if_empty (same (atom a) (atom b)) name

  module _ (prefix : String) (fs gs : Fields) where
    at_key : String → List String
    at_key k = changed_one inner (field_name prefix k) (get k fs) (get k gs)

    -- Nothing is reported for a list of keys exactly when nothing is for each of them.
    changed_keys-none :
        (ks : List String)
        → changed_keys inner prefix fs gs ks ≡ []
        → (k : String) → has k ks ≡ true
        → at_key k ≡ []
    unfolding at_key
    changed_keys-none [] h k i = ground arith
    changed_keys-none (j ∷ ks) h k i =
        let parts = append_empty (at_key j) (changed_keys inner prefix fs gs ks) h in
        elim (Bool-cases (str_eq k j)) [
          | inl this ↦ subst (λ q. at_key q ≡ []) (sym ((str_eq_iff k j).0 this)) parts.0
          | inr other ↦ changed_keys-none ks parts.1 k (rw other at i)
        ]

    none-changed_keys :
        (ks : List String)
        → ((k : String) → at_key k ≡ [])
        → changed_keys inner prefix fs gs ks ≡ []
    unfolding at_key
    none-changed_keys [] h = refl
    none-changed_keys (j ∷ ks) h =
        ap (λ l. l ++ changed_keys inner prefix fs gs ks) (h j) ∙ none-changed_keys ks h

    -- A key of neither dictionary.
    at_missing : (k : String) → has k (union_keys fs gs) ≡ false → at_key k ≡ []
    unfolding at_key
    at_missing k h =
        let first = has-insert_keys k fs (insert_keys gs []) in
        let second = has-insert_keys k gs [] in
        rw (get_missing k fs (ground arith), get_missing k gs (ground arith), null_same) refl

-- Nothing is reported as changed exactly when the two dictionaries agree.
pub changed_fields_iff :
    (bound : ℕ) (prefix : String) (fs gs : Fields)
    → (changed_fields bound prefix fs gs ≡ []) ↔ Agree bound fs gs
unfolding changed_fields Agree inner at_key
changed_fields_iff zero prefix fs gs = (λ h. tt, λ h. refl)
changed_fields_iff (suc n) prefix fs gs =
    let ih = λ (p : String) (a e : Fields). changed_fields_iff n p a e in
    (
      λ h k.
          (changed_one_iff n ih (field_name prefix k) (get k fs) (get k gs)).0
            (elim (Bool-cases (has k (union_keys fs gs))) [
              | inl there ↦ changed_keys-none n ih prefix fs gs (union_keys fs gs) h k there
              | inr missing ↦ at_missing n ih prefix fs gs k missing
            ]),
      λ h.
          none-changed_keys n ih prefix fs gs (union_keys fs gs)
            (λ k. (changed_one_iff n ih (field_name prefix k) (get k fs) (get k gs)).1 (h k)),
    )

-- Equal dictionaries agree.
pub same-Agree : (n : ℕ) (fs gs : Fields) → same (object fs) (object gs) ≡ true → Agree n fs gs
unfolding Agree
same-Agree zero fs gs h = tt
same-Agree (suc n) fs gs h =
    λ k. values (get k fs) (get k gs) (same-get k fs gs h) (λ a e. same-Agree n a e)
  where
    values :
        (v w : Value)
        → same v w ≡ true
        → ((a e : Fields) → same (object a) (object e) ≡ true → Agree n a e)
        → AgreeAt (λ a e. Agree n a e) v w
    values (object a) (object e) h ih = ih a e h
    values (object a) null h ih = h
    values (object a) (atom b) h ih = h
    values null (object e) h ih = h
    values null null h ih = h
    values null (atom b) h ih = h
    values (atom a) (object e) h ih = h
    values (atom a) null h ih = h
    values (atom a) (atom b) h ih = h
