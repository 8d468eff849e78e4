-- ===== src/Config/Variables.antt =====
-- app/conf/configuration.go: what each field of a configuration is after loading.
use goth_scaffold.Prelude.{
  get_or, cons_first, split_on, trim_right, drop_while, keep, map, ◌==◌, ◌≡◌, refl, ◌<◌, ◌≤◌, ◌^◌,
  ◌-◌, ◌⊎◌, ◌++◌, ◌∷◌, [], ℕ, suc, ℤ, pos, negsuc, Text, codes, is_empty, Bool, true, false, not,
  List, some, none, parse_int, parse_bool, digits, Option-cases, Bool-cases, inl, inr, if_rule,
  arith, if◌then◌else◌, subst, text_eq_iff,
}
use goth_scaffold.Config.{parse_yaml_tag_name, is_skipped, env_below, load_from_env}
use goth_scaffold.Config.Loading.{load_below, load_from_env-load_below}
use goth_scaffold.Config.Struct.{
  Env, Value, string_kind, bool_kind, int_kind, uint_kind, float_kind, strings_kind,
  unsupported_kind, Fields, end, value_field, struct_field, load_field, set_value, split_values,
  in_int_bits, in_uint_bits,
}

-- -2^(bits-1) ≤ z < 2^(bits-1)
abbrev pub FitsInt : ℕ → ℤ → Type 0
FitsInt bits (pos n) = n < 2 ^ (bits - 1)
FitsInt bits (negsuc n) = suc n ≤ 2 ^ (bits - 1)

abbrev pub FitsUint : ℕ → ℕ → Type 0
FitsUint bits n = n < 2 ^ bits

-- What a text that is not empty makes of a field. A number that does not fit is never stored in part.
pub data Stores {F : Type 0} (e : Env F) (text : Text) : Value F → Value F → Type 0 where
  stores_string : (old : Text) → Stores e text (string_kind old) (string_kind text)
  stores_bool :
      (old b : Bool) → parse_bool text ≡ some b → Stores e text (bool_kind old) (bool_kind b)
  no_bool : (old : Bool) → parse_bool text ≡ none → Stores e text (bool_kind old) (bool_kind old)
  stores_int :
      (bits : ℕ) (old z : ℤ)
      → parse_int text ≡ some z
      → FitsInt bits z
      → Stores e text (int_kind bits old) (int_kind bits z)
  no_int :
      (bits : ℕ) (old : ℤ)
      → ((z : ℤ) → parse_int text ≡ some z → ¬ FitsInt bits z)
      → Stores e text (int_kind bits old) (int_kind bits old)
  stores_uint :
      (bits old n : ℕ)
      → digits text ≡ some n
      → FitsUint bits n
      → Stores e text (uint_kind bits old) (uint_kind bits n)
  no_uint :
      (bits old : ℕ)
      → ((n : ℕ) → digits text ≡ some n → ¬ FitsUint bits n)
      → Stores e text (uint_kind bits old) (uint_kind bits old)
  stores_float :
      (bits : ℕ) (old x : F)
      → e.parse_float bits text ≡ some x
      → Stores e text (float_kind bits old) (float_kind bits x)
  no_float :
      (bits : ℕ) (old : F)
      → e.parse_float bits text ≡ none
      → Stores e text (float_kind bits old) (float_kind bits old)
  stores_strings :
      (old : List Text)
      → Stores e text (strings_kind old) (
          strings_kind (
            keep
              (λ part. not (is_empty part))
              (map
                (λ part. trim_right e.is_space (drop_while e.is_space part))
                (split_on b',' text))))
  no_kind : Stores e text unsupported_kind unsupported_kind

-- What the variable of a field makes of it
pub data Reads {F : Type 0} (e : Env F) (key : Text) : Bool → Value F → Value F → Type 0 where
  unset : (can_set : Bool) (v : Value F) → is_empty (e.getenv key) ≡ true → Reads e key can_set v v
  unsettable : (v : Value F) → Reads e key false v v
  set :
      (v v' : Value F)
      → is_empty (e.getenv key) ≡ false
      → Stores e (e.getenv key) v v'
      → Reads e key true v v'

-- The name in a tag is what stands before the first comma.
abbrev pub name_in : Text → Text
name_in [] = []
name_in (c ∷ tag) = if c == b',' then [] else c ∷ name_in tag

abbrev pub IsNameless : Text → Type 0
IsNameless name = (name ≡ []) ⊎ (name ≡ codes "-")

-- What loading makes of the fields behind a prefix: the variable of a field is the prefix, an underscore and the
-- name of the field in upper case, and a struct hands its variable down as the prefix; a field without a name is left
-- with all that is in it.
pub data Loads {F : Type 0} (e : Env F) : Text → Fields F → Fields F → Type 0 where
  no_field : (prefix : Text) → Loads e prefix end end
  nameless_value :
      (prefix tag : Text) (can_set : Bool) (v : Value F) (rest rest' : Fields F)
      → IsNameless (name_in tag)
      → Loads e prefix rest rest'
      → Loads e prefix (value_field tag can_set v rest) (value_field tag can_set v rest')
  named_value :
      (prefix tag : Text) (can_set : Bool) (v v' : Value F) (rest rest' : Fields F)
      → ¬ IsNameless (name_in tag)
      → Reads e (prefix ++ (b'_' ∷ e.to_upper (name_in tag))) can_set v v'
      → Loads e prefix rest rest'
      → Loads e prefix (value_field tag can_set v rest) (value_field tag can_set v' rest')
  nameless_struct :
      (prefix tag : Text) (inner rest rest' : Fields F)
      → IsNameless (name_in tag)
      → Loads e prefix rest rest'
      → Loads e prefix (struct_field tag inner rest) (struct_field tag inner rest')
  named_struct :
      (prefix tag : Text) (inner inner' rest rest' : Fields F)
      → ¬ IsNameless (name_in tag)
      → Loads e (prefix ++ (b'_' ∷ e.to_upper (name_in tag))) inner inner'
      → Loads e prefix rest rest'
      → Loads e prefix (struct_field tag inner rest) (struct_field tag inner' rest')

first-cons_first :
    (c : ℕ) (parts : List Text) → get_or (cons_first c parts) 0 [] ≡ c ∷ get_or parts 0 []
first-cons_first c [] = refl
first-cons_first c (p ∷ parts) = refl

first-split_on : (tag : Text) → get_or (split_on b',' tag) 0 [] ≡ name_in tag
unfolding split_on
first-split_on [] = refl
first-split_on (c ∷ tag) =
    ground (arith, first-split_on tag, first-cons_first c (split_on b',' tag))

parse_yaml_tag_name-name_in : (tag : Text) → parse_yaml_tag_name tag ≡ name_in tag
unfolding parse_yaml_tag_name
parse_yaml_tag_name-name_in [] = refl
parse_yaml_tag_name-name_in (c ∷ tag) = first-split_on (c ∷ tag)

in_int_bits-FitsInt : (bits : ℕ) (z : ℤ) → in_int_bits bits z ≡ true → FitsInt bits z
in_int_bits-FitsInt bits (pos n) h = ground (arith, h)
in_int_bits-FitsInt bits (negsuc n) h = ground (arith, h)

not-FitsInt : (bits : ℕ) (z : ℤ) → in_int_bits bits z ≡ false → ¬ FitsInt bits z
not-FitsInt bits (pos n) h k = ground (arith, h, k)
not-FitsInt bits (negsuc n) h k = ground (arith, h, k)

is_skipped-IsNameless : (name : Text) → is_skipped name ≡ true → IsNameless name
unfolding is_skipped
is_skipped-IsNameless [] h = inl refl
is_skipped-IsNameless (c ∷ name) h = inr ((text_eq_iff (c ∷ name) (codes "-")).0 h)

not-IsNameless : (name : Text) → is_skipped name ≡ false → ¬ IsNameless name
unfolding is_skipped
not-IsNameless [] h k = absurd (cc h)
not-IsNameless (c ∷ name) h (inl e) = absurd (cc e)
not-IsNameless (c ∷ name) h (inr e) =
    let same = (text_eq_iff (c ∷ name) (codes "-")).1 e in absurd (cc (h, same))

module _ {F : Type 0} (e : Env F) where
  set_value-Stores : (text : Text) (v : Value F) → Stores e text v (set_value e text v)
  unfolding set_value split_values
  set_value-Stores text (string_kind s) = stores_string s
  set_value-Stores text (bool_kind b) = elim (Option-cases (parse_bool text)) [
    | inl p ↦ rw p (no_bool b p)
    | inr (a, p) ↦ rw p (stores_bool b a p)
  ]
  set_value-Stores text (int_kind bits n) = elim (Option-cases (parse_int text)) [
    | inl p ↦ rw p (no_int bits n (λ z q. absurd (cc (p, q))))
    | inr (a, p) ↦ rw p (
        if_rule (Stores e text (int_kind bits n)) (in_int_bits bits a)
          (λ q. stores_int bits n a p (in_int_bits-FitsInt bits a q))
          (λ q. no_int bits n (λ z r k.
            (let same : z ≡ a = cc (p, r) in not-FitsInt bits a q (subst (FitsInt bits) same k)))))
  ]
  set_value-Stores text (uint_kind bits n) = elim (Option-cases (digits text)) [
    | inl p ↦ rw p (no_uint bits n (λ z q. absurd (cc (p, q))))
    | inr (a, p) ↦ rw p (
        if_rule (Stores e text (uint_kind bits n)) (in_uint_bits bits a)
          (λ q. stores_uint bits n a p (ground (arith, q)))
          (λ q.
            no_uint bits n (λ z r k. (let same : z ≡ a = cc (p, r) in ground (arith, q, k, same)))))
  ]
  set_value-Stores text (float_kind bits x) = elim (Option-cases (e.parse_float bits text)) [
    | inl p ↦ rw p (no_float bits x p)
    | inr (a, p) ↦ rw p (stores_float bits x a p)
  ]
  set_value-Stores text (strings_kind values) = stores_strings values
  set_value-Stores text unsupported_kind = no_kind

  settable-Reads :
      (key : Text) (can_set : Bool) (v : Value F)
      → is_empty (e.getenv key) ≡ false
      → Reads e key can_set v (if not can_set then v else set_value e (e.getenv key) v)
  settable-Reads key false v h = unsettable v
  settable-Reads key true v h = set v _ h (set_value-Stores (e.getenv key) v)

  load_field-Reads :
      (key : Text) (can_set : Bool) (v : Value F)
      → Reads e key can_set v (load_field e key can_set v)
  unfolding load_field
  load_field-Reads key can_set v = elim (Bool-cases (is_empty (e.getenv key))) [
    | inl h ↦ rw h (unset can_set v h)
    | inr h ↦ rw h (settable-Reads key can_set v h)
  ]

  load_below-Loads : (prefix : Text) (c : Fields F) → Loads e prefix c (load_below e prefix c)
  unfolding load_below
  load_below-Loads prefix end = no_field prefix
  load_below-Loads prefix (value_field tag can_set v rest) =
      let name = name_in tag in
      let key = env_below prefix (e.to_upper name) in
      let behind = load_below-Loads prefix rest in
      rw (parse_yaml_tag_name-name_in tag) elim (Bool-cases (is_skipped name)) [
        | inl h ↦
            rw h (nameless_value prefix tag can_set v rest _ (is_skipped-IsNameless name h) behind)
        | inr h ↦ rw h (
            named_value prefix tag can_set v _ rest _ (not-IsNameless name h)
              (load_field-Reads key can_set v) behind)
      ]
  load_below-Loads prefix (struct_field tag inner rest) =
      let name = name_in tag in
      let key = env_below prefix (e.to_upper name) in
      let behind = load_below-Loads prefix rest in
      rw (parse_yaml_tag_name-name_in tag) elim (Bool-cases (is_skipped name)) [
        | inl h ↦
            rw h (nameless_struct prefix tag inner rest _ (is_skipped-IsNameless name h) behind)
        | inr h ↦ rw h (
            named_struct prefix tag inner _ rest _ (not-IsNameless name h)
              (load_below-Loads key inner) behind)
      ]

  -- Loading from the environment gives each field with a name, at any depth, what its variable
  -- says, the names on its path behind APP with underscores: a text, a Boolean, a float or a list
  -- as it is read, and an integer exactly where it is in the range of the field's bits. The name
  -- is what stands before the comma in the tag. On an empty variable, a text that is not read or a
  -- number out of range the field keeps what it had, as a field without a name does.
  pub load_from_env-Loads : (c : Fields F) → Loads e (codes "APP") c (load_from_env e c)
  load_from_env-Loads c = rw (load_from_env-load_below e c).0 (load_below-Loads (codes "APP") c)
