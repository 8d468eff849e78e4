-- ===== src/Config/Loading.antt =====
-- app/conf/configuration.go: what loading from the environment does to a configuration.
use goth_scaffold.Prelude.{
  ◌≡◌, refl, Text, Bool, if◌then◌else◌, List, [], ◌∷◌, ◌++◌, map, arith, parse_int, parse_bool,
  digits, Bool-cases, Option-cases, inl, inr,
}
use goth_scaffold.Config.{
  Mapping, parse_yaml_tag_name, is_skipped, env_prefix, env_below, yaml_below, move_field,
  collect_env_mappings, env_mappings_with_fields, load_mappings, load_from_env,
}
use goth_scaffold.Config.Struct.{
  Env, Value, string_kind, bool_kind, int_kind, uint_kind, float_kind, strings_kind,
  unsupported_kind, Fields, end, value_field, struct_field, Place, update, load_field, set_value,
}

module _ {F : Type 0} (e : Env F) where
  -- One pass over the fields: a field with a name is loaded from the variable of the names on its path.
  unfoldable pub load_below : Text → Fields F → Fields F
  unfolding parse_yaml_tag_name
  load_below env end = end
  load_below env (value_field tag can_set v rest) =
      let name = parse_yaml_tag_name tag in
      value_field tag can_set
        (if is_skipped name then v else load_field e (env_below env (e.to_upper name)) can_set v)
        (load_below env rest)
  load_below env (struct_field tag inner rest) =
      let name = parse_yaml_tag_name tag in
      let loaded = load_below (env_below env (e.to_upper name)) inner in
      struct_field tag (if is_skipped name then inner else loaded) (load_below env rest)

  load_mappings-append :
      (ms ns : List Mapping) (c : Fields F)
      → load_mappings e (ms ++ ns) c ≡ load_mappings e ns (load_mappings e ms c)
  unfolding load_mappings
  load_mappings-append [] ns c = refl
  load_mappings-append (m ∷ ms) ns c =
      load_mappings-append ms ns (update m.field (load_field e m.env_key) c)

  load_mappings-next_value :
      (ms : List Mapping) (tag : Text) (can_set : Bool) (v : Value F) (c : Fields F)
      → load_mappings e (map (move_field Place.next) ms) (value_field tag can_set v c)
        ≡ value_field tag can_set v (load_mappings e ms c)
  unfolding load_mappings update
  load_mappings-next_value [] tag can_set v c = refl
  load_mappings-next_value (m ∷ ms) tag can_set v c =
      load_mappings-next_value ms tag can_set v (update m.field (load_field e m.env_key) c)

  load_mappings-next_struct :
      (ms : List Mapping) (tag : Text) (inner c : Fields F)
      → load_mappings e (map (move_field Place.next) ms) (struct_field tag inner c)
        ≡ struct_field tag inner (load_mappings e ms c)
  unfolding load_mappings update
  load_mappings-next_struct [] tag inner c = refl
  load_mappings-next_struct (m ∷ ms) tag inner c =
      load_mappings-next_struct ms tag inner (update m.field (load_field e m.env_key) c)

  load_mappings-inside :
      (ms : List Mapping) (tag : Text) (inner c : Fields F)
      → load_mappings e (map (move_field Place.inside) ms) (struct_field tag inner c)
        ≡ struct_field tag (load_mappings e ms inner) c
  unfolding load_mappings update
  load_mappings-inside [] tag inner c = refl
  load_mappings-inside (m ∷ ms) tag inner c =
      load_mappings-inside ms tag (update m.field (load_field e m.env_key) inner) c

  load_mappings-collect_env_mappings :
      (env yaml : Text) (c : Fields F)
      → load_mappings e (collect_env_mappings e env yaml c) c ≡ load_below env c
  unfolding collect_env_mappings load_mappings update load_below
  load_mappings-collect_env_mappings env yaml end = refl
  load_mappings-collect_env_mappings env yaml (value_field tag can_set v rest) =
      let key = env_below env (e.to_upper (parse_yaml_tag_name tag)) in
      let ms = collect_env_mappings e env yaml rest in
      let ih = load_mappings-collect_env_mappings env yaml rest in
      elim (Bool-cases (is_skipped (parse_yaml_tag_name tag))) [
        | inl h ↦ rw (h, load_mappings-next_value ms tag can_set v rest, ih) refl
        | inr h ↦
            rw (h, load_mappings-next_value ms tag can_set (load_field e key can_set v) rest, ih)
              refl
      ]
  load_mappings-collect_env_mappings env yaml (struct_field tag inner rest) =
      let name = parse_yaml_tag_name tag in
      let key = env_below env (e.to_upper name) in
      let ms = collect_env_mappings e env yaml rest in
      let below = collect_env_mappings e key (yaml_below yaml name) inner in
      let ih = load_mappings-collect_env_mappings env yaml rest in
      let deep = load_mappings-collect_env_mappings key (yaml_below yaml name) inner in
      let split =
        load_mappings-append (map (move_field Place.inside) below) (map (move_field Place.next) ms)
          (struct_field tag inner rest) in
      elim (Bool-cases (is_skipped name)) [
        | inl h ↦ rw (h, load_mappings-next_struct ms tag inner rest, ih) refl
        | inr h ↦
            rw
              (
                h,
                split,
                load_mappings-inside below tag inner rest,
                load_mappings-next_struct ms tag (load_mappings e below inner) rest,
                ih,
                deep,
              )
              refl
      ]

  -- The loop over the configuration's own fields is the one over the fields of a struct.
  pub env_mappings_with_fields-collect_env_mappings :
      (c : Fields F) → env_mappings_with_fields e c ≡ collect_env_mappings e env_prefix [] c
  unfolding env_mappings_with_fields collect_env_mappings
  env_mappings_with_fields-collect_env_mappings end = refl
  env_mappings_with_fields-collect_env_mappings (value_field tag can_set v rest) =
      rw (env_mappings_with_fields-collect_env_mappings rest) refl
  env_mappings_with_fields-collect_env_mappings (struct_field tag inner rest) =
      rw (env_mappings_with_fields-collect_env_mappings rest) refl

  set_value_again :
      (text : Text) (v : Value F) → set_value e text (set_value e text v) ≡ set_value e text v
  unfolding set_value
  set_value_again text (string_kind s) = refl
  set_value_again text (bool_kind b) = ground (arith, Option-cases (parse_bool text))
  set_value_again text (int_kind bits n) = ground (arith, Option-cases (parse_int text))
  set_value_again text (uint_kind bits n) = ground (arith, Option-cases (digits text))
  set_value_again text (float_kind bits x) = ground (arith, Option-cases (e.parse_float bits text))
  set_value_again text (strings_kind values) = refl
  set_value_again text unsupported_kind = refl

  load_field_again :
      (key : Text) (can_set : Bool) (v : Value F)
      → load_field e key can_set (load_field e key can_set v) ≡ load_field e key can_set v
  unfolding load_field
  load_field_again key can_set v = ground (arith, set_value_again (e.getenv key) v)

  load_below_again :
      (env : Text) (c : Fields F) → load_below env (load_below env c) ≡ load_below env c
  unfolding load_below
  load_below_again env end = refl
  load_below_again env (value_field tag can_set v rest) = ground (
    arith,
    load_below_again env rest,
    load_field_again (env_below env (e.to_upper (parse_yaml_tag_name tag))) can_set v,
  )
  load_below_again env (struct_field tag inner rest) = ground (
    arith,
    load_below_again env rest,
    load_below_again (env_below env (e.to_upper (parse_yaml_tag_name tag))) inner,
  )

  load_from_env_lem : (c : Fields F) → load_from_env e c ≡ load_below env_prefix c
  unfolding load_from_env
  load_from_env_lem c =
      rw (env_mappings_with_fields-collect_env_mappings c)
        (load_mappings-collect_env_mappings env_prefix [] c)

  -- Loading the configuration through the list of the places of its fields is one pass over the
  -- struct, in which each field with a name in its tag is loaded from the one variable that its
  -- path names, and no other field changes; loading it again changes nothing.
  pub load_from_env-load_below :
      (c : Fields F)
      → (load_from_env e c ≡ load_below env_prefix c)
        × (load_from_env e (load_from_env e c) ≡ load_from_env e c)
  load_from_env-load_below c = (
    load_from_env_lem c,
    rw (load_from_env_lem c, load_from_env_lem (load_below env_prefix c))
        (load_below_again env_prefix c),
  )
