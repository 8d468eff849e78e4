-- ===== src/Config.antt =====
-- app/conf/configuration.go: the configuration as a struct with the tags of its fields, the variables of
-- the environment that stand for them, and the loading of each field from its variable.
pub mod Struct
pub mod Loading
pub mod Variables
pub mod Sharing
pub mod Instance
use goth_scaffold.Prelude.{
  ℕ, Text, codes, text_eq, is_empty, split_on, get_or, take, drop, ◌≡◌, Bool, true, false, not,
  ◌&&◌, ◌||◌, if◌then◌else◌, List, [], ◌∷◌, ◌++◌, map, Option, none, some,
}
use goth_scaffold.Config.Struct.{Env, Fields, Place, update, load_field}

-- `envMapping`; `field` is where the field stands in the struct that was walked.
pub record Mapping : Type 0 where
  pub env_key : Text
  pub yaml_path : Text
  pub field : Place

unfoldable pub parse_yaml_tag_name : Text → Text
unfolding split_on
parse_yaml_tag_name tag = if is_empty tag then [] else get_or (split_on b',' tag) 0 []

-- `yamlName == "" || yamlName == "-"`
abbrev pub is_skipped : Text → Bool
unfolding text_eq
is_skipped yaml_name = is_empty yaml_name || text_eq yaml_name (b'-' ∷ [])

abbrev pub env_prefix : Text
env_prefix = codes "APP"

abbrev pub env_below : Text → Text → Text
env_below prefix upper_name = prefix ++ (b'_' ∷ upper_name)

abbrev pub yaml_below : Text → Text → Text
yaml_below prefix yaml_name = if is_empty prefix then yaml_name else prefix ++ (b'.' ∷ yaml_name)

abbrev pub move_field : (Place → Place) → Mapping → Mapping
move_field f m = record m { field = f m.field }

module _ {F : Type 0} (e : Env F) where
  -- `collectEnvMappings`; what it appends
  unfoldable pub collect_env_mappings : Text → Text → Fields F → List Mapping
  unfolding parse_yaml_tag_name
  collect_env_mappings env yaml Fields.end = []
  collect_env_mappings env yaml (Fields.value_field tag can_set v rest) =
      let name = parse_yaml_tag_name tag in
      let more = map (move_field Place.next) (collect_env_mappings env yaml rest) in
      if is_skipped name
      then more
      else record {
        env_key = env_below env (e.to_upper name);
        yaml_path = yaml_below yaml name;
        field = Place.here;
      }
        ∷ more
  collect_env_mappings env yaml (Fields.struct_field tag inner rest) =
      let name = parse_yaml_tag_name tag in
      let more = map (move_field Place.next) (collect_env_mappings env yaml rest) in
      let below =
        map (move_field Place.inside)
          (collect_env_mappings (env_below env (e.to_upper name)) (yaml_below yaml name) inner) in
      if is_skipped name then more else below ++ more

  -- `envMappingsWithFields`
  unfoldable pub env_mappings_with_fields : Fields F → List Mapping
  unfolding parse_yaml_tag_name
  env_mappings_with_fields Fields.end = []
  env_mappings_with_fields (Fields.value_field tag can_set v rest) =
      let name = parse_yaml_tag_name tag in
      let more = map (move_field Place.next) (env_mappings_with_fields rest) in
      if is_skipped name
      then more
      else record {
        env_key = env_below env_prefix (e.to_upper name);
        yaml_path = name;
        field = Place.here;
      }
        ∷ more
  env_mappings_with_fields (Fields.struct_field tag inner rest) =
      let name = parse_yaml_tag_name tag in
      let more = map (move_field Place.next) (env_mappings_with_fields rest) in
      let below =
        map (move_field Place.inside)
          (collect_env_mappings (env_below env_prefix (e.to_upper name)) name inner) in
      if is_skipped name then more else below ++ more

  -- The loop of `_LoadFromEnv`
  unfoldable pub load_mappings : List Mapping → Fields F → Fields F
  load_mappings [] c = c
  load_mappings (m ∷ ms) c = load_mappings ms (update m.field (load_field e m.env_key) c)

  unfoldable pub load_from_env : Fields F → Fields F
  unfolding load_mappings env_mappings_with_fields
  load_from_env c = load_mappings (env_mappings_with_fields c) c
