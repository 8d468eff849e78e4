-- ===== src/Config/Instance.antt =====
-- app/conf/configuration.go: the one configuration of the process, the tests on it, the list of its
-- variables, and the type `String`.
use goth_scaffold.Prelude.{
  Text, codes, text_eq, is_empty, split_on, take, drop, Bool, if◌then◌else◌, List, [], ◌∷◌, ◌++◌,
  Option, none, some,
}
use goth_scaffold.Config.{Mapping, env_mappings_with_fields, load_from_env}
use goth_scaffold.Config.Struct.{Env, Fields}

module _ {F : Type 0} (e : Env F) (file : Option Text)
    (unmarshal : Text → Fields F → Fields F) where
  abbrev read_config : Option Text → Fields F → Fields F
  read_config none c = c
  read_config (some bytes) c = unmarshal bytes c

  -- `_Init`, on the configuration that `configInstance` has just been set to; `file` is what is read at
  -- `ConfigPath`, none on an error, and an error of `yaml.Unmarshal` is not looked at.
  unfoldable pub init_config : Fields F → Fields F
  unfolding load_from_env
  init_config c = load_from_env e (read_config file c)

  -- `Config`, where no other goroutine is in it: the configuration and `configInstance`
  unfoldable pub config : Fields F → Option (Fields F) → Fields F × Option (Fields F)
  unfolding init_config
  config zeros none = (init_config zeros, some (init_config zeros))
  config zeros (some c) = (c, some c)

-- `Reload`
abbrev pub reload_config : {F : Type 0} → Option (Fields F) → Option (Fields F)
reload_config instance_now = none

module _ {F : Type 0} (e : Env F) where
  unfoldable pub is_debug : Bool
  unfolding text_eq
  is_debug = text_eq (e.getenv (codes "APP_DEBUG")) (codes "true")

  -- `String.Upper`, as the tests on the environment's name use it
  abbrev pub upper_is : Text → Text → Bool
  unfolding text_eq
  upper_is name environment = text_eq (e.to_upper environment) name

  abbrev pub is_production : Text → Bool
  is_production environment = upper_is (codes "PRODUCTION") environment

  abbrev pub is_staging : Text → Bool
  is_staging environment = upper_is (codes "STAGING") environment

  abbrev pub is_local : Text → Bool
  is_local environment = upper_is (codes "LOCAL") environment

  -- The loop of `String.Short` over the parts; on bytes
  abbrev pub initials : List Text → Text
  initials [] = []
  initials (part ∷ parts) = if is_empty part then initials parts else take 1 part ++ initials parts

  unfoldable pub short : Text → Text
  unfolding split_on
  short s = initials (split_on b'-' (e.to_upper s))

  -- `String.Title`, on bytes
  unfoldable pub title : (Text → Text) → Text → Text
  title to_lower s = if is_empty s then [] else e.to_upper (take 1 s) ++ to_lower (drop 1 s)

  -- `results[key] = path`, on an association list
  abbrev pub put_path : List (Text × Text) → Text → Text → List (Text × Text)
  unfolding text_eq
  put_path [] key path = (key, path) ∷ []
  put_path ((k, p) ∷ rest) key path =
      let more = put_path rest key path in if text_eq k key then (k, path) ∷ rest else (k, p) ∷ more

  -- The loop of `EnvMappings`
  abbrev pub put_all : List (Text × Text) → List Mapping → List (Text × Text)
  put_all results [] = results
  put_all results (m ∷ ms) = put_all (put_path results m.env_key m.yaml_path) ms

  unfoldable pub env_mappings : Fields F → List (Text × Text)
  unfolding env_mappings_with_fields
  env_mappings c = put_all [] (env_mappings_with_fields e c)
