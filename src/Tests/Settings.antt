-- ===== src/Tests/Settings.antt =====
-- The theorems on the configuration, the settings and the checks of texts, at fixed inputs.
use mathlib.Core.List.{Perm}
use mathlib.Core.List.Perm
use goth_scaffold.Prelude.{
  ℕ, ◌-◌, ◌≤◌, ◌==◌, leb, ◌≡◌, refl, Text, codes, text_eq, is_empty, length, all, All, keep, map,
  Bool, true, false, not, ◌&&◌, if◌then◌else◌, List, [], ◌∷◌, none, some, Result, ok, err, pos,
}
use goth_scaffold.Config.{env_prefix, collect_env_mappings, load_from_env}
use goth_scaffold.Config.Sharing.{
  unready, ready, ConfigStep, read_step, enter_step, finish_step, reload_step, config_step,
  returned, at_start, Settles, returned-Settles,
}
use goth_scaffold.Config.Struct.{
  update, load_field, Env, Fields, end, value_field, struct_field, string_kind, int_kind, uint_kind,
  strings_kind,
}
use goth_scaffold.Config.Loading.{load_below, load_from_env-load_below}
use goth_scaffold.Config.Variables.{Loads, load_from_env-Loads}
use goth_scaffold.Helpers.Countries.{
  validate_country_code, alpha3_to_alpha2, alpha2_to_alpha3, alpha2_to_alpha3-alpha3_to_alpha2,
}
use goth_scaffold.Helpers.Phones.{
  validate_phone_number, digit_count, is_allowed_rune, validate_phone_number-bounds,
}
use goth_scaffold.Helpers.Tables.{alpha2_table, valid_codes}
use goth_scaffold.Settings.{Setting, SettingDb, SqlArg, text_arg, time_arg}
use goth_scaffold.Settings.Effective.{null_or_from, preferred}

abbrev upper_rune : ℕ → ℕ
upper_rune c = if leb b'a' c && leb c b'z' then c - 32 else c

-- A port that is set, a number that is too large for its field, and a list
abbrev variables : Text → Text
unfolding text_eq
variables name =
    if text_eq name (codes "APP_APP_PORT")
    then codes "8080"
    else if text_eq name (codes "APP_APP_LEVEL")
    then codes "300"
    else if text_eq name (codes "APP_TAGS")
    then codes "a, b,,c"
    else []

abbrev env : Env Text
env = record {
  getenv = variables;
  to_upper = λ s. map upper_rune s;
  is_space = λ c. c == 32;
  parse_float = λ bits s. none;
}

abbrev file : Fields Text
file =
    struct_field (codes "app,omitempty")
      (value_field (codes "port") true (int_kind 64 (pos 80)) (
        value_field (codes "level") true (uint_kind 8 7)
          (value_field (codes "-") true (string_kind (codes "kept")) end)))
      (value_field (codes "tags") true (strings_kind []) end)

load_from_env-load_below_example :
    (load_from_env env file ≡ load_below env env_prefix file)
    × (load_from_env env (load_from_env env file) ≡ load_from_env env file)
load_from_env-load_below_example = load_from_env-load_below env file

load_from_env-Loads_example : Loads env (codes "APP") file (load_from_env env file)
load_from_env-Loads_example = load_from_env-Loads env file

load_from_env_test :
    load_from_env env file
    ≡ struct_field
        (codes "app,omitempty")
        (value_field (codes "port") true (int_kind 64 (pos 8080)) (
          value_field
            (codes "level")
            true
            (uint_kind 8 7)
            (value_field (codes "-") true (string_kind (codes "kept")) end)))
        (value_field
          (codes "tags")
          true
          (strings_kind (codes "a" ∷ codes "b" ∷ codes "c" ∷ []))
          end)
unfolding load_from_env text_eq collect_env_mappings update load_field
load_from_env_test = refl

taiwan-validate : validate_country_code (codes "TWN") ≡ true
unfolding validate_country_code valid_codes text_eq
taiwan-validate = refl

japan-alpha3 : is_empty (alpha2_to_alpha3 (codes "JP")) ≡ false
unfolding alpha2_to_alpha3 alpha2_table text_eq
japan-alpha3 = refl

alpha2_to_alpha3-alpha3_to_alpha2_example :
    (validate_country_code (codes "XXX") ≡ not (is_empty (alpha3_to_alpha2 (codes "XXX"))))
    × (alpha2_to_alpha3 (alpha3_to_alpha2 (codes "TWN")) ≡ codes "TWN")
    × (alpha3_to_alpha2 (alpha2_to_alpha3 (codes "JP")) ≡ codes "JP")
alpha2_to_alpha3-alpha3_to_alpha2_example =
    alpha2_to_alpha3-alpha3_to_alpha2 (codes "XXX") (codes "TWN") (codes "JP") taiwan-validate
      japan-alpha3

-- The longest number that is accepted
abbrev long_phone : Text
long_phone = codes "+(1234)-(1234)-1234-567"

long_phone-validate : validate_phone_number long_phone ≡ true
unfolding validate_phone_number
long_phone-validate = refl

validate_phone_number-bounds_example :
    (7 ≤ digit_count long_phone)
    × (digit_count long_phone ≤ 15)
    × (length long_phone ≤ 23)
    × (all is_allowed_rune long_phone ≡ true)
validate_phone_number-bounds_example = validate_phone_number-bounds long_phone long_phone-validate

abbrev ordinary_setting : Setting
ordinary_setting = record {
  setting_id = 1;
  category = codes "mail";
  setting_key = codes "from";
  setting_value = some (codes "1");
  is_default = true;
  effective_start = 10;
  effective_end = none;
  is_deleted = false;
}

abbrev special_setting : Setting
special_setting = record {
  setting_id = 2;
  category = codes "mail";
  setting_key = codes "from";
  setting_value = some (codes "2");
  is_default = false;
  effective_start = 20;
  effective_end = some 30;
  is_deleted = false;
}

abbrev settings : List Setting
settings = special_setting ∷ ordinary_setting ∷ []

-- What the conditions of the repository mean, told apart by their arguments and texts
abbrev cond_holds : Text × List SqlArg → Setting → Bool
unfolding text_eq
cond_holds (cond, text_arg c ∷ text_arg k ∷ rest) r =
    text_eq r.category c && text_eq r.setting_key k
cond_holds (cond, text_arg c ∷ []) r = text_eq r.category c
cond_holds (cond, time_arg now ∷ rest) r =
    if text_eq cond (codes "effective_start <= ?")
    then leb r.effective_start now
    else null_or_from now r.effective_end
cond_holds other r = true

abbrev head_or_error : List Setting → Result Text Setting
head_or_error [] = err (codes "not found")
head_or_error (r ∷ rs) = ok r

abbrev selected : List (Text × List SqlArg) → Setting → Bool
unfolding cond_holds
selected wheres r = not r.is_deleted && all (λ w. cond_holds w r) wheres

abbrev setting_db : SettingDb Text
unfolding selected
setting_db = record {
  first_setting = λ q. head_or_error (keep (selected q.wheres) settings);
  find_settings = λ q. ok (keep (selected q.wheres) settings);
}

abbrev IsBest : List Setting → Type 0
IsBest [] = Unit
IsBest (r ∷ rs) = All (λ x. preferred x r ≡ false) rs

-- Two goroutines; the second is given the configuration before it is filled.
abbrev racing_steps : List ConfigStep
racing_steps = read_step ∷ enter_step ∷ read_step ∷ finish_step ∷ read_step ∷ []

returned-Settles_example : Settles (returned racing_steps at_start)
returned-Settles_example = returned-Settles racing_steps (refl, (refl, (refl, (refl, (refl, tt)))))

returned-racing_test : returned racing_steps at_start ≡ some unready ∷ some ready ∷ some ready ∷ []
unfolding returned config_step
returned-racing_test = refl

-- A reload while the configuration is filled
returned-reload_test : returned (enter_step ∷ reload_step ∷ finish_step ∷ []) at_start ≡ none ∷ []
unfolding returned config_step
returned-reload_test = refl
