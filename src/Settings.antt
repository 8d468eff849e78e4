-- ===== src/Settings.antt =====
-- app/models/site_settings.go: a site setting, its value and when it is effective; and
-- app/repositories/site_settings.go: the queries for settings.
pub mod Effective
use goth_scaffold.Prelude.{
  ℕ, ◌==◌, ltb, leb, Text, codes, is_empty, Bool, true, false, not, ◌&&◌, ◌||◌, if◌then◌else◌, List,
  [], ◌∷◌, ◌++◌, Option, none, some, Result, ok, err,
}
use goth_scaffold.Models.Values.{DriverValue, nil_value, other_kind, bytes_value, string_value}

-- `SiteSetting`, with instants of time as numbers; `is_deleted` is `DeletedAt.Valid`.
pub record Setting : Type 0 where
  pub setting_id : ℕ
  pub category : Text
  pub setting_key : Text
  pub setting_value : Option Text
  pub is_default : Bool
  pub effective_start : ℕ
  pub effective_end : Option ℕ
  pub is_deleted : Bool

-- `SiteSettingValue.Scan`, on the value that was there before; it never returns an error.
abbrev pub scan_setting_value : DriverValue → Option Text → Option Text
scan_setting_value nil_value old = some (codes "null")
scan_setting_value other_kind old = old
scan_setting_value (bytes_value text) old = some text
scan_setting_value (string_value text) old = old

-- `SiteSettingValue.Value`
abbrev pub setting_value_of : Option Text → DriverValue
setting_value_of none = string_value (codes "null")
setting_value_of (some text) = bytes_value text

-- `now.After(*s.EffectiveEnd)`, where there is an end
abbrev pub is_past : ℕ → Option ℕ → Bool
is_past now none = false
is_past now (some t) = ltb t now

unfoldable pub is_effective : ℕ → Setting → Bool
is_effective now s =
    if s.is_deleted
    then false
    else if ltb now s.effective_start
    then false
    else if is_past now s.effective_end
    then false
    else true

-- An argument of a condition
pub data SqlArg : Type 0 where
  text_arg : Text → SqlArg
  time_arg : ℕ → SqlArg

-- The calls of `Where`, one after the other, and of `Order`
pub record SettingQuery : Type 0 where
  pub wheres : List (Text × List SqlArg)
  pub order_by : Text

-- GORM's `First` and `Find` on a query
pub record SettingDb (E : Type 0) : Type 0 where
  pub first_setting : SettingQuery → Result E Setting
  pub find_settings : SettingQuery → Result E (List Setting)

abbrev pub key_cond : Text → Text → Text × List SqlArg
key_cond category key = (codes "category = ? AND `key` = ?", text_arg category ∷ text_arg key ∷ [])

abbrev pub category_cond : Text → Text × List SqlArg
category_cond category = (codes "category = ?", text_arg category ∷ [])

abbrev pub started_cond : ℕ → Text × List SqlArg
started_cond now = (codes "effective_start <= ?", time_arg now ∷ [])

abbrev pub not_ended_cond : ℕ → Text × List SqlArg
not_ended_cond now = (codes "effective_end IS NULL OR effective_end >= ?", time_arg now ∷ [])

abbrev pub newest_order : Text
newest_order = codes "effective_start DESC"

abbrev pub preferred_order : Text
preferred_order = codes "`default` ASC, effective_start DESC"

abbrev pub effective_key_query : Text → Text → ℕ → SettingQuery
effective_key_query category key now = record {
  wheres = key_cond category key ∷ started_cond now ∷ not_ended_cond now ∷ [];
  order_by = preferred_order;
}

abbrev pub effective_category_query : Text → ℕ → SettingQuery
effective_category_query category now = record {
  wheres = category_cond category ∷ started_cond now ∷ not_ended_cond now ∷ [];
  order_by = preferred_order;
}

abbrev pub effective_query : ℕ → SettingQuery
effective_query now = record {
  wheres = started_cond now ∷ not_ended_cond now ∷ [];
  order_by = codes "category ASC, `key` ASC, `default` ASC, effective_start DESC";
}

module _ {E : Type 0} (d : SettingDb E) where
  -- The setting, nil on any error
  abbrev pub setting_or_nil : Result E Setting → Option Setting
  setting_or_nil (ok s) = some s
  setting_or_nil (err e) = none

  -- The settings, none on any error
  abbrev pub settings_or_none : Result E (List Setting) → List Setting
  settings_or_none (ok xs) = xs
  settings_or_none (err e) = []

  unfoldable pub get_by_key : Text → Text → Option Setting
  get_by_key category key =
      setting_or_nil
        (d.first_setting (record { wheres = key_cond category key ∷ []; order_by = newest_order }))

  unfoldable pub get_effective_by_key : Text → Text → ℕ → Option Setting
  get_effective_by_key category key now =
      setting_or_nil (d.first_setting (effective_key_query category key now))

  unfoldable pub get_all_by_category : Text → List Setting
  get_all_by_category category =
      settings_or_none
        (d.find_settings (record { wheres = category_cond category ∷ []; order_by = newest_order }))

  unfoldable pub get_effective_by_category : Text → ℕ → List Setting
  get_effective_by_category category now =
      settings_or_none (d.find_settings (effective_category_query category now))

  unfoldable pub list_settings : List Setting
  list_settings = settings_or_none (
      d.find_settings
        (record { wheres = []; order_by = codes "category ASC, `key` ASC, effective_start DESC" }))

  unfoldable pub list_effective : ℕ → List Setting
  list_effective now = settings_or_none (d.find_settings (effective_query now))
