-- ===== src/Settings/Effective.antt =====
-- app/repositories/site_settings.go: the queries for effective settings, against `IsEffective` of
-- app/models/site_settings.go.
use mathlib.Core.List.{Perm}
use goth_scaffold.Prelude.{
  ℕ, ◌==◌, ltb, leb, Text, text_eq, Bool, true, false, not, ◌&&◌, ◌||◌, List, [], ◌∷◌, keep, all,
  All, Option, none, some, codes, ok, ◌≡◌,
}
use goth_scaffold.Settings.{Setting, SqlArg, text_arg, time_arg, SettingQuery, SettingDb}

-- The order of "`default` ASC, effective_start DESC", with the key that `First` puts behind it: settings that are no defaults come
-- first, then those that start later, then those of smaller keys.
abbrev pub preferred : Setting → Setting → Bool
preferred a b =
    not a.is_default && b.is_default
    || (not (a.is_default && not b.is_default)
        && (not (not a.is_default && b.is_default)
            && (ltb b.effective_start a.effective_start
                || b.effective_start == a.effective_start && ltb a.setting_id b.setting_id)))

-- `effective_end IS NULL OR effective_end >= t`, on the value of the column
abbrev pub null_or_from : ℕ → Option ℕ → Bool
null_or_from now none = true
null_or_from now (some t) = leb now t

module _ {E : Type 0} (d : SettingDb E) (rows : List Setting)
    (holds : Text × List SqlArg → Setting → Bool) where
  abbrev pub selects : SettingQuery → Setting → Bool
  selects q r = not r.is_deleted && all (λ w. holds w r) q.wheres

  -- A database with these rows: what SQL texts mean in it, that GORM leaves deleted rows out, and that
  -- `First` gives the first row in the order. The texts are written out as SQL has them.
  pub record IsTable : Type 0 where
    pub equal_category_and_key :
        (c k : Text) (r : Setting)
        → holds (codes "category = ? AND `key` = ?", text_arg c ∷ text_arg k ∷ []) r
          ≡ (text_eq r.category c && text_eq r.setting_key k)
    pub equal_category :
        (c : Text) (r : Setting)
        → holds (codes "category = ?", text_arg c ∷ []) r ≡ text_eq r.category c
    pub start_up_to :
        (t : ℕ) (r : Setting)
        → holds (codes "effective_start <= ?", time_arg t ∷ []) r ≡ leb r.effective_start t
    pub end_null_or_from :
        (t : ℕ) (r : Setting)
        → holds (codes "effective_end IS NULL OR effective_end >= ?", time_arg t ∷ []) r
          ≡ null_or_from t r.effective_end
    pub first_row :
        (wheres : List (Text × List SqlArg)) (s : Setting)
        → d.first_setting
            (record { wheres = wheres; order_by = codes "`default` ASC, effective_start DESC" })
          ≡ ok s
        → (others : List Setting) × Perm
            (s ∷ others)
            (keep (λ r. not r.is_deleted && all (λ w. holds w r) wheres) rows)
          × All (λ r. preferred r s ≡ false) others
    pub found_rows :
        (q : SettingQuery) (xs : List Setting)
        → d.find_settings q ≡ ok xs
        → Perm xs (keep (selects q) rows)
