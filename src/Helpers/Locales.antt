-- ===== src/Helpers/Locales.antt =====
-- app/helpers/validation.go: the checks of names and of locales.
use goth_scaffold.Prelude.{
  Text, is_empty, length, ltb, leb, Bool, true, false, if◌then◌else◌, [], Option, none, some,
}

-- `ValidateNameLength`, on runes
abbrev pub validate_name_length : Text → Bool
validate_name_length name = leb (length name) 254

-- The part of `ValidateLocale` behind `language.Parse`, none on an error, else the text of the tag
abbrev pub normalized_locale : Option Text → Text × Bool
normalized_locale none = ([], false)
normalized_locale (some normalized) =
    if ltb 85 (length normalized) then ([], false) else (normalized, true)

-- `ValidateLocale`, on bytes
unfoldable pub validate_locale : (Text → Option Text) → Text → Text × Bool
validate_locale parse locale =
    if is_empty locale
    then ([], false)
    else if ltb 85 (length locale)
    then ([], false)
    else normalized_locale (parse locale)
