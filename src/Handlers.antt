-- ===== src/Handlers.antt =====
-- app/handlers/endpoints/handlertask.go: what the base of all handlers decides itself, the language of a
-- request and the tokens against forged requests.
pub mod Language
pub mod Csrf
pub mod Base
pub mod Pages
pub mod Auth
use goth_scaffold.Prelude.{
  ℕ, ◌+◌, ltb, Text, Bool, true, false, not, ◌||◌, if◌then◌else◌, is_empty, List, [], ◌∷◌, Option,
  none, some,
}

-- The form value, the language of the session, empty where it has none, and the values of the header
-- Accept-Language, the best one first
pub record LangRequest : Type 0 where
  pub form_value : Text
  pub session_lang : Text
  pub accept_language : List Text

-- `strings.ToLower`, the languages with a file, and the default of the configuration
pub record Languages : Type 0 where
  pub to_lower : Text → Text
  pub has_lang_file : Text → Bool
  pub default_lang : Text

abbrev pub put_lang : Text → LangRequest → Text × LangRequest
put_lang lang r = (lang, record r { session_lang = lang })

module _ (l : Languages) where
  -- The loop over the header, and the default behind it
  unfoldable pub accepted_lang : List Text → LangRequest → Text × LangRequest
  accepted_lang [] r = put_lang (l.to_lower l.default_lang) r
  accepted_lang (q ∷ qs) r =
      let lang = l.to_lower q in
      let rest = accepted_lang qs r in if l.has_lang_file lang then put_lang lang r else rest

  -- `Lang`: the language, and the request with its session
  unfoldable pub lang_of : LangRequest → Text × LangRequest
  unfolding accepted_lang
  lang_of r =
      let lang = l.to_lower r.form_value in
      let accepted = accepted_lang r.accept_language r in
      if is_empty lang
      then (if not (is_empty r.session_lang) then (r.session_lang, r) else accepted)
      else if l.has_lang_file lang
      then put_lang lang r
      else accepted

-- The time hashes of goth-util: made of data, a time and a key, checked, and read
pub record TimeHash (D : Type 0) : Type 0 where
  pub crypto_time_hash : D → ℕ → Text
  pub validate_time_hash : Text → Bool
  pub timestamp_of : Text → ℕ
  pub data_of : Text → D

module _ {D : Type 0} (h : TimeHash D) where
  -- `GenerateCSRFToken`, at the time `now`, in seconds
  unfoldable pub generate_csrf_token : D → ℕ → ℕ → Text
  generate_csrf_token value expires_in now = h.crypto_time_hash value (now + expires_in)

  -- `ValidateCSRFToken`, at the time `now`
  unfoldable pub validate_csrf_token : Text → ℕ → Option D
  validate_csrf_token token now =
      if not (h.validate_time_hash token) || ltb (h.timestamp_of token) now
      then none
      else some (h.data_of token)
