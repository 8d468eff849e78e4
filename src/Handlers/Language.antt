-- ===== src/Handlers/Language.antt =====
-- app/handlers/endpoints/handlertask.go: the language that the session keeps.
use goth_scaffold.Prelude.{◌≡◌, refl, ap, arith, Text, List, [], ◌∷◌}
use goth_scaffold.Handlers.{LangRequest, Languages, put_lang, accepted_lang, lang_of}

module _ (l : Languages) where
  accepted_lang-put_lang :
      (qs : List Text) (r : LangRequest)
      → accepted_lang l qs r ≡ put_lang (accepted_lang l qs r).0 r
  unfolding accepted_lang
  accepted_lang-put_lang [] r = refl
  accepted_lang-put_lang (q ∷ qs) r = ground (arith, accepted_lang-put_lang qs r)

  accepted_lang-session :
      (qs : List Text) (r : LangRequest) (lang : Text)
      → (accepted_lang l qs (record r { session_lang = lang })).0 ≡ (accepted_lang l qs r).0
  unfolding accepted_lang
  accepted_lang-session [] r lang = refl
  accepted_lang-session (q ∷ qs) r lang = ground (arith, accepted_lang-session qs r lang)

  -- The session then holds the language that `Lang` returns, and asking again for the same request returns it
  -- again.
  pub lang_of-session :
      (r : LangRequest)
      → let (lang, r') = lang_of l r in (r'.session_lang ≡ lang) × ((lang_of l r').0 ≡ lang)
  unfolding lang_of
  lang_of-session r =
      let accepted = accepted_lang l r.accept_language r in
      (
        ground (arith, ap (λ x. x.1.session_lang) (accepted_lang-put_lang r.accept_language r)),
        ground (
          arith,
          accepted_lang-put_lang r.accept_language r,
          accepted_lang-session r.accept_language r accepted.0,
        ),
      )
