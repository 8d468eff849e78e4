-- ===== src/Handlers/Pages.antt =====
-- app/handlers/endpoints/handlertask.go: the messages that a page shows once, and the answers of the base
-- handler to the methods and to an error.
use goth_scaffold.Prelude.{
  Text, codes, text_eq, is_empty, false, not, if◌then◌else◌, Option, none, some, ◌≡◌, refl, ap, sym,
  ◌∙◌, if_rule, arith, [], ◌∷◌,
}

-- The session of a request; `S` is its state.
pub record WebSession (S : Type 0) : Type 0 where
  pub put_string : Text → Text → S → S
  pub get_string : Text → S → Text
  pub delete_key : Text → S → S

abbrev pub error_message : Text
error_message = codes "PAGE_ERROR_MESSAGE"

abbrev pub success_message : Text
success_message = codes "PAGE_SUCCESS_MESSAGE"

module _ {S : Type 0} (d : WebSession S) where
  abbrev pub set_page_error_message : Text → S → S
  set_page_error_message message s = d.put_string error_message message s

  abbrev pub set_page_success_message : Text → S → S
  set_page_success_message message s = d.put_string success_message message s

  -- A message of the session and the session without it, where it has one
  abbrev pub take_message : Text → S → Option Text × S
  take_message key s =
      if not (is_empty (d.get_string key s))
      then (some (d.get_string key s), d.delete_key key s)
      else (none, s)

  -- The end of `_RenderVars`: the two variables and the session
  unfoldable pub render_messages : S → Option Text × Option Text × S
  render_messages s =
      let (error_var, s1) = take_message error_message s in
      let (success_var, s2) = take_message success_message s1 in (error_var, success_var, s2)

  -- What a session does, for its two keys of messages
  pub record IsWebSession : Type 0 where
    pub got : (k v : Text) (s : S) → d.get_string k (d.put_string k v s) ≡ v
    pub kept :
        (k l v : Text) (s : S)
        → text_eq k l ≡ false
        → d.get_string k (d.put_string l v s) ≡ d.get_string k s
    pub gone : (k : Text) (s : S) → d.get_string k (d.delete_key k s) ≡ []
    pub left :
        (k l : Text) (s : S)
        → text_eq k l ≡ false
        → d.get_string k (d.delete_key l s) ≡ d.get_string k s

abbrev pub message_var : Text → Option Text
message_var m = if is_empty m then none else some m

empty_text : (t : Text) → not (is_empty t) ≡ false → t ≡ []
empty_text [] h = refl
empty_text (c ∷ t) h = absurd (cc h)

module _ {S : Type 0} (d : WebSession S) (is_web_session : IsWebSession d) where
  messages-differ : text_eq success_message error_message ≡ false
  unfolding text_eq
  messages-differ = refl

  errors-differ : text_eq error_message success_message ≡ false
  unfolding text_eq
  errors-differ = refl

  take_message-var :
      (key : Text) (s : S) → (take_message d key s).0 ≡ message_var (d.get_string key s)
  take_message-var key s = ground arith

  take_message-gone : (key : Text) (s : S) → d.get_string key (take_message d key s).1 ≡ []
  take_message-gone key s =
      let here = d.get_string key s in
      if_rule (λ (x : Option Text × S). d.get_string key x.1 ≡ []) (not (is_empty here))
        (λ h. is_web_session.gone key s) (λ h. empty_text here h)

  take_message-left :
      (key other : Text) (s : S)
      → text_eq other key ≡ false
      → d.get_string other (take_message d key s).1 ≡ d.get_string other s
  take_message-left key other s h =
      if_rule (λ (x : Option Text × S). d.get_string other x.1 ≡ d.get_string other s)
        (not (is_empty (d.get_string key s))) (λ k. is_web_session.left other key s h) (λ k. refl)

  take_message-none :
      (key : Text) (s : S) → d.get_string key s ≡ [] → take_message d key s ≡ (none, s)
  take_message-none key s e = rw e refl

  render_messages-vars :
      (s : S)
      → ((render_messages d s).0 ≡ message_var (d.get_string error_message s))
        × ((render_messages d s).1 ≡ message_var (d.get_string success_message s))
  unfolding render_messages
  render_messages-vars s = (
    take_message-var error_message s,
    rw (sym (take_message-left error_message success_message s messages-differ))
        (take_message-var success_message (take_message d error_message s).1),
  )

  render_messages-gone :
      (s : S)
      → (d.get_string error_message (render_messages d s).2 ≡ [])
        × (d.get_string success_message (render_messages d s).2 ≡ [])
  unfolding render_messages
  render_messages-gone s =
      let s1 = (take_message d error_message s).1 in
      (
        take_message-left success_message error_message s1 errors-differ
            ∙ take_message-gone error_message s,
        take_message-gone success_message s1,
      )

  render_messages-none :
      (s : S)
      → d.get_string error_message s ≡ []
      → d.get_string success_message s ≡ []
      → render_messages d s ≡ (none, none, s)
  unfolding render_messages
  render_messages-none s e f =
      rw (take_message-none error_message s e, take_message-none success_message s f) refl

  pub render_messages-set_page_error_message :
      (error success : Text) (s : S)
      → ((render_messages d
            (set_page_success_message d success (set_page_error_message d error s))).0
          ≡ message_var error)
        × ((render_messages d
              (set_page_success_message d success (set_page_error_message d error s))).1
            ≡ message_var success)
        × (render_messages d
              (render_messages d
                (set_page_success_message d success (set_page_error_message d error s))).2
            ≡ (
              none,
              none,
              (render_messages d
                  (set_page_success_message d success (set_page_error_message d error s))).2,
            ))
  render_messages-set_page_error_message error success s =
      let s1 = set_page_error_message d error s in
      let s2 = set_page_success_message d success s1 in
      let vars = render_messages-vars s2 in
      let gone = render_messages-gone s2 in
      let first =
        is_web_session.kept error_message success_message success s1 errors-differ
        ∙ is_web_session.got error_message error s in
      (
        vars.0 ∙ ap message_var first,
        vars.1 ∙ ap message_var (is_web_session.got success_message success s1),
        render_messages-none (render_messages d s2).2 gone.0 gone.1,
      )
