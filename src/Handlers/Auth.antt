-- ===== src/Handlers/Auth.antt =====
-- app/handlers/acceptances/check_basic_auth.go: the check of the `Authorization` header, and
-- app/handlers/minortasks/decode_access_token.go: where an access token is taken from.
use goth_scaffold.Prelude.{
  ℕ, Text, codes, text_eq, text_eq_iff, is_empty, has_prefix, split_on, drop, length, cons_first,
  Bool, true, false, not, ◌&&◌, ◌||◌, if◌then◌else◌, ◌==◌, ==_iff, List, [], ◌∷◌, ◌++◌, Option,
  none, some, ◌≡◌, refl, ap, ◌↔◌, arith, Bool-cases, inl, inr,
}

-- What `Do` returns: no error, or `InvalidToken` with the header `WWW-Authenticate` that it has set
pub data AuthAnswer : Type 0 where
  passed : AuthAnswer
  refused : Text → AuthAnswer

abbrev pub realm : Text → Text
realm app_name = codes "Basic realm=" ++ (b'"' ∷ (app_name ++ (b'"' ∷ [])))

-- `strings.SplitN(s, sep, 2)` at one character
unfoldable pub split_first : ℕ → Text → List Text
split_first sep [] = [] ∷ []
split_first sep (c ∷ s) =
    let parts = split_first sep s in if c == sep then [] ∷ s ∷ [] else cons_first c parts

-- The two parts around the first separator
abbrev pub check_parts : Text → List Text → AuthAnswer
unfolding text_eq
check_parts app_name (username ∷ password ∷ []) =
    if not (text_eq username (codes "goth")) || not (text_eq password (codes "scaffold"))
    then refused (realm app_name)
    else passed
check_parts app_name parts = refused (realm app_name)

abbrev pub check_decoded : Text → Option Text → AuthAnswer
unfolding split_first check_parts
check_decoded app_name none = refused (realm app_name)
check_decoded app_name (some credentials) = check_parts app_name (split_first b':' credentials)

-- `CheckBasicAuth.Do`, with base64's `DecodeString`
unfoldable pub check_basic_auth : (Text → Option Text) → Text → Text → AuthAnswer
unfolding has_prefix check_decoded
check_basic_auth decode app_name auth_header =
    if is_empty auth_header
    then refused (realm app_name)
    else if not (has_prefix auth_header (codes "Basic "))
    then refused (realm app_name)
    else check_decoded app_name (decode (drop 6 auth_header))

-- `strings.Split` at two characters in a row
unfoldable pub split_protocols : ℕ → ℕ → Text → List Text
split_protocols a b [] = [] ∷ []
split_protocols a b (c ∷ []) = (c ∷ []) ∷ []
split_protocols a b (c ∷ d ∷ s) =
    let behind = split_protocols a b s in
    let next = split_protocols a b (d ∷ s) in
    if c == a && d == b then [] ∷ behind else cons_first c next

abbrev pub bearer_token : (Text → Text) → List Text → Text
unfolding text_eq
bearer_token to_upper (scheme ∷ token ∷ []) =
    if text_eq (to_upper scheme) (codes "BEARER") then token else []
bearer_token to_upper parts = []

-- The token, and the protocol that is added to the answer
abbrev pub protocol_token : (Text → Text) → Text → Text → List Text → Text × Option Text
unfolding text_eq
protocol_token to_upper app_name token (protocol ∷ offered ∷ rest) =
    if text_eq (to_upper protocol) (to_upper app_name)
    then (offered, some protocol)
    else (token, none)
protocol_token to_upper app_name token parts = (token, none)

-- `DecodeSiteToken.Do`: the parameter that it sets, none where there is no token, and the added protocol
abbrev pub token_parameter : Text × Option Text → Option Text × Option Text
token_parameter (token, protocol) = (if is_empty token then none else some token, protocol)

unfoldable pub decode_site_token : (Text → Text) → Text → Text → Text → Option Text × Option Text
unfolding split_on split_protocols bearer_token protocol_token
decode_site_token to_upper app_name authorization websocket_protocol =
    let token = bearer_token to_upper (split_on 32 authorization) in
    token_parameter (
      if is_empty websocket_protocol
      then (token, none)
      else protocol_token to_upper app_name token (split_protocols b',' 32 websocket_protocol))

has_prefix-drop : (s p : Text) → has_prefix s p ≡ true → s ≡ p ++ drop (length p) s
unfolding has_prefix
has_prefix-drop s [] h = refl
has_prefix-drop [] (q ∷ p) h = absurd (cc h)
has_prefix-drop (c ∷ s) (q ∷ p) h = ground (arith, has_prefix-drop s p)

-- The text of the two parts
abbrev pub Rejoined : Text → List Text → Text → Type 0
Rejoined s (u ∷ p ∷ []) sep = s ≡ u ++ (sep ++ p)
Rejoined s parts sep = Unit

Rejoined-cons_first :
    (c : ℕ) (s sep : Text) (parts : List Text)
    → Rejoined s parts sep
    → Rejoined (c ∷ s) (cons_first c parts) sep
Rejoined-cons_first c s sep [] h = tt
Rejoined-cons_first c s sep (u ∷ []) h = tt
Rejoined-cons_first c s sep (u ∷ p ∷ []) h = ap (λ t. c ∷ t) h
Rejoined-cons_first c s sep (u ∷ p ∷ q ∷ parts) h = tt

split_first-Rejoined : (sep : ℕ) (s : Text) → Rejoined s (split_first sep s) (sep ∷ [])
unfolding split_first
split_first-Rejoined sep [] = tt
split_first-Rejoined sep (c ∷ s) = elim (Bool-cases (c == sep)) [
  | inl e ↦ rw e (ap (λ t. t ∷ s) ((==_iff c sep).0 e))
  | inr e ↦
      rw e (Rejoined-cons_first c s (sep ∷ []) (split_first sep s) (split_first-Rejoined sep s))
]

passes :
    (b : Bool) (x : Text) (a : AuthAnswer)
    → (if b then refused x else a) ≡ passed
    → (b ≡ false) × (a ≡ passed)
passes true x a h = absurd (cc h)
passes false x a h = (refl, h)

neither : (a b : Bool) → (not a || not b) ≡ false → (a ≡ true) × (b ≡ true)
neither a b h = (ground arith, ground arith)

check_parts-Rejoined :
    (app_name s : Text) (parts : List Text)
    → Rejoined s parts (b':' ∷ [])
    → check_parts app_name parts ≡ passed
    → s ≡ codes "goth:scaffold"
unfolding check_parts
check_parts-Rejoined app_name s [] r h = absurd (cc h)
check_parts-Rejoined app_name s (u ∷ []) r h = absurd (cc h)
check_parts-Rejoined app_name s (u ∷ p ∷ []) r h =
    let both =
      passes (not (text_eq u (codes "goth")) || not (text_eq p (codes "scaffold"))) (realm app_name)
        passed h in
    let names = neither (text_eq u (codes "goth")) (text_eq p (codes "scaffold")) both.0 in
    let user = (text_eq_iff u (codes "goth")).0 names.0 in
    let word = (text_eq_iff p (codes "scaffold")).0 names.1 in rw (r, user, word) refl
check_parts-Rejoined app_name s (u ∷ p ∷ q ∷ parts) r h = absurd (cc h)

module _ (decode : Text → Option Text) (app_name : Text) where
  abbrev pub Authorized : Text → Type 0
  Authorized auth_header =
      (encoded : Text) × (auth_header ≡ codes "Basic " ++ encoded)
      × (decode encoded ≡ some (codes "goth:scaffold"))

  check_decoded-passed :
      (decoded : Option Text)
      → check_decoded app_name decoded ≡ passed
      → decoded ≡ some (codes "goth:scaffold")
  unfolding check_decoded
  check_decoded-passed none h = absurd (cc h)
  check_decoded-passed (some s) h =
      ap some (check_parts-Rejoined app_name s (split_first b':' s) (split_first-Rejoined b':' s) h)

  check_basic_auth-Authorized :
      (auth_header : Text)
      → check_basic_auth decode app_name auth_header ≡ passed
      → Authorized auth_header
  unfolding check_basic_auth
  check_basic_auth-Authorized auth_header h =
      let rest = drop 6 auth_header in
      let inner =
        (if not (has_prefix auth_header (codes "Basic "))
          then refused (realm app_name)
          else check_decoded app_name (decode rest)) in
      let some_header = passes (is_empty auth_header) (realm app_name) inner h in
      let scheme =
        passes (not (has_prefix auth_header (codes "Basic "))) (realm app_name)
          (check_decoded app_name (decode rest)) some_header.1 in
      let starts = neither (has_prefix auth_header (codes "Basic ")) true (rw (scheme.0) refl) in
      (
        rest,
        has_prefix-drop auth_header (codes "Basic ") starts.0,
        check_decoded-passed (decode rest) scheme.1,
      )

  Authorized-check_basic_auth :
      (auth_header : Text)
      → Authorized auth_header
      → check_basic_auth decode app_name auth_header ≡ passed
  unfolding check_basic_auth
  Authorized-check_basic_auth auth_header (encoded, e, d) =
      rw (e) (rw d (unfold split_first text_eq check_parts check_decoded in refl))

  -- The check of basic authentication lets a request through exactly if its header is the scheme
  -- "Basic " with an encoding of "goth:scaffold".
  pub check_basic_auth_iff :
      (auth_header : Text)
      → (check_basic_auth decode app_name auth_header ≡ passed) ↔ Authorized auth_header
  check_basic_auth_iff auth_header =
      (check_basic_auth-Authorized auth_header, Authorized-check_basic_auth auth_header)
