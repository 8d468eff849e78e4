-- ===== src/Remote.antt =====
-- app/components/googleauth/googleauth.go and app/components/recaptcha/recaptcha.go: the calls of Google,
-- with httpclient's answer as an argument.
use goth_scaffold.Prelude.{
  ℕ, ◌==◌, Text, codes, Bool, true, false, if◌then◌else◌, List, [], ◌∷◌, ◌++◌, Option, none, some,
  Result, ok, err, ◌>>=◌, ◌≡◌, refl, ap, Bool-cases, inl, inr, ok-injective, is_some,
}

-- The answer of a request, with its body
pub record RemoteAnswer : Type 0 where
  pub status : ℕ
  pub answer_body : Text

-- What a call returns in place of its value
pub data RemoteError (E : Type 0) : Type 0 where
  not_created not_sent not_read not_parsed : E → RemoteError E
  not_ok : Text → RemoteError E

-- `json.Unmarshal` for the type of the value, as it is where the body has no field
pub record RemoteCodec (A E : Type 0) : Type 0 where
  pub parse_body : Text → Result E A

module _ {A E : Type 0} (codec : RemoteCodec A E) where
  abbrev pub tagged : {B : Type 0} → (E → RemoteError E) → Result E B → Result (RemoteError E) B
  tagged tag (ok b) = ok b
  tagged tag (err e) = err (tag e)

  -- The tests of `ExchangeCodeForToken` and of `GetUserInfo`, in their order: of the request, of the answer, of its
  -- status and of its body
  unfoldable pub checked_answer : Option E → Result E RemoteAnswer → Result (RemoteError E) A
  checked_answer (some e) answer = err (not_created e)
  checked_answer none answer = tagged not_sent answer >>= (λ a.
      if a.status == 200
      then tagged not_parsed (codec.parse_body a.answer_body)
      else err (not_ok a.answer_body))

-- A request before it is sent; the form is encoded by `url.Values`.
pub record RemoteRequest : Type 0 where
  pub remote_method : Text
  pub remote_url : Text
  pub form : List (Text × Text)
  pub remote_headers : List (Text × Text)

-- `http.NewRequest` and httpclient: the error of the first, and the answer of the second
pub record Remote (E : Type 0) : Type 0 where
  pub create : RemoteRequest → Option E
  pub send : RemoteRequest → Result E RemoteAnswer

pub record OauthClient : Type 0 where
  pub client_id : Text
  pub client_secret : Text

abbrev pub form_type : List (Text × Text)
form_type = (codes "Content-Type", codes "application/x-www-form-urlencoded") ∷ []

-- The parameters of `GenerateOAuthUrl`
abbrev pub oauth_params : OauthClient → Text → Text → List (Text × Text)
oauth_params c redirect_uri state =
    (codes "client_id", c.client_id)
    ∷ (codes "redirect_uri", redirect_uri)
    ∷ (codes "response_type", codes "code")
    ∷ (codes "scope", codes "openid email profile")
    ∷ (codes "state", state)
    ∷ []

abbrev pub token_request : OauthClient → Text → Text → RemoteRequest
token_request c code redirect_uri = record {
  remote_method = codes "POST";
  remote_url = codes "https://oauth2.googleapis.com/token";
  form =
      (codes "client_id", c.client_id)
      ∷ (codes "client_secret", c.client_secret)
      ∷ (codes "code", code)
      ∷ (codes "grant_type", codes "authorization_code")
      ∷ (codes "redirect_uri", redirect_uri)
      ∷ [];
  remote_headers = form_type;
}

abbrev pub user_info_request : Text → RemoteRequest
user_info_request access_token = record {
  remote_method = codes "GET";
  remote_url = codes "https://www.googleapis.com/oauth2/v2/userinfo";
  form = [];
  remote_headers = (codes "Authorization", codes "Bearer " ++ access_token) ∷ [];
}

abbrev pub verify_request : Text → Text → RemoteRequest
verify_request secret_key token = record {
  remote_method = codes "POST";
  remote_url = codes "https://www.google.com/recaptcha/api/siteverify";
  form = (codes "secret", secret_key) ∷ (codes "response", token) ∷ [];
  remote_headers = form_type;
}

module _ {E : Type 0} (r : Remote E) where
  unfoldable pub exchange_code_for_token :
      {A : Type 0} → RemoteCodec A E → OauthClient → Text → Text → Result (RemoteError E) A
  unfolding checked_answer
  exchange_code_for_token codec c code redirect_uri =
      let q = token_request c code redirect_uri in checked_answer codec (r.create q) (r.send q)

  unfoldable pub get_user_info : {A : Type 0} → RemoteCodec A E → Text → Result (RemoteError E) A
  unfolding checked_answer
  get_user_info codec access_token =
      let q = user_info_request access_token in checked_answer codec (r.create q) (r.send q)

  -- The end of `Verify`: the body that `io.ReadAll` gives, and the field `success` of the JSON in it
  abbrev pub success_of : Result E Bool → Bool
  success_of (ok success) = success
  success_of (err e) = false

  abbrev pub verified :
      (Text → Result E Text) → (Text → Result E Bool) → Result E RemoteAnswer → Bool
  verified read_all success (err e) = false
  verified read_all success (ok a) = success_of (read_all a.answer_body >>= success)

  -- `recaptcha.Verify`
  unfoldable pub verify : (Text → Result E Text) → (Text → Result E Bool) → Text → Text → Bool
  verify read_all success secret_key token =
      let q = verify_request secret_key token in
      if is_some (r.create q) then false else verified read_all success (r.send q)

module _ {A E : Type 0} (codec : RemoteCodec A E) where
  tagged-ok :
      {B : Type 0} (tag : E → RemoteError E) (m : Result E B) (b : B)
      → tagged codec tag m ≡ ok b
      → m ≡ ok b
  tagged-ok tag (ok x) b h = ap ok (ok-injective h)
  tagged-ok tag (err e) b h = absurd (cc h)

  -- A value comes only from an answer with the status 200, in whose body it is.
  pub checked_answer-ok :
      (created : Option E) (answer : Result E RemoteAnswer) (value : A)
      → checked_answer codec created answer ≡ ok value
      → (a : RemoteAnswer) × (answer ≡ ok a)
        × ((a.status == 200) ≡ true)
        × (codec.parse_body a.answer_body ≡ ok value)
  unfolding checked_answer
  checked_answer-ok (some e) answer value h = absurd (cc h)
  checked_answer-ok none (err e) value h = absurd (cc h)
  checked_answer-ok none (ok a) value h = elim (Bool-cases (a.status == 200)) [
    | inl s ↦ (a, refl, s, tagged-ok not_parsed (codec.parse_body a.answer_body) value (rw s at h))
    | inr s ↦ let stopped : err (not_ok a.answer_body) ≡ ok value = rw s at h in absurd (cc stopped)
  ]
