-- ===== src/Http/Logging.antt =====
-- app/components/httpclient/httpclient.go: the sizes of the logged bodies, and the credentials in the log.
use goth_scaffold.Prelude.{
  ℕ, ◌+◌, ◌≤◌, Text, codes, text_eq, ltb, leb, length, take, length-take_le, true, false, List, [],
  ◌∷◌, Option, none, some, ok, ◌≡◌, refl, arith, All, Bool-cases, inl, inr, ◌⊎◌,
}
use goth_scaffold.Http.{
  Headers, Response, LogStruct, max_log_body_bytes, max_log_request_body_bytes,
  max_log_body_trim_bytes, slice_to, body_up_to, add_values, log_headers, hide_authorization,
  trim_body, trim_bodies, log_response, do_request,
}

-- A header has a value.
abbrev pub HasValue : Text × List Text → Type 0
HasValue (name, []) = ⊥
HasValue (name, v ∷ vs) = Unit

abbrev pub HasValues : Headers → Type 0
HasValues headers = All HasValue headers

-- A part of a body of `size` bytes that is logged, before the sizes are looked at together
record Fits (size : ℕ) (logged : Text) : Type 0 where
  at_most : length logged ≤ size
  limited : length logged ≤ max_log_body_bytes
  enough : ltb max_log_body_trim_bytes size ≡ true → max_log_body_trim_bytes ≤ length logged

slice_to-ok :
    (n : ℕ) (body : Text)
    → n ≤ length body
    → (slice_to n body ≡ ok (take n body)) × (length (take n body) ≡ n)
slice_to-ok n body h =
    let full : leb n (length body) ≡ true = ground arith in (rw full refl, length-take_le n body h)

slice-Fits :
    (n : ℕ) (body : Text)
    → n ≤ max_log_body_bytes
    → max_log_body_trim_bytes ≤ n
    → n ≤ length body
    → Fits (length body) (take n body)
slice-Fits n body h k le =
    let size = length-take_le n body le in
    record {
      at_most = omega (arith, size);
      limited = omega (arith, size);
      enough = λ e. omega (arith, size);
    }

body_up_to-Fits :
    (n : ℕ) (body : Text)
    → n ≤ max_log_body_bytes
    → max_log_body_trim_bytes ≤ n
    → (logged : Text) × (body_up_to n body ≡ ok logged) × Fits (length body) logged
body_up_to-Fits n body h k = elim (Bool-cases (ltb (length body) max_log_body_bytes)) [
  | inl e ↦ (
    body,
    rw e refl,
    record { at_most = omega arith; limited = ground arith; enough = λ f. ground arith },
  )
  | inr e ↦
      let le : n ≤ length body = ground arith in
      (take n body, rw e (slice_to-ok n body le).0, slice-Fits n body h k le)
]

trim_body-ok :
    (size : ℕ) (logged : Text)
    → Fits size logged
    → (body : Text) × (trim_body size logged ≡ ok body) × (length body ≤ max_log_body_trim_bytes)
trim_body-ok size logged fits = elim (Bool-cases (ltb max_log_body_trim_bytes size)) [
  | inl e ↦
      let sliced = slice_to-ok max_log_body_trim_bytes logged (fits.enough e) in
      (take max_log_body_trim_bytes logged, rw e sliced.0, omega (arith, sliced.1))
  | inr e ↦ let at_most = fits.at_most in (logged, rw e refl, ground arith)
]

ltb-false : (m n : ℕ) → ltb m n ≡ false → n ≤ m
ltb-false m n h = ground arith

trim_bodies-ok :
    (l : LogStruct)
    → Fits l.request_log_length l.request_log_body
    → Fits l.response_log_length l.response_log_body
    → (l' : LogStruct) × (trim_bodies l ≡ ok l')
      × (length l'.request_log_body + length l'.response_log_body ≤ max_log_body_bytes)
      × (l'.request_log_headers ≡ l.request_log_headers)
unfolding trim_bodies
trim_bodies-ok l request_fits response_fits =
    let (request_body, e, small) =
      trim_body-ok l.request_log_length l.request_log_body request_fits in
    let (response_body, f, small') =
      trim_body-ok l.response_log_length l.response_log_body response_fits in
    elim (Bool-cases (ltb max_log_body_bytes (l.request_log_length + l.response_log_length))) [
      | inl h ↦ (
        record l { request_log_body = request_body; response_log_body = response_body },
        rw (h, e, f) refl,
        omega arith,
        refl,
      )
      | inr h ↦
          let a = request_fits.at_most in
          let b = response_fits.at_most in
          (
            l,
            rw h refl,
            omega (
              arith,
              a,
              b,
              ltb-false max_log_body_bytes (l.request_log_length + l.response_log_length) h,
            ),
            refl,
          )
    ]

log_headers-ok :
    (shown : Text → Text → Text) (P : Text × Text → Type 0)
    → ((name v : Text) → P (name, shown name v))
    → (headers : Headers) → HasValues headers
    → (logged : List (Text × Text)) × (log_headers shown headers ≡ ok logged) × All P logged
unfolding log_headers
log_headers-ok shown P p [] h = ([], refl, tt)
log_headers-ok shown P p ((name, []) ∷ rest) (h, hs) = absurd h
log_headers-ok shown P p ((name, v ∷ vs) ∷ rest) (h, hs) =
    let (logged, e, all_p) = log_headers-ok shown P p rest hs in
    ((name, shown name (add_values v vs)) ∷ logged, rw e refl, (p name (add_values v vs), all_p))

-- The value of the header is a digest, or the header is another.
abbrev pub Hidden : (Text → Text) → Text × Text → Type 0
unfolding text_eq
Hidden digest (name, logged) =
    (text_eq name (codes "Authorization") ≡ false) ⊎ ((v : Text) × (logged ≡ digest v))

hide_authorization-Hidden :
    (digest : Text → Text) (name v : Text) → Hidden digest (name, hide_authorization digest name v)
unfolding Hidden hide_authorization
hide_authorization-Hidden digest name v = elim (Bool-cases (text_eq name (codes "Authorization"))) [
  | inl e ↦ inr (v, rw e refl)
  | inr e ↦ inl e
]

abbrev pub ResponseHasValues : Option Response → Type 0
ResponseHasValues none = Unit
ResponseHasValues (some r) = HasValues r.response_header

log_response-ok :
    (response : Option Response) (l : LogStruct)
    → ResponseHasValues response
    → Fits l.response_log_length l.response_log_body
    → (l' : LogStruct) × (log_response true response l ≡ ok l')
      × Fits l'.response_log_length l'.response_log_body
      × (l'.request_log_length ≡ l.request_log_length)
      × (l'.request_log_body ≡ l.request_log_body)
      × (l'.request_log_headers ≡ l.request_log_headers)
unfolding log_response
log_response-ok none l h fits = (l, refl, fits, refl, refl, refl)
log_response-ok (some r) l h fits =
    let (headers, e, every) =
      log_headers-ok (λ name v. v) (λ x. Unit) (λ name v. tt) r.response_header h in
    let (body, f, fits') =
      body_up_to-Fits max_log_body_bytes r.response_body (omega arith) (omega arith) in
    (
      record l {
        status_logged = r.status_code;
        response_log_headers = headers;
        response_log_length = length r.response_body;
        response_log_body = body;
      },
      rw (e, f) refl,
      fits',
      refl,
      refl,
      refl,
    )

-- For a request that is logged, where every header has a value, the record is made without a
-- slice or an index out of range, its two bodies together have at most 204800 bytes, and no
-- Authorization header is in it but by its digest.
pub do_request-bounds :
    (digest : Text → Text) (headers : Headers) (body : Text) (response : Option Response)
    → HasValues headers
    → ResponseHasValues response
    → (l : LogStruct) × (do_request digest true headers body response ≡ ok l)
      × (length l.request_log_body + length l.response_log_body ≤ max_log_body_bytes)
      × All (Hidden digest) l.request_log_headers
unfolding do_request hide_authorization Hidden
do_request-bounds digest headers body response h k =
    let (request_body, e, fits) =
      body_up_to-Fits max_log_request_body_bytes body (omega arith) (omega arith) in
    let (logged, f, hidden) =
      log_headers-ok (hide_authorization digest) (Hidden digest) (hide_authorization-Hidden digest)
        headers h in
    let l0 : LogStruct = record {
      request_log_length = length body;
      request_log_body = request_body;
      request_log_headers = logged;
      status_logged = 0;
      response_log_length = 0;
      response_log_body = [];
      response_log_headers = [];
    } in
    let (l1, g, fits', size, same, heads) =
      log_response-ok response l0 k
        (record { at_most = omega arith; limited = omega arith; enough = λ t. ground arith }) in
    let (l2, trimmed, bound, heads') = trim_bodies-ok l1 (rw (size, same) fits) fits' in
    (l2, rw (e, f, g) trimmed, bound, rw (heads', heads) hidden)
