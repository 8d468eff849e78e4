-- ===== src/Queryfilter/Parser/Tokens.antt =====
-- The tokens that a parser has before it, through its look-ahead.
use goth_scaffold.Prelude.{
  ◌≡◌, refl, ap, ap₂, ◌∙◌, true, false, List, [], ◌∷◌, ok, err, none, arith, Bool-cases, inl, inr,
  if◌then◌else◌,
}
use goth_scaffold.Queryfilter.Unicode.{Unicode}
use goth_scaffold.Queryfilter.Lexer.{Tok, Step, next}
use goth_scaffold.Queryfilter.Parser.{Parser, settle, is_eof, peek, consume}
use goth_scaffold.Queryfilter.Parser.Grammar.{Lexes, done, more}

-- The parser `p` is about to read `ts`, and then the end of input.
pub data At (u : Unicode) (p : Parser) : List Tok → Type 0 where
  fresh : {ts : List Tok} → p.peeked ≡ false → Lexes u p.lex ts → At u p ts
  held :
      {t : Tok} {ts : List Tok}
      → p.peeked ≡ true
      → p.current ≡ t
      → is_eof t.typ ≡ false
      → Lexes u p.lex ts
      → At u p (t ∷ ts)
  ended : p.peeked ≡ true → p.lex_err ≡ none → is_eof p.current.typ ≡ true → At u p []

peeked_settle : (p : Parser) (r : Step) → (settle p r).peeked ≡ true
peeked_settle p (ok t, l) = refl
peeked_settle p (err e, l) = refl

module _ (u : Unicode) where
  pub peek_held : (p : Parser) → p.peeked ≡ true → peek u p ≡ p
  unfolding peek
  peek_held p e = ap (λ b. if b then p else settle p (next u p.lex)) e

  peek_fresh : (p : Parser) {s : Step} → p.peeked ≡ false → next u p.lex ≡ s → peek u p ≡ settle p s
  unfolding peek
  peek_fresh p e h = ap₂ (λ b r. if b then p else settle p r) e h

  -- Forward: what `peek` and `consume` do before a token, and before the end.
  pub current-peek :
      {t : Tok} {ts : List Tok} (p : Parser) → At u p (t ∷ ts) → (peek u p).current ≡ t
  current-peek p (fresh e (more s ne r)) = rw (peek_fresh p e s)
  current-peek p (held e c ne r) = rw (peek_held p e) c

  pub At-peek : {ts : List Tok} (p : Parser) → At u p ts → At u (peek u p) ts
  At-peek p (fresh e (more s ne r)) = rw (peek_fresh p e s) (held refl refl ne r)
  At-peek p (fresh e (done s eof)) = rw (peek_fresh p e s) (ended refl refl eof)
  At-peek p (held e c ne r) = rw (peek_held p e) (held e c ne r)
  At-peek p (ended e n eof) = rw (peek_held p e) (ended e n eof)

  pub At-consume : {t : Tok} {ts : List Tok} (p : Parser) → At u p (t ∷ ts) → At u (consume u p) ts
  unfolding consume
  At-consume p (fresh e (more s ne r)) = fresh refl (rw (peek_fresh p e s) r)
  At-consume p (held e c ne r) = fresh refl (rw (peek_held p e) r)

  pub is_eof-peek : (p : Parser) → At u p [] → is_eof (peek u p).current.typ ≡ true
  is_eof-peek p (fresh e (done s eof)) = rw (peek_fresh p e s) eof
  is_eof-peek p (ended e n eof) = rw (peek_held p e) eof

  pub lex_err-At : (p : Parser) → p.peeked ≡ true → At u p [] → p.lex_err ≡ none
  lex_err-At p h (fresh e l) = cc
  lex_err-At p h (ended e n eof) = n

  -- Backward: the tokens before `p` from those before `peek u p` and `consume u p`.
  settle-At :
      {ts : List Tok} (p : Parser) (r : Step)
      → next u p.lex ≡ r
      → At u (settle p r) ts
      → Lexes u p.lex ts
  settle-At p (ok t, l) s (fresh e r) = cc
  settle-At p (ok t, l) s (held e c ne r) = more (s ∙ ap (λ x. (ok x, l)) c) ne r
  settle-At p (ok t, l) s (ended e n eof) = done s eof
  settle-At p (err x, l) s (fresh e r) = cc
  settle-At p (err x, l) s (held e c ne r) = ground (arith)
  settle-At p (err x, l) s (ended e n eof) = cc

  pub peek-At : {ts : List Tok} (p : Parser) → At u (peek u p) ts → At u p ts
  peek-At p a = elim (Bool-cases p.peeked) [
    | inl e ↦ rw (peek_held p e) at a
    | inr e ↦ fresh e (settle-At p (next u p.lex) refl (rw (peek_fresh p e refl) at a))
  ]

  consume-held : {ts : List Tok} (p : Parser) → At u (consume u p) ts → Lexes u (peek u p).lex ts
  unfolding consume
  consume-held p (fresh e r) = r
  consume-held p (held e c ne r) = cc
  consume-held p (ended e n eof) = cc

  pub peeked-peek : (p : Parser) → (peek u p).peeked ≡ true
  peeked-peek p = elim (Bool-cases p.peeked) [
    | inl e ↦ rw (peek_held p e) e
    | inr e ↦ rw (peek_fresh p e refl) (peeked_settle p (next u p.lex))
  ]

  pub consume-At :
      {ts : List Tok} (p : Parser)
      → is_eof (peek u p).current.typ ≡ false
      → At u (consume u p) ts
      → At u p ((peek u p).current ∷ ts)
  consume-At p ne a = peek-At p (held (peeked-peek p) refl ne (consume-held p a))
