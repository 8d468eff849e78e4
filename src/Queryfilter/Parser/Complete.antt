-- ===== src/Queryfilter/Parser/Complete.antt =====
-- parser.go: the parser on the tokens of a derivation.
use goth_scaffold.Prelude.{
  ℕ, zero, suc, ◌≡◌, ◌↔◌, refl, sym, subst, ap, ◌∙◌, Text, Bool, true, false, List, [], ◌∷◌, Result,
  ok, err, ◌>>=◌, some, arith, Bool-cases, inl, inr, is_empty, drop, drop_while, trim_right, all,
}
use goth_scaffold.Queryfilter.Syntax.{Op, Node, comparison}
use goth_scaffold.Queryfilter.Unicode.{Unicode, trim_space, is_space}
use goth_scaffold.Queryfilter.Lexer.{
  Tok, TokType, tok_eof, plain, new_lexer, next, span_length, skip_ws,
}
use goth_scaffold.Queryfilter.Parser.{
  Parser, ParseError, out_of_fuel, new_parser, is_comma, is_semi, is_lparen, is_rparen, is_field,
  is_operand, peek, consume, tok_to_op, parse_comparison, close_paren, parse_or, or_loop, parse_and,
  and_loop, parse_primary, finish, fuel_for, parse_filter,
}
use goth_scaffold.Queryfilter.Parser.Grammar.{
  Or, terms, OrTail, no_terms, comma, And, factors, AndTail, no_factors, semi, Primary, parens,
  compares, Lexes, done, more, IsFilter,
}
use goth_scaffold.Queryfilter.Parser.Tokens.{
  At, fresh, At-peek, At-consume, current-peek, is_eof-peek, lex_err-At,
}
use goth_scaffold.Queryfilter.Parser.Sound.{parse_filter-IsFilter, parse_or-peeked}
use goth_scaffold.Queryfilter.Parser.Total.{size, Returns, IsGenuine, parse_or-Returns}

-- The call returns `n` and leaves `rest`, or runs out of its fuel.
abbrev Meets : (u : Unicode) → List Tok → Node → Result ParseError (Node × Parser) → Type 0
Meets u rest n (ok (m, q)) = (m ≡ n) × At u q rest
Meets u rest n (err e) = e ≡ out_of_fuel

Meets-bind :
    (u : Unicode) (mid rest : List Tok) (l n : Node) (m : Result ParseError (Node × Parser))
    (f : Node × Parser → Result ParseError (Node × Parser))
    → Meets u mid l m
    → ((q : Parser) → At u q mid → Meets u rest n (f (l, q)))
    → Meets u rest n (m >>= f)
Meets-bind u mid rest l n (ok (k, q)) f h g =
    subst (λ x. Meets u rest n (f (x, q))) (sym h.0) (g q h.1)
Meets-bind u mid rest l n (err e) f h g = h

-- No more of the repetition can follow: the next token is no comma, or no semicolon.
abbrev Stops : (Tok → Bool) → List Tok → Type 0
Stops test [] = Unit
Stops test (t ∷ ts) = test t ≡ false

abbrev commas : Tok → Bool
commas t = is_comma t.typ

abbrev semis : Tok → Bool
semis t = is_semi t.typ

is_comma-is_semi : (t : TokType) → is_comma t ≡ true → is_semi t ≡ false
is_comma-is_semi t h = ground arith

is_rparen-is_comma : (t : TokType) → is_rparen t ≡ true → is_comma t ≡ false
is_rparen-is_comma t h = ground arith

is_rparen-is_semi : (t : TokType) → is_rparen t ≡ true → is_semi t ≡ false
is_rparen-is_semi t h = ground arith

is_field-is_lparen : (t : TokType) → is_field t ≡ true → is_lparen t ≡ false
is_field-is_lparen t h = ground arith

blank-all :
    (q : Text)
    → is_empty (trim_right is_space (drop_while is_space q)) ≡ true
    → all is_space q ≡ true
unfolding trim_right drop_while
blank-all [] b = refl
blank-all (c ∷ q) b = ground (arith, blank-all q)

skip_all : (q : Text) → all is_space q ≡ true → drop (span_length is_space q) q ≡ []
unfolding span_length
skip_all [] b = refl
skip_all (c ∷ q) b = ground (arith, skip_all q)

-- Before blank text the lexer is at the end of its input.
next-blank :
    (u : Unicode) (q : Text)
    → is_empty (trim_space q) ≡ true
    → next u (new_lexer q) ≡ (ok (plain tok_eof), skip_ws (new_lexer q))
unfolding next trim_space
next-blank u q b = rw (skip_all q (blank-all q b))

module _ (u : Unicode) where
  Stops-is_comma :
      (ts : List Tok) (p : Parser)
      → At u p ts
      → Stops commas ts
      → is_comma (peek u p).current.typ ≡ false
  Stops-is_comma [] p a s = let e = is_eof-peek u p a in ground arith
  Stops-is_comma (t ∷ ts) p a s = rw (current-peek u p a) s

  Stops-is_semi :
      (ts : List Tok) (p : Parser)
      → At u p ts
      → Stops semis ts
      → is_semi (peek u p).current.typ ≡ false
  Stops-is_semi [] p a s = let e = is_eof-peek u p a in ground arith
  Stops-is_semi (t ∷ ts) p a s = rw (current-peek u p a) s

  OrTail-Stops :
      {l n : Node} {ts rest : List Tok} → OrTail u l ts rest n → Stops semis rest → Stops semis ts
  OrTail-Stops no_terms s = s
  OrTail-Stops (comma {t} h a r) s = is_comma-is_semi t.typ h

  close_paren-Meets :
      (n : Node) (c : Tok) (p : Parser) (rest : List Tok)
      → is_rparen c.typ ≡ true
      → At u p (c ∷ rest)
      → Meets u rest n (close_paren u n p)
  unfolding close_paren
  close_paren-Meets n c p rest h a = rw (current-peek u p a) (rw h (refl, At-consume u p a))

  parse_comparison-Meets :
      (f o v : Tok) (op : Op) (p : Parser) (rest : List Tok)
      → is_field f.typ ≡ true
      → tok_to_op u o ≡ ok op
      → is_operand v.typ ≡ true
      → At u p (f ∷ o ∷ v ∷ rest)
      → Meets u rest (comparison f.val op v.val) (parse_comparison u p)
  unfolding parse_comparison
  parse_comparison-Meets f o v op p rest hf ho hv a =
      let a1 = At-consume u p a in
      let a2 = At-consume u (consume u p) a1 in
      let a3 = At-consume u (consume u (consume u p)) a2 in
      rw
        (
          current-peek u p a,
          current-peek u (consume u p) a1,
          current-peek u (consume u (consume u p)) a2,
        )
        (rw (hf, ho) (rw hv (refl, a3)))

  mutual
    unfolding parse_or

    Or-Meets :
        {ts rest : List Tok} {n : Node} (f : ℕ) (p : Parser)
        → Or u ts rest n
        → At u p ts
        → Stops commas rest
        → Stops semis rest
        → Meets u rest n (parse_or u f p)
    Or-Meets zero p (terms d t) a sc ss = refl
    Or-Meets {rest} {n} (suc f) p (terms {mid} {l} d t) a sc ss =
        Meets-bind u mid rest l n (parse_and u f p) _ (And-Meets f p d a (OrTail-Stops t ss))
          λ q aq. OrTail-Meets f q t aq sc ss

    OrTail-Meets :
        {l n : Node} {ts rest : List Tok} (f : ℕ) (p : Parser)
        → OrTail u l ts rest n
        → At u p ts
        → Stops commas rest
        → Stops semis rest
        → Meets u rest n (or_loop u f l p)
    OrTail-Meets zero p no_terms a sc ss = refl
    OrTail-Meets {ts} (suc f) p no_terms a sc ss =
        rw (Stops-is_comma ts p a sc, or_loop) (refl, At-peek u p a)
    OrTail-Meets zero p (comma h d t) a sc ss = refl
    OrTail-Meets {l} {n} {rest} (suc f) p (comma {mid} {r} h d t) a sc ss =
        rw (current-peek u p a, or_loop)
          (rw h (
            Meets-bind u mid rest r n (parse_and u f (consume u p)) _
              (And-Meets f (consume u p) d (At-consume u p a) (OrTail-Stops t ss))
              λ q aq. OrTail-Meets f q t aq sc ss))

    And-Meets :
        {ts rest : List Tok} {n : Node} (f : ℕ) (p : Parser)
        → And u ts rest n
        → At u p ts
        → Stops semis rest
        → Meets u rest n (parse_and u f p)
    And-Meets zero p (factors d t) a ss = refl
    And-Meets {rest} {n} (suc f) p (factors {mid} {l} d t) a ss =
        Meets-bind u mid rest l n (parse_primary u f p) _ (Primary-Meets f p d a)
          λ q aq. AndTail-Meets f q t aq ss

    AndTail-Meets :
        {l n : Node} {ts rest : List Tok} (f : ℕ) (p : Parser)
        → AndTail u l ts rest n
        → At u p ts
        → Stops semis rest
        → Meets u rest n (and_loop u f l p)
    AndTail-Meets zero p no_factors a ss = refl
    AndTail-Meets {ts} (suc f) p no_factors a ss =
        rw (Stops-is_semi ts p a ss, and_loop) (refl, At-peek u p a)
    AndTail-Meets zero p (semi h d t) a ss = refl
    AndTail-Meets {l} {n} {rest} (suc f) p (semi {mid} {r} h d t) a ss =
        rw (current-peek u p a, and_loop)
          (rw h (
            Meets-bind u mid rest r n (parse_primary u f (consume u p)) _
              (Primary-Meets f (consume u p) d (At-consume u p a))
              λ q aq. AndTail-Meets f q t aq ss))

    Primary-Meets :
        {ts rest : List Tok} {n : Node} (f : ℕ) (p : Parser)
        → Primary u ts rest n
        → At u p ts
        → Meets u rest n (parse_primary u f p)
    Primary-Meets zero p (parens h d c) a = refl
    Primary-Meets zero p (compares hf ho hv) a = refl
    Primary-Meets {rest} {n} (suc f) p (parens {c} h d close) a =
        rw (current-peek u p a, parse_primary)
          (rw h (
            Meets-bind u (c ∷ rest) rest n n (parse_or u f (consume u p)) _
              (Or-Meets f (consume u p) d (At-consume u p a) (is_rparen-is_comma c.typ close)
                (is_rparen-is_semi c.typ close))
              λ q aq. close_paren-Meets n c q rest close aq))
    Primary-Meets {rest} (suc f) p (compares {f = g} {o} {v} {op} hf ho hv) a =
        rw (current-peek u p a, parse_primary)
          (rw (is_field-is_lparen g.typ hf)
            (parse_comparison-Meets g o v op (peek u p) rest hf ho hv (At-peek u p a)))

  no_Primary : {rest : List Tok} {n : Node} → Primary u [] rest n → ⊥
  no_Primary d = elim d [ ]

  no_Or : {rest : List Tok} {n : Node} → Or u [] rest n → ⊥
  no_Or (terms (factors d s) t) = no_Primary d

  Lexes-blank :
      (q : Text) {ts : List Tok}
      → is_empty (trim_space q) ≡ true
      → Lexes u (new_lexer q) ts
      → ts ≡ []
  Lexes-blank q b (done s e) = refl
  Lexes-blank q b (more s ne r) = cc (next-blank u q b, s)

  finish-some : (n : Node) (q : Parser) → q.peeked ≡ true → At u q [] → finish u n q ≡ ok (some n)
  unfolding finish
  finish-some n q h a = rw (lex_err-At u q h a, finish) (rw (is_eof-peek u q a))

  finish-Meets :
      (n : Node) (f : ℕ) (p : Parser) (r : Result ParseError (Node × Parser)) (k : ℕ)
      → parse_or u f p ≡ r
      → Meets u [] n r
      → Returns k r
      → (r >>= λ (m, q). finish u m q) ≡ ok (some n)
  finish-Meets n f p (ok (m, q)) k e (same, a) w =
      finish-some m q (parse_or-peeked u f p q e) a ∙ ap (λ x. ok (some x)) same
  finish-Meets n f p (err e) k s spent w = absurd (subst IsGenuine spent w)

  IsFilter-parse_filter : (q : Text) (n : Node) → IsFilter u q n → parse_filter u q ≡ ok (some n)
  unfolding parse_filter
  IsFilter-parse_filter q n h = elim (Bool-cases (is_empty (trim_space q))) [
    | inl b ↦ absurd (no_Or (subst (λ ts. Or u ts [] n) (Lexes-blank q b h.lexed) h.derivation))
    | inr b ↦ rw b (
        finish-Meets n (fuel_for q) (new_parser q) (parse_or u (fuel_for q) (new_parser q))
          (size (new_parser q)) refl
          (Or-Meets (fuel_for q) (new_parser q) h.derivation (fresh refl h.lexed) tt tt)
          (parse_or-Returns u (fuel_for q) (new_parser q) (omega arith)))
  ]

  -- The parser returns the tree `n` exactly if the text is lexed without an error, to its end, into
  -- tokens from which the grammar derives `n`: OR below AND, both grouped to the left.
  pub parse_filter_iff : (q : Text) (n : Node) → (parse_filter u q ≡ ok (some n)) ↔ IsFilter u q n
  parse_filter_iff q n = (parse_filter-IsFilter u q n, IsFilter-parse_filter q n)
