-- ===== src/Queryfilter/Parser/Sound.antt =====
-- parser.go: the derivation behind a result of the parser.
use goth_scaffold.Prelude.{
  zero, suc, ◌≡◌, refl, subst, ℕ, Text, Bool, true, false, not, List, [], ◌∷◌, Result, ok, err,
  ◌>>=◌, some, arith, Bool-cases, bind-eq-ok, inl, inr, if◌then◌else◌, is_empty,
}
use goth_scaffold.Queryfilter.Syntax.{Op, Node, comparison, logical, logical_or, logical_and}
use goth_scaffold.Queryfilter.Unicode.{Unicode, trim_space}
use goth_scaffold.Queryfilter.Lexer.{Tok, TokType, new_lexer}
use goth_scaffold.Queryfilter.Parser.{
  Parser, ParseError, new_parser, is_eof, is_comma, is_semi, is_lparen, is_rparen, is_field,
  is_operand, peek, consume, tok_to_op, tok_to_op_at, parse_comparison, close_paren, parse_or,
  or_loop, parse_and, and_loop, parse_primary, finish, fuel_for, parse_filter,
}
use goth_scaffold.Queryfilter.Parser.Grammar.{
  Or, terms, OrTail, no_terms, comma, And, factors, AndTail, no_factors, semi, Primary, parens,
  compares, Lexes, IsFilter,
}
use goth_scaffold.Queryfilter.Parser.Tokens.{
  At, fresh, held, ended, peek-At, consume-At, peek_held, peeked-peek,
}

-- A derivation by `G` from the tokens before `p`, down to `rest`.
abbrev Reads :
    (u : Unicode) → (List Tok → List Tok → Node → Type 0) → Parser → List Tok → Node → Type 0
Reads u G p rest n = (ts : List Tok) × At u p ts × G ts rest n

is_comma-is_eof : (t : TokType) → is_comma t ≡ true → is_eof t ≡ false
is_comma-is_eof t h = ground arith

is_semi-is_eof : (t : TokType) → is_semi t ≡ true → is_eof t ≡ false
is_semi-is_eof t h = ground arith

is_lparen-is_eof : (t : TokType) → is_lparen t ≡ true → is_eof t ≡ false
is_lparen-is_eof t h = ground arith

is_rparen-is_eof : (t : TokType) → is_rparen t ≡ true → is_eof t ≡ false
is_rparen-is_eof t h = ground arith

is_field-is_eof : (t : TokType) → is_field t ≡ true → is_eof t ≡ false
is_field-is_eof t h = ground arith

is_operand-is_eof : (t : TokType) → is_operand t ≡ true → is_eof t ≡ false
is_operand-is_eof t h = ground arith

ok_pair :
    {m n : Node} {p q : Parser}
    → ◌≡◌ {A = Result ParseError (Node × Parser)} (ok (m, p)) (ok (n, q))
    → (m ≡ n) × (p ≡ q)
ok_pair e = (ground arith, ground arith)

comparison_cases :
    (word : Bool) (r : Result ParseError Op) (operand : Bool) (no_field no_value : ParseError)
    (node : Op → Node) (p : Parser) {n : Node} {q : Parser}
    → ◌≡◌ {A = Result ParseError (Node × Parser)}
        (if not word
          then err no_field
          else (r >>= λ op. if operand then ok (node op, p) else err no_value))
        (ok (n, q))
    → (op : Op) × (word ≡ true) × (r ≡ ok op) × (operand ≡ true) × (node op ≡ n) × (p ≡ q)
comparison_cases true (ok op) true x y node p e =
    let r = ok_pair e in (op, refl, refl, refl, r.0, r.1)
comparison_cases true (ok op) false x y node p e = cc
comparison_cases true (err z) operand x y node p e = cc
comparison_cases false r operand x y node p e = cc

module _ (u : Unicode) where
  At-new : (q : Text) {ts : List Tok} → At u (new_parser q) ts → Lexes u (new_lexer q) ts
  At-new q (fresh e r) = r
  At-new q (held e c ne r) = cc
  At-new q (ended e n eof) = cc

  operator-is_eof :
      (t : TokType) (v : Text) {op : Op} → tok_to_op_at u t v ≡ ok op → is_eof t ≡ false
  unfolding tok_to_op_at
  operator-is_eof t v h = ground arith

  parse_comparison_inv :
      (p q : Parser) {n : Node}
      → parse_comparison u p ≡ ok (n, q)
      → (op : Op) × (is_field (peek u p).current.typ ≡ true)
        × (tok_to_op u (peek u (consume u p)).current ≡ ok op)
        × (is_operand (peek u (consume u (consume u p))).current.typ ≡ true)
        × (comparison (peek u p).current.val op (peek u (consume u (consume u p))).current.val ≡ n)
        × (consume u (consume u (consume u p)) ≡ q)
  unfolding parse_comparison
  parse_comparison_inv p q e =
      comparison_cases (is_field (peek u p).current.typ)
        (tok_to_op u (peek u (consume u p)).current)
        (is_operand (peek u (consume u (consume u p))).current.typ) _ _ _ _ e

  parse_comparison-Reads :
      (p q : Parser) {n : Node} {rest : List Tok}
      → parse_comparison u p ≡ ok (n, q)
      → At u q rest
      → Reads u (Primary u) p rest n
  parse_comparison-Reads p q {n} {rest} e a =
      let p1 = consume u p in
      let p2 = consume u p1 in
      let f = (peek u p).current in
      let o = (peek u p1).current in
      let v = (peek u p2).current in
      let (op, word, oper, val, same, last) = parse_comparison_inv p q e in
      let a2 = consume-At u p2 (is_operand-is_eof v.typ val) (rw last a) in
      let a1 = consume-At u p1 (operator-is_eof o.typ o.val oper) a2 in
      let a0 = consume-At u p (is_field-is_eof f.typ word) a1 in
      (f ∷ o ∷ v ∷ rest, a0, rw (← same) (compares word oper val))

  close_paren-Reads :
      (m : Node) (p q : Parser) {n : Node} {rest : List Tok}
      → close_paren u m p ≡ ok (n, q)
      → At u q rest
      → (c : Tok) × At u p (c ∷ rest) × (is_rparen c.typ ≡ true) × (m ≡ n)
  unfolding close_paren
  close_paren-Reads m p q {n} {rest} e a = elim (Bool-cases (is_rparen (peek u p).current.typ)) [
    | inl h ↦
        let r = ok_pair (rw h at e) in
        (
          (peek u p).current,
          consume-At u p (is_rparen-is_eof (peek u p).current.typ h) (rw r.1 a),
          h,
          r.0,
        )
    | inr h ↦ cc (rw h at e)
  ]

  mutual
    unfolding parse_or

    parse_or-Reads :
        (f : ℕ) (p q : Parser) {n : Node} {rest : List Tok}
        → parse_or u f p ≡ ok (n, q)
        → At u q rest
        → Reads u (Or u) p rest n
    parse_or-Reads zero p q e a = cc
    parse_or-Reads (suc f) p q e a =
        let (left, first, later) = bind-eq-ok (parse_and u f p) (λ (l, p1). or_loop u f l p1) e in
        let (mid, a1, tail) = or_loop-Reads f left.0 left.1 q later a in
        let (ts, a0, head) = parse_and-Reads f p left.1 first a1 in (ts, a0, terms head tail)

    or_loop-Reads :
        (f : ℕ) (l : Node) (p q : Parser) {n : Node} {rest : List Tok}
        → or_loop u f l p ≡ ok (n, q)
        → At u q rest
        → Reads u (OrTail u l) p rest n
    or_loop-Reads zero l p q e a = cc
    or_loop-Reads (suc f) l p q {n} {rest} e a =
        elim (Bool-cases (is_comma (peek u p).current.typ)) [
          | inl h ↦
              let (right, first, later) =
                bind-eq-ok (parse_and u f (consume u p))
                  (λ (r, p2). or_loop u f (logical logical_or l r) p2) (rw (h, or_loop) at e) in
              let (mid, a1, tail) =
                or_loop-Reads f (logical logical_or l right.0) right.1 q later a in
              let (ts, a0, head) = parse_and-Reads f (consume u p) right.1 first a1 in
              (
                (peek u p).current ∷ ts,
                consume-At u p (is_comma-is_eof (peek u p).current.typ h) a0,
                comma h head tail,
              )
          | inr h ↦
              let r = ok_pair (rw (h, or_loop) at e) in
              (rest, peek-At u p (rw r.1 a), rw (← r.0) no_terms)
        ]

    parse_and-Reads :
        (f : ℕ) (p q : Parser) {n : Node} {rest : List Tok}
        → parse_and u f p ≡ ok (n, q)
        → At u q rest
        → Reads u (And u) p rest n
    parse_and-Reads zero p q e a = cc
    parse_and-Reads (suc f) p q e a =
        let (left, first, later) =
          bind-eq-ok (parse_primary u f p) (λ (l, p1). and_loop u f l p1) e in
        let (mid, a1, tail) = and_loop-Reads f left.0 left.1 q later a in
        let (ts, a0, head) = parse_primary-Reads f p left.1 first a1 in (ts, a0, factors head tail)

    and_loop-Reads :
        (f : ℕ) (l : Node) (p q : Parser) {n : Node} {rest : List Tok}
        → and_loop u f l p ≡ ok (n, q)
        → At u q rest
        → Reads u (AndTail u l) p rest n
    and_loop-Reads zero l p q e a = cc
    and_loop-Reads (suc f) l p q {n} {rest} e a =
        elim (Bool-cases (is_semi (peek u p).current.typ)) [
          | inl h ↦
              let (right, first, later) =
                bind-eq-ok (parse_primary u f (consume u p))
                  (λ (r, p2). and_loop u f (logical logical_and l r) p2) (rw (h, and_loop) at e) in
              let (mid, a1, tail) =
                and_loop-Reads f (logical logical_and l right.0) right.1 q later a in
              let (ts, a0, head) = parse_primary-Reads f (consume u p) right.1 first a1 in
              (
                (peek u p).current ∷ ts,
                consume-At u p (is_semi-is_eof (peek u p).current.typ h) a0,
                semi h head tail,
              )
          | inr h ↦
              let r = ok_pair (rw (h, and_loop) at e) in
              (rest, peek-At u p (rw r.1 a), rw (← r.0) no_factors)
        ]

    parse_primary-Reads :
        (f : ℕ) (p q : Parser) {n : Node} {rest : List Tok}
        → parse_primary u f p ≡ ok (n, q)
        → At u q rest
        → Reads u (Primary u) p rest n
    parse_primary-Reads zero p q e a = cc
    parse_primary-Reads (suc f) p q {n} {rest} e a =
        elim (Bool-cases (is_lparen (peek u p).current.typ)) [
          | inl h ↦
              let (inner, first, later) =
                bind-eq-ok (parse_or u f (consume u p)) (λ (m, p1). close_paren u m p1)
                  (rw (h, parse_primary) at e) in
              let (c, a1, closed, same) = close_paren-Reads inner.0 inner.1 q later a in
              let (ts, a0, d) = parse_or-Reads f (consume u p) inner.1 first a1 in
              (
                (peek u p).current ∷ ts,
                consume-At u p (is_lparen-is_eof (peek u p).current.typ h) a0,
                subst (λ x. Primary u ((peek u p).current ∷ ts) rest x) same (parens h d closed),
              )
          | inr h ↦
              let (ts, a0, d) =
                parse_comparison-Reads (peek u p) q (rw (h, parse_primary) at e) a in
              (ts, peek-At u p a0, d)
        ]

  or_loop-peeked :
      (f : ℕ) (l : Node) (p q : Parser) {n : Node} → or_loop u f l p ≡ ok (n, q) → q.peeked ≡ true
  unfolding parse_or
  or_loop-peeked zero l p q e = cc
  or_loop-peeked (suc f) l p q e = elim (Bool-cases (is_comma (peek u p).current.typ)) [
    | inl h ↦
        let (right, first, later) =
          bind-eq-ok (parse_and u f (consume u p))
            (λ (r, p2). or_loop u f (logical logical_or l r) p2) (rw (h, or_loop) at e) in
        or_loop-peeked f (logical logical_or l right.0) right.1 q later
    | inr h ↦ rw (← (ok_pair (rw (h, or_loop) at e)).1) (peeked-peek u p)
  ]

  pub parse_or-peeked :
      (f : ℕ) (p q : Parser) {n : Node} → parse_or u f p ≡ ok (n, q) → q.peeked ≡ true
  unfolding parse_or
  parse_or-peeked zero p q e = cc
  parse_or-peeked (suc f) p q e =
      let (left, first, later) = bind-eq-ok (parse_and u f p) (λ (l, p1). or_loop u f l p1) e in
      or_loop-peeked f left.0 left.1 q later

  finish-At :
      (n : Node) (p : Parser) {m : Node}
      → p.peeked ≡ true
      → finish u n p ≡ ok (some m)
      → (n ≡ m) × At u p []
  unfolding finish
  finish-At n p h e = (ground arith, ended h (ground arith) (ground (arith, peek_held u p h)))

  -- A text that the parser accepts with the tree `n` is a filter that stands for `n`.
  pub parse_filter-IsFilter :
      (q : Text) (n : Node) → parse_filter u q ≡ ok (some n) → IsFilter u q n
  unfolding parse_filter
  parse_filter-IsFilter q n e = elim (Bool-cases (is_empty (trim_space q))) [
    | inl blank ↦ cc (rw blank at e)
    | inr more ↦
        let (m, first, later) =
          bind-eq-ok (parse_or u (fuel_for q) (new_parser q)) (λ (l, p). finish u l p)
            (rw more at e) in
        let (same, a1) =
          finish-At m.0 m.1 (parse_or-peeked (fuel_for q) (new_parser q) m.1 first) later in
        let (ts, a0, d) = parse_or-Reads (fuel_for q) (new_parser q) m.1 first a1 in
        record { tokens = ts; lexed = At-new q a0; derivation = subst (λ x. Or u ts [] x) same d }
  ]
