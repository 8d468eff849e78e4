-- ===== src/Queryfilter/Parser/Total.antt =====
-- parser.go: the fuel of `parse_filter` against the runes that are left.
use goth_scaffold.Prelude.{
  ℕ, zero, suc, ◌+◌, ◌*◌, ◌≤◌, ◌<◌, ◌≡◌, ◌≢◌, inl, inr, refl, Text, true, false, not, ◌&&◌, length,
  Result, ok, err, ◌>>=◌, map, arith, Bool-cases, if_rule, if◌then◌else◌, is_empty,
}
use goth_scaffold.Queryfilter.Syntax.{Node, Op, logical, logical_or, logical_and}
use goth_scaffold.Queryfilter.Unicode.{Unicode, trim_space}
use goth_scaffold.Queryfilter.Lexer.{TokType, tok_eof, Step, next}
use goth_scaffold.Queryfilter.Lexer.Progress.{Within, next-Within}
use goth_scaffold.Queryfilter.Parser.{
  Parser, ParseError, out_of_fuel, new_parser, settle, is_eof, is_comma, is_semi, is_lparen,
  is_field, is_operand, peek, consume, tok_to_op, tok_to_op_at, named_op, parse_comparison,
  close_paren, parse_or, or_loop, parse_and, and_loop, parse_primary, finish, fuel_for,
  parse_filter,
}

-- The runes that are left, and one more for a token that was looked at and not consumed.
abbrev pub size : Parser → ℕ
size p = length p.lex.rest + (if p.peeked && not (is_eof p.current.typ) then 1 else 0)

-- An error of the source, not of the model.
abbrev pub IsGenuine : ParseError → Type 0
IsGenuine out_of_fuel = ⊥
IsGenuine _ = Unit

-- The parser returns with fewer than `k` left, or with an error of the source.
abbrev pub Returns : ℕ → Result ParseError (Node × Parser) → Type 0
Returns k (ok (n, p)) = size p < k
Returns k (err e) = IsGenuine e

Returns-mono : (j k : ℕ) (r : Result ParseError (Node × Parser)) → j ≤ k → Returns j r → Returns k r
Returns-mono j k (ok (n, p)) h w = omega arith
Returns-mono j k (err e) h w = w

Returns-bind :
    (j k : ℕ) (m : Result ParseError (Node × Parser))
    (f : Node × Parser → Result ParseError (Node × Parser))
    → Returns j m
    → ((n : Node) (p : Parser) → size p < j → Returns k (f (n, p)))
    → Returns k (m >>= f)
Returns-bind j k (ok (n, p)) f h g = g n p h
Returns-bind j k (err e) f h g = h

Returns-bind_op :
    (k : ℕ) (m : Result ParseError Op) (f : Op → Result ParseError (Node × Parser))
    → ((e : ParseError) → m ≡ err e → IsGenuine e)
    → ((o : Op) → Returns k (f o))
    → Returns k (m >>= f)
Returns-bind_op k (ok o) f h g = g o
Returns-bind_op k (err e) f h g = h e refl

is_eof-ne : (t : TokType) → is_eof t ≡ false → t ≢ tok_eof
is_eof-ne t h e = ground arith

size-settle : (p : Parser) (n : ℕ) (r : Step) → Within n r → size (settle p r) ≤ n
size-settle p n (ok t, l) w = elim (Bool-cases (is_eof t.typ)) [
  | inl e ↦ rw e (omega arith)
  | inr ne ↦ let less = w.1 (is_eof-ne t.typ ne) in rw ne (omega arith)
]
size-settle p n (err e, l) w = omega arith

peeked_settle : (p : Parser) (r : Step) → (settle p r).peeked ≡ true
peeked_settle p (ok t, l) = refl
peeked_settle p (err e, l) = refl

is_field-is_eof : (t : TokType) → not (is_field t) ≡ false → is_eof t ≡ false
is_field-is_eof t h = ground arith

named_op-IsGenuine :
    (shown name : Text) (e : ParseError) → named_op shown name ≡ err e → IsGenuine e
unfolding named_op
named_op-IsGenuine shown name e h = ground arith

module _ (u : Unicode) where
  size-peek : (p : Parser) → size (peek u p) ≤ size p
  unfolding peek
  size-peek p = elim (Bool-cases p.peeked) [
    | inl e ↦ rw e (omega arith)
    | inr e ↦
        rw e (omega (arith, size-settle p (length p.lex.rest) (next u p.lex) (next-Within u p.lex)))
  ]

  peeked-peek : (p : Parser) → (peek u p).peeked ≡ true
  unfolding peek
  peeked-peek p = ground (arith, peeked_settle p (next u p.lex))

  size-consume : (p : Parser) → size (consume u p) ≤ size p
  unfolding consume
  size-consume p = omega (arith, size-peek p)

  size-consume_lt :
      (p : Parser) → is_eof (peek u p).current.typ ≡ false → size (consume u p) < size p
  unfolding consume
  size-consume_lt p h = ground (arith, size-peek p, peeked-peek p)

  tok_to_op-IsGenuine :
      (t : TokType) (v : Text) (e : ParseError) → tok_to_op_at u t v ≡ err e → IsGenuine e
  unfolding tok_to_op_at
  tok_to_op-IsGenuine t v e h = ground (arith, named_op-IsGenuine v (map u.to_lower v) e)

  parse_comparison-Returns : (p : Parser) → Returns (size p) (parse_comparison u p)
  unfolding parse_comparison
  parse_comparison-Returns p =
      let k = size p in
      let p1 = consume u p in
      let p2 = consume u p1 in
      let op_tok = (peek u p1).current in
      if_rule (Returns k) (not (is_field (peek u p).current.typ)) (λ _. tt)
        λ word.
          Returns-bind_op k (tok_to_op u op_tok) _ (tok_to_op-IsGenuine op_tok.typ op_tok.val) λ o.
            if_rule (Returns k) (is_operand (peek u p2).current.typ)
              (λ _. omega (
                arith,
                size-consume_lt p (is_field-is_eof (peek u p).current.typ word),
                size-consume p1,
                size-consume p2,
              ))
              (λ _. tt)

  close_paren-Returns : (n : Node) (p : Parser) (k : ℕ) → size p < k → Returns k (close_paren u n p)
  unfolding close_paren
  close_paren-Returns n p k h = ground (arith, size-consume p)

  -- Fuel four for each rune that is left, and a little more for the calls on the way down.
  mutual
    unfolding parse_or

    pub parse_or-Returns :
        (f : ℕ) (p : Parser) → 4 * size p + 3 ≤ f → Returns (size p) (parse_or u f p)
    parse_or-Returns zero p h = absurd (omega arith)
    parse_or-Returns (suc f) p h =
        Returns-bind (size p) (size p) (parse_and u f p) _ (parse_and-Returns f p (omega arith))
          λ n q less.
            Returns-mono (suc (size q)) (size p) (or_loop u f n q) less
              (or_loop-Returns f n q (omega arith))

    or_loop-Returns :
        (f : ℕ) (n : Node) (p : Parser)
        → 4 * size p + 1 ≤ f
        → Returns (suc (size p)) (or_loop u f n p)
    or_loop-Returns zero n p h = absurd (omega arith)
    or_loop-Returns (suc f) n p h = elim (Bool-cases (is_comma (peek u p).current.typ)) [
      | inl e ↦
          rw (e, or_loop)
            (let less = size-consume_lt p (ground arith) in
              Returns-bind (size (consume u p)) (suc (size p)) (parse_and u f (consume u p)) _
                (parse_and-Returns f (consume u p) (omega arith))
                λ r q shorter.
                  Returns-mono (suc (size q)) (suc (size p))
                    (or_loop u f (logical logical_or n r) q) (omega arith)
                    (or_loop-Returns f (logical logical_or n r) q (omega arith)))
      | inr e ↦ rw (e, or_loop) (omega (arith, size-peek p))
    ]

    parse_and-Returns :
        (f : ℕ) (p : Parser) → 4 * size p + 2 ≤ f → Returns (size p) (parse_and u f p)
    parse_and-Returns zero p h = absurd (omega arith)
    parse_and-Returns (suc f) p h =
        Returns-bind (size p) (size p) (parse_primary u f p) _
          (parse_primary-Returns f p (omega arith))
          λ n q less.
            Returns-mono (suc (size q)) (size p) (and_loop u f n q) less
              (and_loop-Returns f n q (omega arith))

    and_loop-Returns :
        (f : ℕ) (n : Node) (p : Parser)
        → 4 * size p + 1 ≤ f
        → Returns (suc (size p)) (and_loop u f n p)
    and_loop-Returns zero n p h = absurd (omega arith)
    and_loop-Returns (suc f) n p h = elim (Bool-cases (is_semi (peek u p).current.typ)) [
      | inl e ↦
          rw (e, and_loop)
            (let less = size-consume_lt p (ground arith) in
              Returns-bind (size (consume u p)) (suc (size p)) (parse_primary u f (consume u p)) _
                (parse_primary-Returns f (consume u p) (omega arith))
                λ r q shorter.
                  Returns-mono (suc (size q)) (suc (size p))
                    (and_loop u f (logical logical_and n r) q) (omega arith)
                    (and_loop-Returns f (logical logical_and n r) q (omega arith)))
      | inr e ↦ rw (e, and_loop) (omega (arith, size-peek p))
    ]

    parse_primary-Returns :
        (f : ℕ) (p : Parser) → 4 * size p + 1 ≤ f → Returns (size p) (parse_primary u f p)
    parse_primary-Returns zero p h = absurd (omega arith)
    parse_primary-Returns (suc f) p h = elim (Bool-cases (is_lparen (peek u p).current.typ)) [
      | inl e ↦
          rw (e, parse_primary)
            (let less = size-consume_lt p (ground arith) in
              Returns-bind (size (consume u p)) (size p) (parse_or u f (consume u p)) _
                (parse_or-Returns f (consume u p) (omega arith))
                λ n q shorter. close_paren-Returns n q (size p) (omega arith))
      | inr e ↦
          rw (e, parse_primary)
            (Returns-mono (size (peek u p)) (size p) (parse_comparison u (peek u p)) (size-peek p)
              (parse_comparison-Returns (peek u p)))
    ]

  finish-IsGenuine : (n : Node) (p : Parser) → finish u n p ≢ err out_of_fuel
  unfolding finish
  finish-IsGenuine n p h = ground arith

  bind-ne :
      (m : Result ParseError (Node × Parser)) (k : ℕ)
      → Returns k m
      → (m >>= λ (n, p). finish u n p) ≢ err out_of_fuel
  bind-ne (ok (n, p)) k w = finish-IsGenuine n p
  bind-ne (err out_of_fuel) k w = absurd w
  bind-ne (err _) k w = λ h. cc

  -- `parse_filter` never runs out of its fuel: on every text, whatever the letter tables, it returns
  -- a tree, nil or an error of the source.
  pub parse_filter-total : (q : Text) → parse_filter u q ≢ err out_of_fuel
  unfolding parse_filter
  parse_filter-total q =
      if_rule (λ r. r ≢ err out_of_fuel) (is_empty (trim_space q)) (λ _ h. cc)
        λ _.
          bind-ne (parse_or u (fuel_for q) (new_parser q)) (size (new_parser q))
            (parse_or-Returns (fuel_for q) (new_parser q) (omega arith))
