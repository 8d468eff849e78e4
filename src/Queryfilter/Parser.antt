-- ===== src/Queryfilter/Parser.antt =====
-- The parser of parser.go: single pass, recursive descent, one token of look-ahead. A lexical error
-- leaves the zero token, which is an end of input, with the error beside it.
pub mod Grammar
mod Tokens
pub mod Sound
pub mod Words
pub mod Complete
pub mod Total
use goth_scaffold.Prelude.{
  ℕ, zero, suc, ◌+◌, ◌*◌, Text, codes, Bool, true, false, not, if◌then◌else◌, map, length, is_empty,
  text_eq, Result, ok, err, ◌>>=◌, Option, none, some,
}
use goth_scaffold.Queryfilter.Syntax.{
  Op, op_eq, op_ne, op_lt, op_lte, op_gt, op_gte, op_prefix, op_suffix, op_like, logical_and,
  logical_or, Node, comparison, logical,
}
use goth_scaffold.Queryfilter.Unicode.{Unicode, trim_space}
use goth_scaffold.Queryfilter.Lexer.{
  TokType, tok_eof, tok_ident, tok_string, tok_value, tok_comma, tok_semi, tok_lparen, tok_rparen,
  tok_eq_eq, tok_neq, tok_lt, tok_lte, tok_gt, tok_gte, tok_named_op, Tok, plain, LexError, Lexer,
  new_lexer, Step, next,
}

-- The errors of `ParseFilter`, with what their messages print, and `out_of_fuel` of the model.
pub data ParseError : Type 0 where
  lexical : LexError → ParseError
  expected_rparen : ParseError
  expected_field unknown_operator expected_operator expected_value unexpected_token :
      Text → ParseError
  out_of_fuel : ParseError

pub record Parser : Type 0 where
  pub lex : Lexer
  pub current : Tok
  pub peeked : Bool
  pub lex_err : Option LexError

abbrev pub new_parser : Text → Parser
new_parser input = record {
  lex = new_lexer input;
  current = plain tok_eof;
  peeked = false;
  lex_err = none;
}

abbrev pub is_eof : TokType → Bool
is_eof tok_eof = true
is_eof _ = false

abbrev pub is_comma : TokType → Bool
is_comma tok_comma = true
is_comma _ = false

abbrev pub is_semi : TokType → Bool
is_semi tok_semi = true
is_semi _ = false

abbrev pub is_lparen : TokType → Bool
is_lparen tok_lparen = true
is_lparen _ = false

abbrev pub is_rparen : TokType → Bool
is_rparen tok_rparen = true
is_rparen _ = false

abbrev pub is_field : TokType → Bool
is_field tok_ident = true
is_field _ = false

abbrev pub is_operand : TokType → Bool
is_operand tok_ident = true
is_operand tok_string = true
is_operand tok_value = true
is_operand _ = false

-- The state with the step's token and error; a token beside an error is `tok{}`.
abbrev pub settle : Parser → Step → Parser
settle p (ok t, l) = record { lex = l; current = t; peeked = true; lex_err = none }
settle p (err e, l) = record { lex = l; current = plain tok_eof; peeked = true; lex_err = some e }

abbrev pub fuel_for : Text → ℕ
fuel_for q = 4 * length q + 4

-- The switch on `strings.ToLower(t.val)`
unfoldable pub named_op : Text → Text → Result ParseError Op
unfolding text_eq
named_op shown name =
    if text_eq name (codes "eq")
    then ok op_eq
    else if text_eq name (codes "ne")
    then ok op_ne
    else if text_eq name (codes "gt")
    then ok op_gt
    else if text_eq name (codes "lt")
    then ok op_lt
    else if text_eq name (codes "gte")
    then ok op_gte
    else if text_eq name (codes "lte")
    then ok op_lte
    else if text_eq name (codes "prefix")
    then ok op_prefix
    else if text_eq name (codes "suffix")
    then ok op_suffix
    else if text_eq name (codes "like")
    then ok op_like
    else err (unknown_operator shown)

module _ (u : Unicode) where
  -- What `peek` does to the parser; it returns the field `current`.
  unfoldable pub peek : Parser → Parser
  peek p = if p.peeked then p else settle p (next u p.lex)

  -- What `consume` does to the parser; it returns `(peek p).current`.
  unfoldable pub consume : Parser → Parser
  consume p = record (peek p) { peeked = false }

  unfoldable pub tok_to_op_at : TokType → Text → Result ParseError Op
  unfolding named_op
  tok_to_op_at tok_eq_eq v = ok op_eq
  tok_to_op_at tok_neq v = ok op_ne
  tok_to_op_at tok_lt v = ok op_lt
  tok_to_op_at tok_lte v = ok op_lte
  tok_to_op_at tok_gt v = ok op_gt
  tok_to_op_at tok_gte v = ok op_gte
  tok_to_op_at tok_named_op v = named_op v (map u.to_lower v)
  tok_to_op_at _ v = err (expected_operator v)

  abbrev pub tok_to_op : Tok → Result ParseError Op
  tok_to_op t = tok_to_op_at t.typ t.val

  unfoldable pub parse_comparison : Parser → Result ParseError (Node × Parser)
  parse_comparison p =
      let field_tok = (peek p).current in
      let p1 = consume p in
      let op_tok = (peek p1).current in
      let p2 = consume p1 in
      let val_tok = (peek p2).current in
      let p3 = consume p2 in
      if not (is_field field_tok.typ) then err (expected_field field_tok.val) else do
        op ← tok_to_op op_tok
        if is_operand val_tok.typ
            then ok (comparison field_tok.val op val_tok.val, p3)
            else err (expected_value val_tok.val)

  -- Behind the expression in parentheses
  unfoldable pub close_paren : Node → Parser → Result ParseError (Node × Parser)
  close_paren node p =
      if is_rparen (peek p).current.typ then ok (node, consume p) else err expected_rparen

  -- The loops stand as functions of their own. Each call has one unit of fuel less.
  unfoldable mutual
    pub parse_or : ℕ → Parser → Result ParseError (Node × Parser)
    parse_or zero p = err out_of_fuel
    parse_or (suc f) p = do (left, p1) ← parse_and f p; or_loop f left p1

    pub or_loop : ℕ → Node → Parser → Result ParseError (Node × Parser)
    or_loop zero left p = err out_of_fuel
    or_loop (suc f) left p = elim (is_comma (peek p).current.typ) [
      | true ↦ do
        (right, p2) ← parse_and f (consume p)
        or_loop f (logical logical_or left right) p2
      | false ↦ ok (left, peek p)
    ]

    pub parse_and : ℕ → Parser → Result ParseError (Node × Parser)
    parse_and zero p = err out_of_fuel
    parse_and (suc f) p = do (left, p1) ← parse_primary f p; and_loop f left p1

    pub and_loop : ℕ → Node → Parser → Result ParseError (Node × Parser)
    and_loop zero left p = err out_of_fuel
    and_loop (suc f) left p = elim (is_semi (peek p).current.typ) [
      | true ↦ do
        (right, p2) ← parse_primary f (consume p)
        and_loop f (logical logical_and left right) p2
      | false ↦ ok (left, peek p)
    ]

    pub parse_primary : ℕ → Parser → Result ParseError (Node × Parser)
    parse_primary zero p = err out_of_fuel
    parse_primary (suc f) p = elim (is_lparen (peek p).current.typ) [
      | true ↦ do (node, p1) ← parse_or f (consume p); close_paren node p1
      | false ↦ parse_comparison (peek p)
    ]

  -- What `ParseFilter` does behind `parseOr`
  unfoldable pub finish : Node → Parser → Result ParseError (Option Node)
  finish node p = elim p.lex_err [
    | some e ↦ err (lexical e)
    | none ↦
        if is_eof (peek p).current.typ
        then ok (some node)
        else err (unexpected_token (peek p).current.val)
  ]

  -- `ParseFilter`; nil is `none`.
  unfoldable pub parse_filter : Text → Result ParseError (Option Node)
  unfolding trim_space parse_or finish peek consume parse_comparison close_paren tok_to_op_at
  parse_filter q =
      if is_empty (trim_space q)
      then ok none
      else do (node, p) ← parse_or (fuel_for q) (new_parser q); finish node p
