-- ===== src/Queryfilter/Parser/Grammar.antt =====
-- The language of filters, apart from the parser: derivations over lists of tokens, and the tokens
-- that a text stands for.
use goth_scaffold.Prelude.{◌≡◌, Text, true, false, List, [], ◌∷◌, ok}
use goth_scaffold.Queryfilter.Syntax.{Op, Node, comparison, logical, logical_or, logical_and}
use goth_scaffold.Queryfilter.Unicode.{Unicode}
use goth_scaffold.Queryfilter.Lexer.{Tok, Lexer, new_lexer, next}
use goth_scaffold.Queryfilter.Parser.{
  is_eof, is_comma, is_semi, is_lparen, is_rparen, is_field, is_operand, tok_to_op,
}

-- `or := and (',' and)*`, `and := primary (';' primary)*`, and
-- `primary := '(' or ')' | field op value`. A derivation of `Or ts rest n` reads `n` off the front of
-- `ts` and leaves `rest`; the repetitions group to the left.
mutual
  pub data Or (u : Unicode) : List Tok → List Tok → Node → Type 0 where
    terms :
        {ts mid rest : List Tok} {l n : Node}
        → And u ts mid l
        → OrTail u l mid rest n
        → Or u ts rest n

  pub data OrTail (u : Unicode) : Node → List Tok → List Tok → Node → Type 0 where
    no_terms : {ts : List Tok} {n : Node} → OrTail u n ts ts n
    comma :
        {t : Tok} {ts mid rest : List Tok} {l r n : Node}
        → is_comma t.typ ≡ true
        → And u ts mid r
        → OrTail u (logical logical_or l r) mid rest n
        → OrTail u l (t ∷ ts) rest n

  pub data And (u : Unicode) : List Tok → List Tok → Node → Type 0 where
    factors :
        {ts mid rest : List Tok} {l n : Node}
        → Primary u ts mid l
        → AndTail u l mid rest n
        → And u ts rest n

  pub data AndTail (u : Unicode) : Node → List Tok → List Tok → Node → Type 0 where
    no_factors : {ts : List Tok} {n : Node} → AndTail u n ts ts n
    semi :
        {t : Tok} {ts mid rest : List Tok} {l r n : Node}
        → is_semi t.typ ≡ true
        → Primary u ts mid r
        → AndTail u (logical logical_and l r) mid rest n
        → AndTail u l (t ∷ ts) rest n

  pub data Primary (u : Unicode) : List Tok → List Tok → Node → Type 0 where
    parens :
        {t c : Tok} {ts rest : List Tok} {n : Node}
        → is_lparen t.typ ≡ true
        → Or u ts (c ∷ rest) n
        → is_rparen c.typ ≡ true
        → Primary u (t ∷ ts) rest n
    compares :
        {f o v : Tok} {rest : List Tok} {op : Op}
        → is_field f.typ ≡ true
        → tok_to_op u o ≡ ok op
        → is_operand v.typ ≡ true
        → Primary u (f ∷ o ∷ v ∷ rest) rest (comparison f.val op v.val)

-- From `l` on, the lexer gives the tokens `ts` and then the end of input, with no error.
pub data Lexes (u : Unicode) : Lexer → List Tok → Type 0 where
  done : {l m : Lexer} {t : Tok} → next u l ≡ (ok t, m) → is_eof t.typ ≡ true → Lexes u l []
  more :
      {l m : Lexer} {t : Tok} {ts : List Tok}
      → next u l ≡ (ok t, m)
      → is_eof t.typ ≡ false
      → Lexes u m ts
      → Lexes u l (t ∷ ts)

-- `q` is a filter that stands for `n`.
pub record IsFilter (u : Unicode) (q : Text) (n : Node) : Type 0 where
  pub tokens : List Tok
  pub lexed : Lexes u (new_lexer q) tokens
  pub derivation : Or u tokens [] n
