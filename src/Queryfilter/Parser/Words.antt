-- ===== src/Queryfilter/Parser/Words.antt =====
-- parser.go: the logical operators of the grammar's trees.
use goth_scaffold.Prelude.{List, inl, inr, refl, Text, ◌≡◌, ok, some}
use goth_scaffold.Queryfilter.Syntax.{Node}
use goth_scaffold.Queryfilter.Unicode.{Unicode}
use goth_scaffold.Queryfilter.Lexer.{Tok}
use goth_scaffold.Queryfilter.Semantics.{HasWords}
use goth_scaffold.Queryfilter.Parser.{parse_filter}
use goth_scaffold.Queryfilter.Parser.Grammar.{
  Or, terms, OrTail, no_terms, comma, And, factors, AndTail, no_factors, semi, Primary, parens,
  compares,
}
use goth_scaffold.Queryfilter.Parser.Sound.{parse_filter-IsFilter}

module _ (u : Unicode) where
  mutual
    Or-HasWords : {ts rest : List Tok} {n : Node} → Or u ts rest n → HasWords n
    Or-HasWords (terms a t) = OrTail-HasWords t (And-HasWords a)

    OrTail-HasWords :
        {l n : Node} {ts rest : List Tok} → OrTail u l ts rest n → HasWords l → HasWords n
    OrTail-HasWords no_terms h = h
    OrTail-HasWords (comma e a t) h = OrTail-HasWords t (inr refl, h, And-HasWords a)

    And-HasWords : {ts rest : List Tok} {n : Node} → And u ts rest n → HasWords n
    And-HasWords (factors p t) = AndTail-HasWords t (Primary-HasWords p)

    AndTail-HasWords :
        {l n : Node} {ts rest : List Tok} → AndTail u l ts rest n → HasWords l → HasWords n
    AndTail-HasWords no_factors h = h
    AndTail-HasWords (semi e p t) h = AndTail-HasWords t (inl refl, h, Primary-HasWords p)

    Primary-HasWords : {ts rest : List Tok} {n : Node} → Primary u ts rest n → HasWords n
    Primary-HasWords (parens h d c) = Or-HasWords d
    Primary-HasWords (compares hf ho hv) = tt

  -- What the parser accepts meets the premise of the semantics on the logical operators.
  pub parse_filter-HasWords : (q : Text) (n : Node) → parse_filter u q ≡ ok (some n) → HasWords n
  parse_filter-HasWords q n e = Or-HasWords (parse_filter-IsFilter u q n e).derivation
