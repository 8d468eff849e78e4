-- ===== src/Queryfilter/Lexer.antt =====
-- The lexer of parser.go. A lexer is its position with the runes from there on; an index past the
-- end of the input is a position with no runes left.
pub mod Progress
use goth_scaffold.Prelude.{
  ℕ, zero, suc, ◌+◌, Text, Bool, false, not, ◌&&◌, ◌||◌, ◌==◌, ltb, if◌then◌else◌, [], ◌∷◌, drop,
  is_empty, Result, ok, err,
}
use goth_scaffold.Queryfilter.Unicode.{Unicode, is_space}

pub data TokType : Type 0 where
  tok_eof tok_ident tok_string tok_value tok_comma tok_semi tok_lparen tok_rparen : TokType
  tok_eq_eq tok_neq tok_lt tok_lte tok_gt tok_gte tok_named_op : TokType

pub record Tok : Type 0 where
  pub typ : TokType
  pub val : Text

abbrev pub plain : TokType → Tok
plain t = record { typ = t; val = [] }

abbrev pub tok : TokType → Text → Tok
tok t v = record { typ = t; val = v }

-- The errors of `next`, with what their messages print.
pub data LexError : Type 0 where
  invalid_operator unexpected_bang : ℕ → LexError
  unterminated_string : LexError
  unexpected_character : ℕ → ℕ → LexError

pub record Lexer : Type 0 where
  pub pos : ℕ
  pub rest : Text

abbrev pub new_lexer : Text → Lexer
new_lexer input = record { pos = 0; rest = input }

-- `l.pos += n`
abbrev pub advance : ℕ → Lexer → Lexer
advance n l = record { pos = l.pos + n; rest = drop n l.rest }

-- The number of runes at the front that a loop `for l.pos < len(l.input) && p(l.input[l.pos])`
-- passes over.
unfoldable pub span_length : (ℕ → Bool) → Text → ℕ
span_length p [] = 0
span_length p (c ∷ s) = let n = span_length p s in if p c then suc n else 0

-- `string(l.input[l.pos:l.pos+n])`
unfoldable pub front : ℕ → Text → Text
front zero s = []
front (suc n) [] = []
front (suc n) (c ∷ s) = c ∷ front n s

unfoldable pub skip_ws : Lexer → Lexer
unfolding span_length is_space
skip_ws l = advance (span_length is_space l.rest) l

-- The loop of the quoted string, on the runes behind the quote: how far it moves. A backslash takes
-- the next rune with it, also past the end.
unfoldable pub string_length : ℕ → Text → ℕ
string_length quote [] = 0
string_length quote (c ∷ []) = if c == quote then 0 else if c == b'\\' then 2 else 1
string_length quote (c ∷ d ∷ s) =
    let escaped = string_length quote s in
    let next = string_length quote (d ∷ s) in
    if c == quote then 0 else if c == b'\\' then suc (suc escaped) else suc next

abbrev pub Step : Type 0
Step = Result LexError Tok × Lexer

-- One-rune tokens, and those with `=` for a second rune.
abbrev single : TokType → Lexer → Step
single t l = (ok (plain t), advance 1 l)

abbrev starts : ℕ → Text → Bool
starts c [] = false
starts c (d ∷ s) = d == c

module _ (u : Unicode) where
  abbrev pub is_word : ℕ → Bool
  is_word c = u.is_letter c || u.is_digit c

  abbrev pub is_ident : ℕ → Bool
  is_ident c = u.is_letter c || u.is_digit c || c == b'_'

  -- `case ch == '='`, on the lexer behind it
  unfoldable pub next_equals : Lexer → Step
  unfolding span_length front
  next_equals l =
      if starts b'=' l.rest
      then (ok (tok tok_eq_eq (b'=' ∷ b'=' ∷ [])), advance 1 l)
      else let n = span_length is_word l.rest in
        let after = advance n l in
        if starts b'=' after.rest && ltb 0 n
        then (ok (tok tok_named_op (front n l.rest)), advance 1 after)
        else (err (invalid_operator after.pos), after)

  -- `case ch == '!'`, on the lexer behind it
  unfoldable pub next_bang : Lexer → Step
  next_bang l =
      if starts b'=' l.rest
      then (ok (tok tok_neq (b'!' ∷ b'=' ∷ [])), advance 1 l)
      else (err (unexpected_bang l.pos), l)

  -- `case ch == '<'` and `case ch == '>'`, on the lexer behind it
  unfoldable pub next_order : ℕ → TokType → TokType → Lexer → Step
  next_order c or_equal strict l =
      if starts b'=' l.rest
      then (ok (tok or_equal (c ∷ b'=' ∷ [])), advance 1 l)
      else (ok (tok strict (c ∷ [])), l)

  -- `case ch == '\'' || ch == '"'`, on the lexer behind it
  unfoldable pub next_string : ℕ → Lexer → Step
  unfolding string_length front
  next_string quote l =
      let n = string_length quote l.rest in
      let after = advance n l in
      if is_empty after.rest
      then (err unterminated_string, after)
      else (ok (tok tok_string (front n l.rest)), advance 1 after)

  unfoldable pub next_ident : Lexer → Step
  unfolding span_length front
  next_ident l =
      let n = span_length is_ident l.rest in (ok (tok tok_ident (front n l.rest)), advance n l)

  -- `!strings.ContainsRune(",;()", r) && !unicode.IsSpace(r)`
  unfoldable pub is_value : ℕ → Bool
  unfolding is_space
  is_value c = not (c == b',' || c == b';' || c == b'(' || c == b')') && not (is_space c)

  unfoldable pub next_value : ℕ → Lexer → Step
  unfolding span_length front is_value
  next_value ch l =
      let n = span_length is_value l.rest in
      if n == 0
      then (err (unexpected_character ch l.pos), l)
      else (ok (tok tok_value (front n l.rest)), advance n l)

  -- The switch of `next` at the rune `ch`, which is the first of `l`.
  unfoldable pub next_at : ℕ → Lexer → Step
  unfolding next_equals next_bang next_order next_string next_ident next_value
  next_at ch l =
      if ch == b','
      then single tok_comma l
      else if ch == b';'
      then single tok_semi l
      else if ch == b'('
      then single tok_lparen l
      else if ch == b')'
      then single tok_rparen l
      else if ch == b'='
      then next_equals (advance 1 l)
      else if ch == b'!'
      then next_bang (advance 1 l)
      else if ch == b'<'
      then next_order b'<' tok_lte tok_lt (advance 1 l)
      else if ch == b'>'
      then next_order b'>' tok_gte tok_gt (advance 1 l)
      else if ch == b'\'' || ch == b'"'
      then next_string ch (advance 1 l)
      else if u.is_letter ch || ch == b'_'
      then next_ident l
      else next_value ch l

  unfoldable pub next_from : Text → Lexer → Step
  unfolding next_at
  next_from [] l = (ok (plain tok_eof), l)
  next_from (ch ∷ s) l = next_at ch l

  -- `next`
  unfoldable pub next : Lexer → Step
  unfolding skip_ws next_from
  next l = let m = skip_ws l in next_from m.rest m
