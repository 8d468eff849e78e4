-- ===== src/Queryfilter/Lexer/Progress.antt =====
-- parser.go: how far `lexer.next` moves.
use goth_scaffold.Prelude.{
  ℕ, zero, suc, ◌≤◌, ◌<◌, ◌≡◌, ◌≢◌, Text, Bool, true, [], ◌∷◌, length, drop, ◌||◌, ◌==◌, arith, inl,
  inr, Bool-cases, if_rule, is_empty, refl, ok, err,
}
use goth_scaffold.Queryfilter.Unicode.{Unicode, is_space}
use goth_scaffold.Queryfilter.Lexer.{
  TokType, tok_eof, tok_comma, tok_semi, tok_lparen, tok_rparen, Lexer, advance, Step, span_length,
  string_length, tok_lt, tok_lte, tok_gt, tok_gte, skip_ws, next_equals, next_bang, next_order,
  next_string, next_ident, next_value, is_value, is_ident, next_at, next_from, next,
}

length-drop : (n : ℕ) (s : Text) → length (drop n s) ≤ length s
length-drop zero s = omega arith
length-drop (suc n) [] = omega arith
length-drop (suc n) (c ∷ s) = omega (arith, length-drop n s)

-- The step leaves fewer than `n` runes, or it is an error or the end of input.
abbrev pub Within : ℕ → Step → Type 0
Within n (ok t, l) = length l.rest ≤ n × (t.typ ≢ tok_eof → length l.rest < n)
Within n (err e, l) = length l.rest ≤ n

length-advance : (n : ℕ) (l : Lexer) → length (advance n l).rest ≤ length l.rest
length-advance n l = length-drop n l.rest

module _ (u : Unicode) where
  next_equals-Within : (l : Lexer) (n : ℕ) → length l.rest < n → Within n (next_equals u l)
  unfolding next_equals
  next_equals-Within l n h =
      let k = span_length (λ c. u.is_letter c || u.is_digit c) l.rest in
      ground (arith, length-advance 1 l, length-advance k l, length-advance 1 (advance k l))

  next_bang-Within : (l : Lexer) (n : ℕ) → length l.rest < n → Within n (next_bang u l)
  unfolding next_bang
  next_bang-Within l n h = ground (arith, length-advance 1 l)

  next_order-Within :
      (c : ℕ) (s t : TokType) (l : Lexer) (n : ℕ)
      → length l.rest < n
      → Within n (next_order u c s t l)
  unfolding next_order
  next_order-Within c s t l n h = ground (arith, length-advance 1 l)

  next_string-Within :
      (c : ℕ) (l : Lexer) (n : ℕ) → length l.rest < n → Within n (next_string u c l)
  unfolding next_string
  next_string-Within c l n h =
      let k = string_length c l.rest in
      let passed = length-drop k l.rest in
      let closed = length-drop 1 (drop k l.rest) in
      if_rule (Within n) (is_empty (drop k l.rest)) (λ _. omega arith) (λ _. omega arith)

  -- A scan over a rune that passes the test moves on.
  span-drop :
      (p : ℕ → Bool) (c : ℕ) (s : Text)
      → p c ≡ true
      → length (drop (span_length p (c ∷ s)) (c ∷ s)) ≤ length s
  unfolding span_length
  span-drop p c s h = rw h (length-drop (span_length p s) s)

  next_ident-Within :
      (c : ℕ) (s : Text) (l : Lexer)
      → l.rest ≡ c ∷ s
      → (u.is_letter c || c == b'_') ≡ true
      → Within (suc (length s)) (next_ident u l)
  unfolding next_ident
  next_ident-Within c s l e h = rw e (ground (arith, span-drop (is_ident u) c s (ground arith)))

  next_value-Within :
      (c : ℕ) (s : Text) (l : Lexer) → l.rest ≡ c ∷ s → Within (suc (length s)) (next_value u c l)
  unfolding next_value
  next_value-Within c s l e = elim (Bool-cases (is_value u c)) [
    | inl yes_value ↦ rw e (ground (arith, span-drop (is_value u) c s yes_value))
    | inr no_value ↦ rw e (unfold span_length in rw no_value (omega arith))
  ]

  single-Within :
      (t : TokType) (c : ℕ) (s : Text) (l : Lexer)
      → l.rest ≡ c ∷ s
      → Within (suc (length s)) (ok (record { typ = t; val = [] }), advance 1 l)
  single-Within t c s l e = rw e (omega arith)

  next_at-Within :
      (c : ℕ) (s : Text) (l : Lexer) → l.rest ≡ c ∷ s → Within (suc (length s)) (next_at u c l)
  unfolding next_at
  next_at-Within c s l e =
      let n = suc (length s) in
      let behind : length (advance 1 l).rest < n = rw e (omega arith) in
      if_rule (Within n) (c == b',') (λ _. single-Within tok_comma c s l e)
        λ _.
          if_rule (Within n) (c == b';') (λ _. single-Within tok_semi c s l e)
            λ _.
              if_rule (Within n) (c == b'(') (λ _. single-Within tok_lparen c s l e)
                λ _.
                  if_rule (Within n) (c == b')') (λ _. single-Within tok_rparen c s l e)
                    λ _.
                      if_rule (Within n) (c == b'=')
                        (λ _. next_equals-Within (advance 1 l) n behind)
                        λ _.
                          if_rule (Within n) (c == b'!')
                            (λ _. next_bang-Within (advance 1 l) n behind)
                            λ _.
                              if_rule (Within n) (c == b'<')
                                (λ _. next_order-Within b'<' tok_lte tok_lt (advance 1 l) n behind)
                                λ _.
                                  if_rule (Within n) (c == b'>')
                                    (λ _.
                                      next_order-Within b'>' tok_gte tok_gt (advance 1 l) n behind)
                                    λ _.
                                      if_rule (Within n) (c == b'\'' || c == b'"')
                                        (λ _. next_string-Within c (advance 1 l) n behind)
                                        λ _.
                                          if_rule (Within n) (u.is_letter c || c == b'_')
                                            (λ word. next_ident-Within c s l e word)
                                            λ _. next_value-Within c s l e

  next_from-Within : (s : Text) (l : Lexer) → l.rest ≡ s → Within (length s) (next_from u s l)
  unfolding next_from
  next_from-Within [] l e = rw e (omega arith, λ ne. absurd (ne refl))
  next_from-Within (c ∷ s) l e = next_at-Within c s l e

  Within-mono : (m n : ℕ) (r : Step) → m ≤ n → Within m r → Within n r
  Within-mono m n (ok t, l) h w = (omega arith, λ ne. let less = w.1 ne in omega arith)
  Within-mono m n (err e, l) h w = omega arith

  -- No step of the lexer gives runes back, and each token takes at least one.
  pub next-Within : (l : Lexer) → Within (length l.rest) (next u l)
  unfolding next
  next-Within l =
      Within-mono (length (skip_ws l).rest) (length l.rest)
        (next_from u (skip_ws l).rest (skip_ws l))
        (unfold skip_ws in length-drop (span_length is_space l.rest) l.rest)
        (next_from-Within (skip_ws l).rest (skip_ws l) refl)
