-- ===== src/Dialect/Quoting.antt =====
-- `quoteIdent` of app/components/dialect/mysql.go: what it adds to an identifier.
use goth_scaffold.Prelude.{
  ℕ, ◌≡◌, ◌≢◌, refl, sym, ap, ap₂, ◌⊎◌, inl, inr, ◌∙◌, Text, true, false, not, ◌||◌, ◌==◌, List, [],
  ◌∷◌, ◌++◌, map, all, any, keep, keep-append, is_empty, split_on, split_on-ne-nil, join,
  join-split_on, contains_char, arith, if_rule, append-nil,
}
use goth_scaffold.Queryfilter.Unicode.{Unicode}
use goth_scaffold.Dialect.{wrap, quote_ident, is_ident_rune}

module _ (o c : ℕ) where
  contains_char-join :
      (parts : List Text)
      → (parts ≡ [] → ⊥)
      → contains_char o (join b'.' (map (wrap o c) parts)) ≡ true
  unfolding join
  contains_char-join [] h = absurd (h refl)
  contains_char-join (p ∷ []) h = ground arith
  contains_char-join (p ∷ q ∷ ps) h = ground arith

  -- The text without its quotes.
  unfoldable pub unquote : Text → Text
  unquote = keep (λ r. not (r == o || r == c))

  unquote-eq_self :
      (s : Text) → contains_char o s ≡ false → contains_char c s ≡ false → unquote s ≡ s
  unfolding unquote
  unquote-eq_self [] ho hc = refl
  unquote-eq_self (r ∷ s) ho hc = ground (arith, unquote-eq_self s)

  unquote-append : (a b : Text) → unquote (a ++ b) ≡ unquote a ++ unquote b
  unfolding unquote
  unquote-append a b = keep-append (λ r. not (r == o || r == c)) a b

  unquote_open : (s : Text) → unquote (o ∷ s) ≡ unquote s
  unfolding unquote
  unquote_open s = ground arith

  unquote_close : unquote (c ∷ []) ≡ []
  unfolding unquote
  unquote_close = ground arith

  unquote-wrap : (p : Text) → unquote (wrap o c p) ≡ unquote p
  unquote-wrap p = simp (unquote_open, unquote-append, unquote_close, append-nil)

  unquote_dot : (s : Text) → o ≢ b'.' → c ≢ b'.' → unquote (b'.' ∷ s) ≡ b'.' ∷ unquote s
  unfolding unquote
  unquote_dot s ho hc = ground arith

  unquote-join :
      (parts : List Text)
      → o ≢ b'.'
      → c ≢ b'.'
      → unquote (join b'.' (map (wrap o c) parts)) ≡ unquote (join b'.' parts)
  unfolding join
  unquote-join [] ho hc = refl
  unquote-join (p ∷ []) ho hc = unquote-wrap p
  unquote-join (p ∷ q ∷ ps) ho hc =
      unquote-append (wrap o c p) (b'.' ∷ join b'.' (map (wrap o c) (q ∷ ps)))
      ∙ ap₂ ◌++◌ (unquote-wrap p) (
          unquote_dot (join b'.' (map (wrap o c) (q ∷ ps))) ho hc
          ∙ ap (λ s. b'.' ∷ s) (unquote-join (q ∷ ps) ho hc)
          ∙ sym (unquote_dot (join b'.' (q ∷ ps)) ho hc))
      ∙ sym (unquote-append p (b'.' ∷ join b'.' (q ∷ ps)))

module _ (u : Unicode) (o c : ℕ) where
  quoted : Text → Text
  quoted s = join b'.' (map (wrap o c) (split_on b'.' s))

  -- The text is returned as it is, or in its quoted form.
  quote_ident_cases : (s : Text) → (quote_ident u s o c ≡ s) ⊎ (quote_ident u s o c ≡ quoted s)
  unfolding quote_ident quoted
  quote_ident_cases s =
      if_rule (λ r. (r ≡ s) ⊎ (r ≡ quoted s)) (is_empty s) (λ _. inl refl)
        λ _.
          if_rule (λ r. (r ≡ s) ⊎ (r ≡ quoted s)) (contains_char o s || contains_char c s)
            (λ _. inl refl)
            λ _.
              if_rule (λ r. (r ≡ s) ⊎ (r ≡ quoted s)) (not (all (is_ident_rune u) s))
                (λ _. inl refl)
                λ _.
                  if_rule (λ r. (r ≡ s) ⊎ (r ≡ quoted s)) (any is_empty (split_on b'.' s))
                    (λ _. inl refl) λ _. inr refl

  quote_ident-quoted : (t : Text) → contains_char o t ≡ true → quote_ident u t o c ≡ t
  unfolding quote_ident
  quote_ident-quoted t h = ground arith

  -- Quoting an identifier that is quoted changes nothing.
  pub quote_ident_idem : (s : Text) → quote_ident u (quote_ident u s o c) o c ≡ quote_ident u s o c
  quote_ident_idem s = elim (quote_ident_cases s) [
    | inl same ↦ ap (λ t. quote_ident u t o c) same
    | inr new ↦ rw new (
        quote_ident-quoted (quoted s)
          (unfold quoted in contains_char-join o c (split_on b'.' s) (split_on-ne-nil b'.' s)))
  ]

  -- An identifier with neither quote in it is its quoted form without the quotes, so that quoting
  -- takes no two such identifiers to one.
  pub unquote-quote_ident :
      (s : Text)
      → o ≢ b'.'
      → c ≢ b'.'
      → contains_char o s ≡ false
      → contains_char c s ≡ false
      → unquote o c (quote_ident u s o c) ≡ s
  unfolding quoted
  unquote-quote_ident s ho hc so sc = elim (quote_ident_cases s) [
    | inl same ↦ rw same (unquote-eq_self o c s so sc)
    | inr new ↦ rw new (
        unquote-join o c (split_on b'.' s) ho hc
        ∙ ap (unquote o c) (join-split_on b'.' s)
        ∙ unquote-eq_self o c s so sc)
  ]
