-- ===== src/Prelude/Runes.antt =====
-- Text as the list of its runes, and what the program uses of Go's `strings` on it. A Go string
-- is a sequence of bytes; where it is valid UTF-8 its runes determine it.
use Prim.Native.Char.{code}
use Prim.Native.String.{String}
use mathlib.Core.Path.{◌≡◌, refl}
use mathlib.Core.Logic.{◌↔◌}
use mathlib.Core.Bool.{Bool, true, false, ◌&&◌, ◌||◌}
use mathlib.Core.List.{List, [], ◌∷◌, ◌++◌}
use Prim.Native.Nat.{ℕ}
use native.Mathlib.Omega.{arith}
use goth_scaffold.Prelude.Tests.{◌==◌, if◌then◌else◌}
use goth_scaffold.Prelude.Lists.{any}

abbrev pub Text : Type 0
Text = List ℕ

abbrev pub codes : String → Text
codes String.[] = []
codes (String.◌∷◌ c s) = code c ∷ codes s

-- Go's `==` on strings.
unfoldable pub text_eq : Text → Text → Bool
text_eq [] [] = true
text_eq (x ∷ xs) (y ∷ ys) = x == y && text_eq xs ys
text_eq _ _ = false

pub text_eq_iff : (a b : Text) → (text_eq a b ≡ true) ↔ (a ≡ b)
unfolding text_eq
text_eq_iff (x ∷ a) (y ∷ b) = ground (arith, text_eq_iff a b)
text_eq_iff _ _ = ground arith

pub text_eq_refl : (a : Text) → text_eq a a ≡ true
text_eq_refl a = (text_eq_iff a a).1 refl

-- `s == ""`
abbrev pub is_empty : Text → Bool
is_empty [] = true
is_empty (c ∷ s) = false

-- One more rune at the front of the first part.
abbrev pub cons_first : ℕ → List Text → List Text
cons_first c [] = (c ∷ []) ∷ []
cons_first c (p ∷ ps) = (c ∷ p) ∷ ps

-- `strings.Split` at one separator character: one more part than separators.
unfoldable pub split_on : ℕ → Text → List Text
split_on sep [] = [] ∷ []
split_on sep (c ∷ s) =
    let parts = split_on sep s in if c == sep then [] ∷ parts else cons_first c parts

-- `strings.Join` with one separator character.
unfoldable pub join : ℕ → List Text → Text
join sep [] = []
join sep (p ∷ []) = p
join sep (p ∷ q ∷ ps) = p ++ (sep ∷ join sep (q ∷ ps))

unfoldable pub drop_while : (ℕ → Bool) → Text → Text
drop_while p [] = []
drop_while p (c ∷ s) = let rest = drop_while p s in if p c then rest else c ∷ s

-- `strings.TrimRightFunc`
unfoldable pub trim_right : (ℕ → Bool) → Text → Text
trim_right p [] = []
trim_right p (c ∷ s) = let rest = trim_right p s in if p c && is_empty rest then [] else c ∷ rest

-- `strings.HasPrefix(s, pre)`
unfoldable pub has_prefix : Text → Text → Bool
has_prefix s [] = true
has_prefix [] (q ∷ pre) = false
has_prefix (c ∷ s) (q ∷ pre) = c == q && has_prefix s pre

-- `strings.ContainsRune`
abbrev pub contains_char : ℕ → Text → Bool
contains_char c s = any (λ d. d == c) s

-- `strings.Contains(s, part)`
unfoldable pub contains : Text → Text → Bool
unfolding has_prefix
contains [] part = is_empty part
contains (c ∷ s) part = has_prefix (c ∷ s) part || contains s part

pub split_on_none : (sep : ℕ) (p : Text) → contains_char sep p ≡ false → split_on sep p ≡ p ∷ []
unfolding split_on
split_on_none sep [] h = refl
split_on_none sep (c ∷ p) h = ground (arith, split_on_none sep p)

-- A part without the separator, up to the separator, is the first part of the split.
pub split_on-append :
    (sep : ℕ) (p s : Text)
    → contains_char sep p ≡ false
    → split_on sep (p ++ (sep ∷ s)) ≡ p ∷ split_on sep s
unfolding split_on
split_on-append sep [] s h = ground arith
split_on-append sep (c ∷ p) s h = ground (arith, split_on-append sep p s)

pub split_on-ne-nil : (sep : ℕ) (s : Text) → split_on sep s ≡ [] → ⊥
unfolding split_on
split_on-ne-nil sep [] e = cc
split_on-ne-nil sep (c ∷ s) e = ground (arith, split_on-ne-nil sep s)

join-cons_first :
    (sep c : ℕ) (ps : List Text) → (ps ≡ [] → ⊥) → join sep (cons_first c ps) ≡ c ∷ join sep ps
unfolding join
join-cons_first sep c [] h = absurd (h refl)
join-cons_first sep c (p ∷ []) h = refl
join-cons_first sep c (p ∷ q ∷ ps) h = refl

join-nil_cons : (sep : ℕ) (ps : List Text) → (ps ≡ [] → ⊥) → join sep ([] ∷ ps) ≡ sep ∷ join sep ps
unfolding join
join-nil_cons sep [] h = absurd (h refl)
join-nil_cons sep (p ∷ ps) h = refl

pub join-split_on : (sep : ℕ) (s : Text) → join sep (split_on sep s) ≡ s
unfolding split_on
join-split_on sep [] = unfold join in refl
join-split_on sep (c ∷ s) = ground (
  arith,
  join-split_on sep s,
  join-cons_first sep c (split_on sep s) (split_on-ne-nil sep s),
  join-nil_cons sep (split_on sep s) (split_on-ne-nil sep s),
)
