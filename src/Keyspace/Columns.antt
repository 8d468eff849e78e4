-- ===== src/Keyspace/Columns.antt =====
-- app/repositories/cassandra_repository.go: the columns of an entity and the parts of its statements.
use goth_scaffold.Prelude.{
  ap₂, map, is_pos, Option, none, ℕ, suc, Text, codes, text_eq, Bool, is_empty, ltb, ◌==◌, true,
  false, not, ◌&&◌, ◌||◌, if◌then◌else◌, List, [], ◌∷◌, ◌++◌, length, some, ℤ, pos, negsuc, ◌≡◌,
  refl, keep, join, arith, append_assoc, append-nil, length-append, Bool-cases, inl, inr,
}
use goth_scaffold.Cassandra.{join_by}
use goth_scaffold.Keyspace.{
  CqlValue, int_value, float_value, bool_value, string_value, other_value, CqlField, save_value,
  add_usage, format_int,
}

abbrev pub add_all : (Text → Text) → List Text → Text
add_all add [] = []
add_all add (n ∷ ns) = add n ++ add_all add ns

abbrev pub behind_comma : Text → Text
behind_comma n = b',' ∷ n

abbrev pub behind_and : Text → Text
behind_and n = codes " AND" ++ (b' ' ∷ (n ++ codes "=?"))

pub first_test : (n : ℕ) → (suc n == 0) ≡ false
first_test n = ground arith

pub join-add_all : (n : Text) (ns : List Text) → join b',' (n ∷ ns) ≡ n ++ add_all behind_comma ns
unfolding join
join-add_all n [] = rw (append-nil n) refl
join-add_all n (m ∷ ns) = rw (join-add_all m ns) refl

-- ` name=?`
abbrev pub condition_of : Text → Text
condition_of n = b' ' ∷ (n ++ codes "=?")

pub join_by-add_all :
    (n : Text) (ns : List Text)
    → join_by (codes " AND") (map condition_of (n ∷ ns)) ≡ condition_of n ++ add_all behind_and ns
join_by-add_all n [] = rw (append-nil (condition_of n)) refl
join_by-add_all n (m ∷ ns) = rw (join_by-add_all m ns) refl

abbrev pub ttl_clause : Option ℤ → List Text
ttl_clause none = []
ttl_clause (some n) = (codes " TTL " ++ format_int n) ∷ []

-- A timestamp counts where it is above zero.
abbrev pub timestamp_clause : Option ℤ → List Text
timestamp_clause none = []
timestamp_clause (some t) = if is_pos t then (codes " TIMESTAMP = " ++ format_int t) ∷ [] else []

abbrev pub using : List Text → Text
using [] = []
using (c ∷ cs) = codes " USING" ++ join_by (codes " AND") (c ∷ cs)

pub add_usage-using :
    (ttl timestamp : Option ℤ) (stmt : Text)
    → add_usage ttl timestamp stmt ≡ stmt ++ using (ttl_clause ttl ++ timestamp_clause timestamp)
add_usage-using none none stmt = rw (append-nil stmt) refl
add_usage-using none (some t) stmt = elim (Bool-cases (is_pos t)) [
  | inl h ↦ rw h refl
  | inr h ↦ rw (h, append-nil stmt) refl
]
add_usage-using (some n) none stmt = refl
add_usage-using (some n) (some t) stmt = elim (Bool-cases (is_pos t)) [
  | inl h ↦ rw h (simp append_assoc refl)
  | inr h ↦ rw h refl
]

module _ {F V : Type 0} where
  -- The fields that are columns
  abbrev pub columns : List (CqlField F V) → List (CqlField F V)
  columns fs = keep (λ f. f.can_set && not (is_empty f.cql_name)) fs

  -- Those whose column is of the partition key or a clustering column
  abbrev pub key_columns : (Text → Text) → List (CqlField F V) → List (CqlField F V)
  unfolding text_eq
  key_columns kind fs =
      keep
        (λ f.
          f.can_set
          && (not (is_empty f.cql_name)
              && (text_eq (kind f.cql_name) (codes "partition_key")
                  || text_eq (kind f.cql_name) (codes "clustering"))))
        fs

  abbrev is_integer_zero : CqlValue F V → Bool
  is_integer_zero (int_value (pos n)) = n == 0
  is_integer_zero other = false

  -- The value of a field, or the time of the call for an `updated_at` that is the integer zero
  abbrev pub value_or_now : ℤ → CqlField F V → CqlValue F V
  unfolding text_eq
  value_or_now now f =
      if text_eq f.cql_name (codes "updated_at") && is_integer_zero f.value
      then int_value now
      else f.value

  save_value-value_or_now :
      (now : ℤ) (name : Text) (can_set : Bool) (v : CqlValue F V)
      → save_value now name v
        ≡ value_or_now now (record { cql_name = name; can_set = can_set; value = v })
  unfolding save_value value_or_now
  save_value-value_or_now now name can_set (int_value (pos n)) = refl
  save_value-value_or_now now name can_set (int_value (negsuc n)) = ground arith
  save_value-value_or_now now name can_set (float_value x) = ground arith
  save_value-value_or_now now name can_set (bool_value b) = ground arith
  save_value-value_or_now now name can_set (string_value s) = ground arith
  save_value-value_or_now now name can_set (other_value v) = ground arith

  abbrev pub saved : ℤ → CqlField F V → CqlValue F V
  unfolding save_value
  saved now f = save_value now f.cql_name f.value

  pub length-grows :
      (args : List (CqlValue F V)) (x : CqlValue F V)
      → ltb (suc (length args)) (suc (length (args ++ (x ∷ [])))) ≡ true
  length-grows args x = ground (arith, length-append args (x ∷ []))

  pub saved-value_or_now :
      (now : ℤ) (fs : List (CqlField F V)) → map (saved now) fs ≡ map (value_or_now now) fs
  unfolding saved save_value value_or_now
  saved-value_or_now now [] = refl
  saved-value_or_now now (f ∷ fs) =
      ap₂ (λ x xs. x ∷ xs) (save_value-value_or_now now f.cql_name f.can_set f.value)
        (saved-value_or_now now fs)
