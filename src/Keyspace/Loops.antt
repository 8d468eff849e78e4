-- ===== src/Keyspace/Loops.antt =====
-- app/repositories/cassandra_repository.go: what the loops of the statements write.
use goth_scaffold.Prelude.{
  ℕ, suc, Text, codes, is_empty, List, [], ◌∷◌, ◌++◌, length, ℤ, ◌≡◌, refl, map, join, append_assoc,
  append-nil, Bool-cases, inl, inr,
}
use goth_scaffold.Cassandra.{join_by}
use goth_scaffold.Keyspace.{
  CqlValue, CqlField, save_value, save_columns, add_marks, is_key_kind, delete_columns,
}
use goth_scaffold.Keyspace.Columns.{
  add_all, behind_comma, behind_and, first_test, join-add_all, condition_of, join_by-add_all,
  columns, key_columns, saved, length-grows,
}

module _ {F V : Type 0} where
  save_columns-columns :
      (now : ℤ) (fs : List (CqlField F V)) (stmt : Text) (a : CqlValue F V)
      (args : List (CqlValue F V))
      → save_columns now fs stmt (a ∷ args) (length (a ∷ args)) ≡ (
        stmt ++ add_all behind_comma (map (λ f. f.cql_name) (columns fs)),
        (a ∷ args) ++ map (saved now) (columns fs),
      )
  unfolding save_columns save_value
  save_columns-columns now [] stmt a args = rw (append-nil stmt, append-nil args) refl
  save_columns-columns now (f ∷ fs) stmt a args =
      let x = saved now f in
      let next = save_columns-columns now fs (stmt ++ (b',' ∷ f.cql_name)) a (args ++ (x ∷ [])) in
      let skip = save_columns-columns now fs stmt a args in
      elim (Bool-cases f.can_set) [
        | inr h ↦ rw h skip
        | inl h ↦ elim (Bool-cases (is_empty f.cql_name)) [
          | inl k ↦ rw (h, k) skip
          | inr k ↦
              rw (h, k)
                (rw
                  (
                    length-grows args x,
                    first_test (length args),
                    next,
                    append_assoc stmt,
                    append_assoc args,
                  )
                  refl)
        ]
      ]

  pub save_columns_start :
      (now : ℤ) (fs : List (CqlField F V)) (stmt : Text)
      → save_columns now fs stmt [] 0
        ≡ (stmt ++ join b',' (map (λ f. f.cql_name) (columns fs)), map (saved now) (columns fs))
  unfolding save_columns save_value
  save_columns_start now [] stmt = unfold join in rw (append-nil stmt) refl
  save_columns_start now (f ∷ fs) stmt =
      let next = save_columns-columns now fs (stmt ++ f.cql_name) (saved now f) [] in
      let skip = save_columns_start now fs stmt in
      let names = map (λ (g : CqlField F V). g.cql_name) (columns fs) in
      elim (Bool-cases f.can_set) [
        | inr h ↦ rw h skip
        | inl h ↦ elim (Bool-cases (is_empty f.cql_name)) [
          | inl k ↦ rw (h, k) skip
          | inr k ↦ rw (h, k) (rw (next, join-add_all f.cql_name names, append_assoc stmt) refl)
        ]
      ]

  add_marks-marks :
      (i : ℕ) (args : List (CqlValue F V)) (stmt : Text)
      → add_marks (suc i) args stmt ≡ stmt ++ add_all behind_comma (map (λ a. b'?' ∷ []) args)
  unfolding add_marks
  add_marks-marks i [] stmt = rw (append-nil stmt) refl
  add_marks-marks i (a ∷ args) stmt =
      let next = add_marks-marks (suc i) args (stmt ++ (b',' ∷ b'?' ∷ [])) in
      rw (first_test i, next, append_assoc stmt) refl

  pub add_marks_start :
      (args : List (CqlValue F V)) (stmt : Text)
      → add_marks 0 args stmt ≡ stmt ++ join b',' (map (λ a. b'?' ∷ []) args)
  unfolding add_marks
  add_marks_start [] stmt = unfold join in rw (append-nil stmt) refl
  add_marks_start (a ∷ args) stmt =
      let marks : List Text = map (λ (x : CqlValue F V). b'?' ∷ []) args in
      rw
        (
          add_marks-marks 0 args (stmt ++ (b'?' ∷ [])),
          join-add_all (b'?' ∷ []) marks,
          append_assoc stmt,
        )
        refl

  delete_columns-columns :
      (kind : Text → Text) (fs : List (CqlField F V)) (stmt : Text) (a : CqlValue F V)
      (args : List (CqlValue F V))
      → delete_columns kind fs stmt (a ∷ args) (length (a ∷ args)) ≡ (
        stmt ++ add_all behind_and (map (λ f. f.cql_name) (key_columns kind fs)),
        (a ∷ args) ++ map (λ f. f.value) (key_columns kind fs),
      )
  unfolding delete_columns is_key_kind
  delete_columns-columns kind [] stmt a args = rw (append-nil stmt, append-nil args) refl
  delete_columns-columns kind (f ∷ fs) stmt a args =
      let x = f.value in
      let next =
        delete_columns-columns kind fs (stmt ++ behind_and f.cql_name) a (args ++ (x ∷ [])) in
      let skip = delete_columns-columns kind fs stmt a args in
      elim (Bool-cases f.can_set) [
        | inr h ↦ rw h skip
        | inl h ↦ elim (Bool-cases (is_empty f.cql_name)) [
          | inl k ↦ rw (h, k) skip
          | inr k ↦ elim (Bool-cases (is_key_kind (kind f.cql_name))) [
            | inr l ↦ rw (h, k, l) skip
            | inl l ↦
                rw (h, k, l)
                  (rw
                    (
                      length-grows args x,
                      first_test (length args),
                      next,
                      append_assoc stmt,
                      append_assoc args,
                    )
                    refl)
          ]
        ]
      ]

  pub delete_columns_start :
      (kind : Text → Text) (fs : List (CqlField F V)) (stmt : Text)
      → delete_columns kind fs stmt [] 0 ≡ (
        stmt
            ++ join_by
                (codes " AND")
                (map condition_of (map (λ f. f.cql_name) (key_columns kind fs))),
        map (λ f. f.value) (key_columns kind fs),
      )
  unfolding delete_columns is_key_kind
  delete_columns_start kind [] stmt = rw (append-nil stmt) refl
  delete_columns_start kind (f ∷ fs) stmt =
      let next = delete_columns-columns kind fs (stmt ++ condition_of f.cql_name) f.value [] in
      let skip = delete_columns_start kind fs stmt in
      let names = map (λ (g : CqlField F V). g.cql_name) (key_columns kind fs) in
      elim (Bool-cases f.can_set) [
        | inr h ↦ rw h skip
        | inl h ↦ elim (Bool-cases (is_empty f.cql_name)) [
          | inl k ↦ rw (h, k) skip
          | inr k ↦ elim (Bool-cases (is_key_kind (kind f.cql_name))) [
            | inr l ↦ rw (h, k, l) skip
            | inl l ↦
                rw (h, k, l) (rw (next, join_by-add_all f.cql_name names, append_assoc stmt) refl)
          ]
        ]
      ]
