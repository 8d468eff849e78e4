-- ===== src/Keyspace/Statements.antt =====
-- app/repositories/cassandra_repository.go: what the statements are.
use goth_scaffold.Prelude.{
  Text, codes, List, [], ◌∷◌, ◌++◌, some, ℤ, ◌≡◌, refl, map, join, ap, append_assoc,
}
use goth_scaffold.Cassandra.{join_by}
use goth_scaffold.Keyspace.{CqlValue, CqlField, CqlEntity, save_query, delete_query}
use goth_scaffold.Keyspace.Columns.{
  saved-value_or_now, condition_of, ttl_clause, timestamp_clause, using, add_usage-using, columns,
  key_columns, value_or_now, saved,
}
use goth_scaffold.Keyspace.Loops.{save_columns_start, add_marks_start, delete_columns_start}

module _ {F V : Type 0} where
  map-map :
      {A B : Type 0} (f : CqlField F V → A) (g : A → B) (fs : List (CqlField F V))
      → map g (map f fs) ≡ map (λ x. g (f x)) fs
  map-map f g [] = refl
  map-map f g (x ∷ fs) = ap (λ t. g (f x) ∷ t) (map-map f g fs)

  -- The statement that saves an entity, with its time to live and its timestamp above zero, names its columns, and the one that deletes it its columns
  -- of the partition key and the clustering columns, in their order, with one mark for each. Their
  -- arguments are the values of these columns in the same order, but where an entity is saved, an
  -- updated_at that is the integer zero is replaced by the time of the call.
  pub save_query-delete_query :
      (now : ℤ) (kind : Text → Text) (entity : CqlEntity F V)
      → (save_query now entity ≡ (
        codes "INSERT INTO "
            ++ (entity.table
                ++ (codes "("
                    ++ (join b',' (map (λ f. f.cql_name) (columns entity.entity_fields))
                        ++ (codes ") VALUES ("
                            ++ (join b',' (map (λ f. b'?' ∷ []) (columns entity.entity_fields))
                                ++ (codes ")"
                                    ++ using (
                                        ttl_clause entity.ttl
                                        ++ timestamp_clause entity.timestamp))))))),
        map (value_or_now now) (columns entity.entity_fields),
      ))
        × (delete_query (some kind) entity ≡ (
          codes "DELETE FROM "
              ++ (entity.table
                  ++ (codes " WHERE "
                      ++ join_by (codes " AND") (
                          map
                            (λ f. condition_of f.cql_name)
                            (key_columns kind entity.entity_fields)))),
          map (λ f. f.value) (key_columns kind entity.entity_fields),
        ))
  unfolding save_query delete_query
  save_query-delete_query now kind entity =
      let fs = entity.entity_fields in
      let cols = columns fs in
      let names : Text = join b',' (map (λ (f : CqlField F V). f.cql_name) cols) in
      let opened = codes "INSERT INTO " ++ (entity.table ++ codes "(") in
      (
        rw
            (
              save_columns_start now fs opened,
              add_marks_start (map (saved now) cols) ((opened ++ names) ++ codes ") VALUES ("),
              map-map {B = Text} (saved now) (λ (a : CqlValue F V). b'?' ∷ []) cols,
              saved-value_or_now now cols,
              add_usage-using entity.ttl entity.timestamp,
            )
            (simp append_assoc refl),
        rw
            (
              delete_columns_start kind fs
                  (codes "DELETE FROM " ++ (entity.table ++ codes " WHERE ")),
              map-map (λ (f : CqlField F V). f.cql_name) condition_of (key_columns kind fs),
            )
            (simp append_assoc refl),
      )
