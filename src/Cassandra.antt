-- ===== src/Cassandra.antt =====
-- app/models/helper_cassandra.go: the queries of a Cassandra table, their options, and the id of the next
-- page. A query goes over the conditions of its map in the order of the list.
pub mod Paging
use goth_scaffold.Prelude.{
  ℕ, ◌-◌, ◌%◌, ◌^◌, ltb, Text, codes, is_empty, join, Bool, true, false, not, if◌then◌else◌, List,
  [], ◌∷◌, ◌++◌, map, keep, length, Option, none, some, ℤ, pos, neg, is_pos,
}

-- `CassandraQueryLimit` and `CassandraQueryNext`
pub data CassandraOption : Type 0 where
  query_limit : ℤ → CassandraOption
  query_next : Text → CassandraOption

-- `gocql.Query`, with whether the context says that it has a page state
pub record CassandraQuery : Type 0 where
  pub page_state : Option (List ℕ)
  pub page_size : Option ℤ
  pub has_page_state : Bool

-- The encoding of ids, and the byte buffers: what they write and read
pub record PageCodec : Type 0 where
  pub encode_to_string : List ℕ → Text
  pub decode_string : Text → List ℕ
  pub write_int32 : ℤ → List ℕ
  pub read_int32 : List ℕ → ℤ × List ℕ
  pub read_bytes : ℤ → List ℕ → List ℕ

-- `int32(n)`
unfoldable pub int32_of : ℕ → ℤ
int32_of n = if ltb (n % 2 ^ 32) (2 ^ 31) then pos (n % 2 ^ 32) else neg (2 ^ 32 - n % 2 ^ 32)

module _ (c : PageCodec) where
  -- `Operate`
  unfoldable pub operate : CassandraOption → CassandraQuery → CassandraQuery
  operate (query_limit n) q =
      if is_pos n
      then record q {
        page_state = if q.has_page_state then q.page_state else none;
        page_size = some n;
      }
      else q
  operate (query_next next) q =
      let (l, rest) = c.read_int32 (c.decode_string next) in
      if is_empty next
      then q
      else record q { page_state = some (c.read_bytes l rest); has_page_state = true }

  unfoldable pub operate_all : List CassandraOption → CassandraQuery → CassandraQuery
  unfolding operate
  operate_all [] q = q
  operate_all (o ∷ opts) q = operate_all opts (operate o q)

  -- `_PrepareQuery`
  unfoldable pub prepare_query : List CassandraOption → CassandraQuery
  unfolding operate_all
  prepare_query opts =
      operate_all opts (record { page_state = none; page_size = none; has_page_state = false })

  -- The `NextId` of a result, by the iterator's page state
  unfoldable pub next_id : List ℕ → Text
  unfolding int32_of
  next_id state =
      let l = int32_of (length state) in
      if is_pos l then c.encode_to_string (c.write_int32 l ++ state) else []

abbrev pub is_not_next : CassandraOption → Bool
is_not_next (query_limit n) = true
is_not_next (query_next next) = false

-- The options with which `Next` asks for the page behind
abbrev pub next_options : List CassandraOption → Text → List CassandraOption
next_options opts next = keep is_not_next opts ++ query_next next ∷ []

-- `CassandraQueryBuilder`
pub record QueryBuilder (A : Type 0) : Type 0 where
  pub table_name : Text
  pub fields : List Text
  pub conditions : List (Text × A)
  pub orders : List Text
  pub limit_count : ℤ
  pub next_page : Text

abbrev pub join_by : Text → List Text → Text
join_by sep [] = []
join_by sep (p ∷ []) = p
join_by sep (p ∷ q ∷ ps) = p ++ (sep ++ join_by sep (q ∷ ps))

abbrev pub columns_of : List Text → Text
columns_of [] = codes "*"
columns_of (f ∷ fs) = join b',' (f ∷ fs)

abbrev pub order_of : List Text → Text
order_of [] = []
order_of (o ∷ os) = codes " ORDER BY " ++ join b',' (o ∷ os)

module _ {A : Type 0} where
  abbrev pub where_of : List (Text × A) → Text
  where_of [] = []
  where_of (k ∷ ks) = codes " WHERE " ++ join_by (codes " AND ") (map (λ x. x.0) (k ∷ ks))

  -- `_BuildQuery`
  unfoldable pub build_query : QueryBuilder A → Text × List A
  build_query b = (
    codes "SELECT "
        ++ (columns_of b.fields
            ++ (codes " FROM " ++ (b.table_name ++ (where_of b.conditions ++ order_of b.orders)))),
    map (λ x. x.1) b.conditions,
  )

  -- The options of `Fetch`
  unfoldable pub fetch_options : QueryBuilder A → List CassandraOption → List CassandraOption
  fetch_options b query_options =
      (if is_pos b.limit_count then query_limit b.limit_count ∷ [] else [])
      ++ ((if is_empty b.next_page then [] else query_next b.next_page ∷ []) ++ query_options)
