-- ===== src/Cassandra/Paging.antt =====
-- app/models/helper_cassandra.go: the page behind a page.
use goth_scaffold.Prelude.{
  ℕ, zero, suc, ◌^◌, ◌<◌, ◌≡◌, refl, ap, ◌∙◌, arith, is_empty, true, false, List, [], ◌∷◌, ◌++◌,
  keep, length, none, some, ℤ, pos, is_pos,
}
use goth_scaffold.Cassandra.{
  CassandraOption, query_limit, query_next, CassandraQuery, PageCodec, int32_of, operate,
  operate_all, prepare_query, next_id, is_not_next, next_options,
}

-- What is written is read back, and an encoded text is not empty.
pub record IsPageCodec (c : PageCodec) : Type 0 where
  pub decoded : (bytes : List ℕ) → c.decode_string (c.encode_to_string bytes) ≡ bytes
  pub not_empty : (bytes : List ℕ) → is_empty (c.encode_to_string bytes) ≡ false
  pub int32_read : (n : ℤ) (rest : List ℕ) → c.read_int32 (c.write_int32 n ++ rest) ≡ (n, rest)
  pub all_read : (bytes : List ℕ) → c.read_bytes (pos (length bytes)) bytes ≡ bytes

int32_of_small : (n : ℕ) → n < 2 ^ 31 → int32_of n ≡ pos n
unfolding int32_of
int32_of_small n h = ground (arith, h)

is_pos_suc : (n : ℕ) → 0 < n → is_pos (pos n) ≡ true
is_pos_suc zero h = absurd (omega arith)
is_pos_suc (suc n) h = refl

module _ (c : PageCodec) where
  operate_all-append :
      (xs ys : List CassandraOption) (q : CassandraQuery)
      → operate_all c (xs ++ ys) q ≡ operate_all c ys (operate_all c xs q)
  unfolding operate_all
  operate_all-append [] ys q = refl
  operate_all-append (x ∷ xs) ys q = operate_all-append xs ys (operate c x q)

  page_size-operate :
      (o : CassandraOption) (q r : CassandraQuery)
      → q.page_size ≡ r.page_size
      → (operate c o q).page_size ≡ (operate c o r).page_size
  unfolding operate
  page_size-operate (query_limit n) q r h = ground (arith, h)
  page_size-operate (query_next next) q r h = ground (arith, h)

  page_size-operate_all :
      (opts : List CassandraOption) (q r : CassandraQuery)
      → q.page_size ≡ r.page_size
      → (operate_all c (keep is_not_next opts) q).page_size ≡ (operate_all c opts r).page_size
  unfolding operate_all operate
  page_size-operate_all [] q r h = h
  page_size-operate_all (query_limit n ∷ opts) q r h =
      page_size-operate_all opts _ _ (page_size-operate (query_limit n) q r h)
  page_size-operate_all (query_next next ∷ opts) q r h =
      page_size-operate_all opts q (operate c (query_next next) r) (ground (arith, h))

  module _ (is_codec : IsPageCodec c) where
    next_id-state :
        (state : List ℕ)
        → 0 < length state
        → length state < 2 ^ 31
        → next_id c state ≡ c.encode_to_string (c.write_int32 (pos (length state)) ++ state)
    unfolding next_id
    next_id-state state h k = rw (int32_of_small (length state) k, is_pos_suc (length state) h) refl

    operate-query_next :
        (state : List ℕ) (q : CassandraQuery)
        → operate c
            (query_next (c.encode_to_string (c.write_int32 (pos (length state)) ++ state)))
            q
          ≡ record q { page_state = some state; has_page_state = true }
    unfolding operate
    operate-query_next state q =
        let bytes = c.write_int32 (pos (length state)) ++ state in
        rw
          (
            is_codec.not_empty bytes,
            is_codec.decoded bytes,
            is_codec.int32_read (pos (length state)) state,
            is_codec.all_read state,
          )
          refl

    -- If the codec of pages reads back what it writes, the page behind a page is asked for with
    -- the page state that the page ended with, of at least one byte and less than 2^31, and with
    -- the page size of the options that the page was asked for with, in whatever order they stood.
    pub prepare_query-next_options :
        (opts : List CassandraOption) (state : List ℕ)
        → 0 < length state
        → length state < 2 ^ 31
        → let q = prepare_query c (next_options opts (next_id c state)) in
          (q.page_state ≡ some state) × (q.page_size ≡ (prepare_query c opts).page_size)
    unfolding prepare_query operate_all
    prepare_query-next_options opts state h k =
        let start : CassandraQuery = record {
          page_state = none;
          page_size = none;
          has_page_state = false;
        } in
        let before = operate_all c (keep is_not_next opts) start in
        let resumed : prepare_query c (next_options opts (next_id c state))
            ≡ record before { page_state = some state; has_page_state = true } =
          operate_all-append (keep is_not_next opts) (query_next (next_id c state) ∷ []) start
          ∙ ap (λ id. operate c (query_next id) before) (next_id-state state h k)
          ∙ operate-query_next state before in
        (
          ap (λ q. q.page_state) resumed,
          ap (λ q. q.page_size) resumed ∙ page_size-operate_all opts start start refl,
        )
