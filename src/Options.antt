-- ===== src/Options.antt =====
-- app/models/helper_repository.go: the query options for pages and for columns.
use goth_scaffold.Prelude.{
  ℕ, zero, suc, ◌≤◌, ◌≡◌, refl, ◌∙◌, ap, ap₂, Bool-cases, inl, inr, Text, codes, Bool, true, false,
  not, ◌&&◌, ◌||◌, ◌==◌, if◌then◌else◌, List, [], ◌∷◌, any, keep, take, drop, length, Option, none,
  some, ℤ, pos, negsuc, is_pos, arith,
}

-- What the options use of `*gorm.DB`.
pub record Pager : Type 1 where
  pub DB : Type 0
  pub limit : ℤ → DB → DB
  pub offset : ℤ → DB → DB

-- `math.MaxInt32`
abbrev pub max_int32 : ℤ
max_int32 = pos 2147483647

-- `PaginationOpt`
unfoldable pub pagination_opt : (g : Pager) → ℤ → ℤ → g.DB → g.DB
pagination_opt g offset limit db =
    let unlimited = if is_pos limit then db else g.limit max_int32 db in
    let moved = if is_pos offset then g.offset offset unlimited else db in
    if is_pos limit then g.limit limit moved else moved

-- `LimitOpt`
unfoldable pub limit_opt : (g : Pager) → ℤ → g.DB → g.DB
limit_opt g limit db = if is_pos limit then g.limit limit db else db

-- `strings.EqualFold(c, "id")`; of the letters of "id" only the ASCII capitals fold to them.
unfoldable pub is_id : Text → Bool
is_id (i ∷ d ∷ []) = (i == b'i' || i == b'I') && (d == b'd' || d == b'D')
is_id _ = false

-- `_EnsurePrimaryKey`
unfoldable pub ensure_primary_key : List Text → List Text
unfolding is_id
ensure_primary_key columns = if any is_id columns then columns else codes "id" ∷ columns

-- The columns hold the primary key, all other columns in their order, and adding it again changes
-- nothing.
pub ensure_primary_key_lem :
    (columns : List Text)
    → (any is_id (ensure_primary_key columns) ≡ true)
      × (keep (λ c. not (is_id c)) (ensure_primary_key columns) ≡ keep (λ c. not (is_id c)) columns)
      × (ensure_primary_key (ensure_primary_key columns) ≡ ensure_primary_key columns)
unfolding ensure_primary_key is_id
ensure_primary_key_lem columns = ground arith

-- A query selects a window of the rows: GORM keeps the last limit and the last offset.
pub record Windows (g : Pager) : Type 0 where
  pub limit_of : g.DB → Option ℤ
  pub offset_of : g.DB → ℤ
  pub limit-limit : (n : ℤ) (db : g.DB) → limit_of (g.limit n db) ≡ some n
  pub limit-offset : (n : ℤ) (db : g.DB) → limit_of (g.offset n db) ≡ limit_of db
  pub offset-limit : (n : ℤ) (db : g.DB) → offset_of (g.limit n db) ≡ offset_of db
  pub offset-offset : (n : ℤ) (db : g.DB) → offset_of (g.offset n db) ≡ n

abbrev pub take_limit : {T : Type 0} → Option ℤ → List T → List T
take_limit none xs = xs
take_limit (some (pos n)) xs = take n xs
take_limit (some (negsuc n)) xs = xs

abbrev pub drop_offset : {T : Type 0} → ℤ → List T → List T
drop_offset (pos n) xs = drop n xs
drop_offset (negsuc n) xs = xs

take_all : {T : Type 0} (n : ℕ) (xs : List T) → length xs ≤ n → take n xs ≡ xs
take_all zero [] h = refl
take_all zero (x ∷ xs) h = absurd (omega arith)
take_all (suc n) [] h = refl
take_all (suc n) (x ∷ xs) h = ap (λ t. x ∷ t) (take_all n xs (omega arith))

length-drop_le : {T : Type 0} (n : ℕ) (xs : List T) → length (drop n xs) ≤ length xs
length-drop_le zero xs = omega arith
length-drop_le (suc n) [] = omega arith
length-drop_le (suc n) (x ∷ xs) = omega (arith, length-drop_le n xs)

module _ {T : Type 0} (g : Pager) (w : Windows g) where
  -- The rows that a query selects
  abbrev pub selected : g.DB → List T → List T
  selected db xs = take_limit (w.limit_of db) (drop_offset (w.offset_of db) xs)

  -- The rows of a page: behind the offset, where it is positive, at most as many as the limit, where
  -- that is positive
  abbrev pub page : ℤ → ℤ → List T → List T
  page offset limit xs =
      let behind = if is_pos offset then drop_offset offset xs else xs in
      if is_pos limit then take_limit (some limit) behind else behind

  selected_of :
      (db : g.DB) (l : Option ℤ) (o : ℤ) (xs : List T)
      → w.limit_of db ≡ l
      → w.offset_of db ≡ o
      → selected db xs ≡ take_limit l (drop_offset o xs)
  selected_of db l o xs h k = ap₂ (λ l' o'. take_limit l' (drop_offset o' xs)) h k

  behind_small :
      (o : ℤ) (xs : List T)
      → length xs ≤ 2147483647
      → take_limit (some max_int32) (drop_offset o xs) ≡ drop_offset o xs
  behind_small (pos n) xs h = take_all 2147483647 (drop n xs) (omega (arith, length-drop_le n xs))
  behind_small (negsuc n) xs h = take_all 2147483647 xs h

  -- On a query with no limit and no offset and of at most MaxInt32 rows, `PaginationOpt` selects the
  -- page, for every offset and limit, negative ones included.
  pub pagination_opt-page :
      (offset limit : ℤ) (db : g.DB) (xs : List T)
      → w.limit_of db ≡ none
      → w.offset_of db ≡ pos 0
      → length xs ≤ 2147483647
      → selected (pagination_opt g offset limit db) xs ≡ page offset limit xs
  unfolding pagination_opt
  pagination_opt-page offset limit db xs h k small = elim (Bool-cases (is_pos offset)) [
    | inl o ↦ elim (Bool-cases (is_pos limit)) [
      | inl l ↦
          rw (o, l, pagination_opt)
            (selected_of (g.limit limit (g.offset offset db)) (some limit) offset xs
              (w.limit-limit limit (g.offset offset db))
              (w.offset-limit limit (g.offset offset db) ∙ w.offset-offset offset db))
      | inr l ↦
          rw (o, l, pagination_opt)
            (selected_of (g.offset offset (g.limit max_int32 db)) (some max_int32) offset xs
                (w.limit-offset offset (g.limit max_int32 db) ∙ w.limit-limit max_int32 db)
                (w.offset-offset offset (g.limit max_int32 db))
              ∙ behind_small offset xs small)
    ]
    | inr o ↦ elim (Bool-cases (is_pos limit)) [
      | inl l ↦
          rw (o, l, pagination_opt)
            (selected_of (g.limit limit db) (some limit) (pos 0) xs (w.limit-limit limit db)
              (w.offset-limit limit db ∙ k))
      | inr l ↦ rw (o, l, pagination_opt) (selected_of db none (pos 0) xs h k)
    ]
  ]

-- Where the offset is not positive, `PaginationOpt` does to a query what `LimitOpt` does.
pub pagination_opt-limit_opt :
    (g : Pager) (offset limit : ℤ) (db : g.DB)
    → is_pos offset ≡ false
    → pagination_opt g offset limit db ≡ limit_opt g limit db
unfolding pagination_opt limit_opt
pagination_opt-limit_opt g offset limit db h = rw h refl
