-- ===== src/Lazy/Batch.antt =====
-- app/models/helper_lazy.go: what the maps of a batch load hold.
use goth_scaffold.Prelude.{
  ◌≡◌, refl, sym, ap, ap₂, ◌∙◌, ◌↔◌, Bool, true, false, ◌||◌, if◌then◌else◌, List, [], ◌∷◌, ◌++◌,
  map, any, keep, append_assoc, append-nil, Option, none, some, arith, if_rule,
}
use goth_scaffold.Lazy.{
  has_key, add_keyed, add_wanted, add_child, group_by_key, group_of, wanted_keys,
}

pub map-map :
    {A B D : Type 0} (f : A → B) (g : B → D) (xs : List A)
    → map g (map f xs) ≡ map (λ x. g (f x)) xs
map-map f g [] = refl
map-map f g (x ∷ xs) = ap (λ t. g (f x) ∷ t) (map-map f g xs)

pub map-id : {A : Type 0} (xs : List A) → map (λ x. x) xs ≡ xs
map-id [] = refl
map-id (x ∷ xs) = ap (λ t. x ∷ t) (map-id xs)

-- Keys are equal exactly if the comparison says so.
pub record IsKey {K : Type 0} (same : K → K → Bool) : Type 0 where
  pub same_iff : (a b : K) → (same a b ≡ true) ↔ (a ≡ b)

module _ {K : Type 0} (same : K → K → Bool) where
  -- The child's key is this one, or one of these.
  abbrev pub belongs_to : K → Option K → Bool
  belongs_to k none = false
  belongs_to k (some j) = same k j

  abbrev pub in_keys : List K → Option K → Bool
  in_keys keys none = false
  in_keys keys (some j) = has_key same j keys

module _ {K : Type 0} (same : K → K → Bool) (key : IsKey same) where
  module _ {C : Type 0} where
    group_of-add_child :
        (k j : K) (c : C) (groups : List (K × List C))
        → group_of same k (add_child same j c groups)
          ≡ (if same k j then group_of same k groups ++ (c ∷ []) else group_of same k groups)
    unfolding group_of add_child
    group_of-add_child k j c [] = ground arith
    group_of-add_child k j c ((i, group) ∷ groups) = ground (
      arith,
      group_of-add_child k j c groups,
      key.same_iff k j,
      key.same_iff j i,
      key.same_iff k i,
    )

    group_of-add_keyed :
        (k : K) (o : Option K) (c : C) (groups : List (K × List C)) (rest : List C)
        → group_of same k (add_keyed same o c groups) ++ rest
          ≡ group_of same k groups ++ (if belongs_to same k o then c ∷ rest else rest)
    group_of-add_keyed k none c groups rest = refl
    group_of-add_keyed k (some j) c groups rest =
        ap (λ t. t ++ rest) (group_of-add_child k j c groups)
        ∙ if_rule (λ t. t ++ rest ≡ group_of same k groups ++ (if same k j then c ∷ rest else rest))
            (same k j) (λ e. rw e (append_assoc (group_of same k groups) (c ∷ []) rest))
            (λ e. rw e refl)

    -- The group of a key is what it was, and then the children that belong to the key, in order.
    pub group_of-group_by_key :
        (key_of : C → Option K) (k : K) (children : List C) (groups : List (K × List C))
        → group_of same k (group_by_key same key_of children groups)
          ≡ group_of same k groups ++ keep (λ c. belongs_to same k (key_of c)) children
    unfolding group_by_key
    group_of-group_by_key key_of k [] groups = sym (append-nil (group_of same k groups))
    group_of-group_by_key key_of k (c ∷ children) groups =
        group_of-group_by_key key_of k children (add_keyed same (key_of c) c groups)
        ∙ group_of-add_keyed k (key_of c) c groups
            (keep (λ c'. belongs_to same k (key_of c')) children)

  has_key-append :
      (k : K) (xs ys : List K)
      → has_key same k (xs ++ ys) ≡ (has_key same k xs || has_key same k ys)
  has_key-append k [] ys = refl
  has_key-append k (x ∷ xs) ys = ground (arith, has_key-append k xs ys)

  has_key-add_wanted :
      (k : K) (o : Option K) (keys : List K)
      → has_key same k (add_wanted same o keys) ≡ (belongs_to same k o || has_key same k keys)
  has_key-add_wanted k none keys = refl
  has_key-add_wanted k (some j) keys =
      ground (arith, has_key-append k keys (j ∷ []), key.same_iff k j)

  module _ {P : Type 0} (wanted : P → Option K) where
    pub has_key-wanted_keys :
        (k : K) (items : List P) (keys : List K)
        → has_key same k (wanted_keys same wanted items keys)
          ≡ (any (λ p. belongs_to same k (wanted p)) items || has_key same k keys)
    unfolding wanted_keys
    has_key-wanted_keys k [] keys = refl
    has_key-wanted_keys k (p ∷ items) keys = ground (
      arith,
      has_key-wanted_keys k items (add_wanted same (wanted p) keys),
      has_key-add_wanted k (wanted p) keys,
    )

    -- Every key of the records is among these.
    abbrev pub Covers : List P → List K → Type 0
    Covers items keys =
        (k : K) → any (λ p. belongs_to same k (wanted p)) items ≡ true → has_key same k keys ≡ true

    pub wanted_keys-Covers : (items : List P) → Covers items (wanted_keys same wanted items [])
    wanted_keys-Covers items k h = has_key-wanted_keys k items [] ∙ ground arith

    -- Two functions that agree on the records whose key is among these do the same to all records.
    pub map_covered :
        {Q : Type 0} (f g : P → Q) (items : List P) (keys : List K)
        → Covers items keys
        → ((p : P) → ((k : K) → wanted p ≡ some k → has_key same k keys ≡ true) → f p ≡ g p)
        → map f items ≡ map g items
    map_covered f g [] keys covers h = refl
    map_covered f g (p ∷ items) keys covers h =
        ap₂ (λ x xs. x ∷ xs) (h p (λ k e. covers k (rw e (ground (arith, key.same_iff k k)))))
          (map_covered f g items keys (λ k e. covers k (ground arith)) h)
