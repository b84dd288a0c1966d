-- ===== src/Db/Tables.antt =====
-- One namespace of the database: Get, Set, Delete and Iterate.
use davinci_node.Common.{
  ◌≡◌, refl, Bool, true, false, Option, none, some, List, [], ◌∷◌, ◌++◌, arith, if◌then◌else◌,
  length, drop,
}
use davinci_node.Db.Keys.{Key, key_eq, key_lt, has_prefix, trim_prefix, key_eq_refl, eq_of_key_eq}

-- The entries in the order of their keys.
abbrev pub Table {ℓ} : Type ℓ → Type ℓ
Table V = List (Key × V)

-- The key that a callback of PrefixedReader.Iterate sees for the entry `k` of the namespace `space`.
-- PebbleDB hands out what follows the whole prefix of the iteration (`strips`), the other databases
-- hand out the whole key; the reader then trims its own prefix once more.
unfoldable pub seen_key : Bool → Key → Key → Key → Key
unfolding trim_prefix
seen_key strips space prefix k =
    trim_prefix space (if strips then drop (length prefix) k else space ++ k)

module _ {ℓ} {V : Type ℓ} where
  unfoldable pub lookup : Key → Table V → Option V
  lookup k [] = none
  lookup k ((j, v) ∷ m) = if key_eq j k then some v else lookup k m

  unfoldable pub insert : Key → V → Table V → Table V
  insert k v [] = (k, v) ∷ []
  insert k v ((j, w) ∷ m) =
      let rest = insert k v m in
      if key_eq j k then (k, v) ∷ m else if key_lt k j then (k, v) ∷ (j, w) ∷ m else (j, w) ∷ rest

  unfoldable pub delete : Key → Table V → Table V
  delete k [] = []
  delete k ((j, v) ∷ m) = let rest = delete k m in if key_eq j k then rest else (j, v) ∷ rest

  -- The entries that a callback sees when it never stops the iteration.
  unfoldable pub iterate : Bool → Key → Key → Table V → List (Key × V)
  unfolding seen_key has_prefix
  iterate strips space prefix [] = []
  iterate strips space prefix ((k, v) ∷ m) =
      let rest = iterate strips space prefix m in
      if has_prefix prefix k then (seen_key strips space prefix k, v) ∷ rest else rest

  unfoldable pub is_member : Key → Table V → Bool
  is_member k m = elim (lookup k m) [ none ↦ false | some v ↦ true ]

module _ {ℓ} {V : Type ℓ} where
  pub lookup-insert :
      (j k : Key) (v : V) (m : Table V)
      → lookup j (insert k v m) ≡ (if key_eq k j then some v else lookup j m)
  unfolding lookup insert
  lookup-insert j k v [] = refl
  lookup-insert j k v ((i, w) ∷ m) = ground (
    arith,
    lookup-insert j k v m,
    eq_of_key_eq i k,
    eq_of_key_eq i j,
    eq_of_key_eq k j,
    key_eq_refl j,
    key_eq_refl k,
  )

  pub lookup-delete :
      (j k : Key) (m : Table V) → lookup j (delete k m) ≡ (if key_eq k j then none else lookup j m)
  unfolding lookup delete
  lookup-delete j k [] = ground arith
  lookup-delete j k ((i, w) ∷ m) = ground (
    arith,
    lookup-delete j k m,
    eq_of_key_eq i k,
    eq_of_key_eq i j,
    eq_of_key_eq k j,
    key_eq_refl j,
    key_eq_refl k,
  )

  pub lookup-insert_self : (k : Key) (v : V) (m : Table V) → lookup k (insert k v m) ≡ some v
  lookup-insert_self k v m = rw (lookup-insert, key_eq_refl)

module _ {ℓ} {V : Type ℓ} where
  pub delete_absent : (k : Key) (m : Table V) → lookup k m ≡ none → delete k m ≡ m
  unfolding lookup delete
  delete_absent k [] h = refl
  delete_absent k ((j, v) ∷ m) h = ground (arith, delete_absent k m)

  -- Taking back an entry that was not there.
  pub delete-insert :
      (k : Key) (v : V) (m : Table V) → lookup k m ≡ none → delete k (insert k v m) ≡ m
  unfolding lookup delete insert
  delete-insert k v [] h = ground (arith, key_eq_refl k)
  delete-insert k v ((j, w) ∷ m) h =
      ground (arith, delete-insert k v m, delete_absent k m, key_eq_refl k)

  pub is_member-insert :
      (j k : Key) (v : V) (m : Table V)
      → is_member j (insert k v m) ≡ (if key_eq k j then true else is_member j m)
  unfolding is_member
  is_member-insert j k v m = ground (arith, lookup-insert j k v m)

  pub is_member-delete :
      (j k : Key) (m : Table V)
      → is_member j (delete k m) ≡ (if key_eq k j then false else is_member j m)
  unfolding is_member
  is_member-delete j k m = ground (arith, lookup-delete j k m)

  pub lookup-eq-none : (k : Key) (m : Table V) → is_member k m ≡ false → lookup k m ≡ none
  unfolding is_member
  lookup-eq-none k m h = ground arith
