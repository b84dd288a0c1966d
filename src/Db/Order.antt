-- ===== src/Db/Order.antt =====
-- Set and Delete keep the keys of a table in strictly ascending order, the order in which Iterate
-- promises to visit them (db/interface.go).
use davinci_node.Common.{◌≡◌, refl, Bool, true, false, ◌&&◌, [], ◌∷◌, arith, none}
use davinci_node.Db.Keys.{Key, key_eq, key_lt, eq_of_key_eq}
use davinci_node.Db.Tables.{Table, lookup, insert, delete}

pub key_lt_irrefl : (k : Key) → key_lt k k ≡ false
unfolding key_lt
key_lt_irrefl [] = refl
key_lt_irrefl (a ∷ k) = ground (arith, key_lt_irrefl k)

pub key_lt_trans : (i j k : Key) → key_lt i j ≡ true → key_lt j k ≡ true → key_lt i k ≡ true
unfolding key_lt
key_lt_trans [] [] k h g = ground arith
key_lt_trans [] (b ∷ j) [] h g = ground arith
key_lt_trans [] (b ∷ j) (c ∷ k) h g = refl
key_lt_trans (a ∷ i) [] k h g = ground arith
key_lt_trans (a ∷ i) (b ∷ j) [] h g = ground arith
key_lt_trans (a ∷ i) (b ∷ j) (c ∷ k) h g = ground (arith, key_lt_trans i j k)

-- Two keys of which none is less are equal.
pub key_lt_total : (i j : Key) → key_eq i j ≡ false → key_lt j i ≡ false → key_lt i j ≡ true
unfolding key_lt key_eq
key_lt_total [] [] h g = ground arith
key_lt_total [] (b ∷ j) h g = refl
key_lt_total (a ∷ i) [] h g = ground arith
key_lt_total (a ∷ i) (b ∷ j) h g = ground (arith, key_lt_total i j)

module _ {ℓ} {V : Type ℓ} where
  -- Every key of the table is above `k`.
  abbrev pub IsAbove : Key → Table V → Type 0
  IsAbove k [] = Unit
  IsAbove k ((j, v) ∷ m) = (key_lt k j ≡ true) × IsAbove k m

  abbrev pub IsOrdered : Table V → Type 0
  IsOrdered [] = Unit
  IsOrdered ((k, v) ∷ m) = IsAbove k m × IsOrdered m

  pub IsAbove-insert :
      (i k : Key) (v : V) (m : Table V) → key_lt i k ≡ true → IsAbove i m → IsAbove i (insert k v m)
  unfolding insert
  IsAbove-insert i k v [] h a = (h, tt)
  IsAbove-insert i k v ((j, w) ∷ m) h a = ground (arith, IsAbove-insert i k v m h a.1)

  pub IsAbove-delete : (i k : Key) (m : Table V) → IsAbove i m → IsAbove i (delete k m)
  unfolding delete
  IsAbove-delete i k [] a = tt
  IsAbove-delete i k ((j, w) ∷ m) a = ground (arith, IsAbove-delete i k m a.1)

  pub IsAbove-trans : (i j : Key) (m : Table V) → key_lt i j ≡ true → IsAbove j m → IsAbove i m
  IsAbove-trans i j [] h a = tt
  IsAbove-trans i j ((k, w) ∷ m) h a = (key_lt_trans i j k h a.0, IsAbove-trans i j m h a.1)

  -- A key below all keys of a table is not in it.
  pub lookup_below : (k : Key) (m : Table V) → IsAbove k m → lookup k m ≡ none
  unfolding lookup
  lookup_below k [] a = refl
  lookup_below k ((j, w) ∷ m) a =
      ground (arith, lookup_below k m a.1, key_lt_irrefl k, eq_of_key_eq j k)

module _ {ℓ} {V : Type ℓ} where
  -- Set keeps the order.
  pub insert-IsOrdered : (k : Key) (v : V) (m : Table V) → IsOrdered m → IsOrdered (insert k v m)
  unfolding insert
  insert-IsOrdered k v [] o = (tt, tt)
  insert-IsOrdered k v ((j, w) ∷ m) o = ground (
    arith,
    eq_of_key_eq j k,
    key_lt_total j k,
    IsAbove-trans k j m,
    IsAbove-insert j k v m,
    insert-IsOrdered k v m o.1,
  )

  -- Delete keeps the order.
  pub delete-IsOrdered : (k : Key) (m : Table V) → IsOrdered m → IsOrdered (delete k m)
  unfolding delete
  delete-IsOrdered k [] o = tt
  delete-IsOrdered k ((j, w) ∷ m) o =
      ground (arith, IsAbove-delete j k m o.0, delete-IsOrdered k m o.1)

module _ {ℓ} {V : Type ℓ} where
  -- The keys in ascending order, as a test.
  unfoldable pub is_above : Key → Table V → Bool
  is_above k [] = true
  is_above k ((j, v) ∷ m) = key_lt k j && is_above k m

  unfoldable pub is_ordered : Table V → Bool
  unfolding is_above
  is_ordered [] = true
  is_ordered ((k, v) ∷ m) = is_above k m && is_ordered m

  is_above-IsAbove : (k : Key) (m : Table V) → is_above k m ≡ true → IsAbove k m
  unfolding is_above
  is_above-IsAbove k [] h = tt
  is_above-IsAbove k ((j, v) ∷ m) h = ground (arith, is_above-IsAbove k m)

  pub is_ordered-IsOrdered : (m : Table V) → is_ordered m ≡ true → IsOrdered m
  unfolding is_ordered
  is_ordered-IsOrdered [] h = tt
  is_ordered-IsOrdered ((k, v) ∷ m) h = ground (arith, is_above-IsAbove k m, is_ordered-IsOrdered m)

  IsAbove-is_above : (k : Key) (m : Table V) → IsAbove k m → is_above k m ≡ true
  unfolding is_above
  IsAbove-is_above k [] h = refl
  IsAbove-is_above k ((j, v) ∷ m) h = ground (arith, IsAbove-is_above k m h.1)

  pub IsOrdered-is_ordered : (m : Table V) → IsOrdered m → is_ordered m ≡ true
  unfolding is_ordered
  IsOrdered-is_ordered [] h = refl
  IsOrdered-is_ordered ((k, v) ∷ m) h =
      ground (arith, IsAbove-is_above k m h.0, IsOrdered-is_ordered m h.1)
