-- ===== src/Db/Keys.antt =====
-- Byte strings: equality, order, prefixes (bytes.Equal, bytes.HasPrefix, bytes.TrimPrefix).
use davinci_node.Common.{
  ℕ, ◌≡◌, refl, Bool, true, false, ◌&&◌, List, [], ◌∷◌, ◌++◌, arith, ltb, ◌==◌, ==-refl, eq_of_==,
  if◌then◌else◌, length, drop, drop-length-append,
}

abbrev pub Key : Type 0
Key = List ℕ

unfoldable pub key_eq : Key → Key → Bool
key_eq [] [] = true
key_eq [] (b ∷ j) = false
key_eq (a ∷ k) [] = false
key_eq (a ∷ k) (b ∷ j) = (a == b) && key_eq k j

-- The lexicographic order in which a database visits its keys.
unfoldable pub key_lt : Key → Key → Bool
key_lt [] [] = false
key_lt [] (b ∷ j) = true
key_lt (a ∷ k) [] = false
key_lt (a ∷ k) (b ∷ j) = let rest = key_lt k j in if a == b then rest else ltb a b

unfoldable pub has_prefix : Key → Key → Bool
has_prefix [] k = true
has_prefix (a ∷ p) [] = false
has_prefix (a ∷ p) (b ∷ k) = (a == b) && has_prefix p k

-- bytes.TrimPrefix: a key without the prefix is returned as it is.
unfoldable pub trim_prefix : Key → Key → Key
unfolding has_prefix
trim_prefix p k = if has_prefix p k then drop (length p) k else k

pub key_eq_refl : (k : Key) → key_eq k k ≡ true
unfolding key_eq
key_eq_refl [] = refl
key_eq_refl (a ∷ k) = ground (arith, ==-refl a, key_eq_refl k)

pub eq_of_key_eq : (k j : Key) → key_eq k j ≡ true → k ≡ j
unfolding key_eq
eq_of_key_eq [] [] h = refl
eq_of_key_eq [] (b ∷ j) h = ground arith
eq_of_key_eq (a ∷ k) [] h = ground arith
eq_of_key_eq (a ∷ k) (b ∷ j) h = ground (arith, eq_of_key_eq k j, eq_of_== a b)

-- Two keys under one prefix are equal exactly when what follows the prefix is.
pub key_eq-append : (p k j : Key) → key_eq (p ++ k) (p ++ j) ≡ key_eq k j
unfolding key_eq
key_eq-append [] k j = refl
key_eq-append (a ∷ p) k j = ground (arith, key_eq-append p k j, ==-refl a)

pub has_prefix-append : (p k : Key) → has_prefix p (p ++ k) ≡ true
unfolding has_prefix
has_prefix-append [] k = refl
has_prefix-append (a ∷ p) k = ground (arith, has_prefix-append p k, ==-refl a)

pub append-drop_of_has_prefix : (p k : Key) → has_prefix p k ≡ true → p ++ drop (length p) k ≡ k
unfolding has_prefix
append-drop_of_has_prefix [] k h = refl
append-drop_of_has_prefix (a ∷ p) [] h = ground arith
append-drop_of_has_prefix (a ∷ p) (b ∷ k) h =
    ground (arith, eq_of_== a b, append-drop_of_has_prefix p k)

pub trim_prefix-append : (p k : Key) → trim_prefix p (p ++ k) ≡ k
unfolding trim_prefix
trim_prefix-append p k = rw has_prefix-append (drop-length-append p k)
