-- ===== src/Storage/Verified/Pulled.antt =====
-- What the iterations over a process hand out, and what PullVerifiedBallots picks of it.
use davinci_node.Common.{
  ℕ, ◌+◌, ◌≤◌, ◌≡◌, refl, Bool, true, false, not, ◌||◌, ◌&&◌, some, List, [], ◌∷◌, arith, length,
}
use davinci_node.Db.{
  Key, Table, lookup, iterate, seen_key, has_prefix, key_eq, trim_prefix-append, key_eq_refl,
  eq_of_key_eq,
}
use davinci_node.Db.Order.{IsAbove, IsOrdered, key_lt_irrefl}
use davinci_node.Storage.Types.{ProcessId, encoded, garbage, VerifiedBallot}
use davinci_node.Storage.Store.{Store}
use davinci_node.Storage.Reservations.{verified_queue, is_reserved}
use davinci_node.Storage.Verified.{
  full_key, with_full_keys, VerifiedEntries, contains, pull_entries, keys_of_pulled,
  ballots_of_pulled,
}

-- Every key under the process is whole once its process ID is put back: the iteration handed it out
-- whole, or without its prefix and nothing more.
unfoldable pub hands_out_whole {ℓ} : {V : Type ℓ} → Bool → Key → ProcessId → Table V → Bool
unfolding full_key seen_key
hands_out_whole strips space p [] = true
hands_out_whole strips space p ((k, v) ∷ m) =
    (not (has_prefix p k) || key_eq (full_key p (seen_key strips space p k)) k)
    && hands_out_whole strips space p m

-- A database that hands out whole keys.
pub hands_out_whole-false {ℓ} :
    {V : Type ℓ} (space : Key) (p : ProcessId) (m : Table V)
    → hands_out_whole false space p m ≡ true
unfolding hands_out_whole full_key seen_key
hands_out_whole-false space p [] = refl
hands_out_whole-false space p ((k, v) ∷ m) =
    ground (arith, hands_out_whole-false space p m, trim_prefix-append space k, key_eq_refl k)

-- The entries that the iteration hands out are entries of the table, in its order.
module _ {ℓ} {V : Type ℓ} (strips : Bool) (space : Key) (p : ProcessId) where
  abbrev pub entries : Table V → Table V
  entries m = with_full_keys p (iterate strips space p m)

  entries-IsAbove :
      (i : Key) (m : Table V)
      → hands_out_whole strips space p m ≡ true
      → IsAbove i m
      → IsAbove i (entries m)
  unfolding iterate with_full_keys full_key hands_out_whole
  entries-IsAbove i [] w a = tt
  entries-IsAbove i ((k, v) ∷ m) w a =
      ground
        (arith, entries-IsAbove i m, a, eq_of_key_eq (full_key p (seen_key strips space p k)) k)

  pub entries-IsOrdered :
      (m : Table V) → hands_out_whole strips space p m ≡ true → IsOrdered m → IsOrdered (entries m)
  unfolding iterate with_full_keys full_key hands_out_whole
  entries-IsOrdered [] w o = tt
  entries-IsOrdered ((k, v) ∷ m) w o = ground (
    arith,
    entries-IsOrdered m,
    entries-IsAbove k m,
    o,
    eq_of_key_eq (full_key p (seen_key strips space p k)) k,
  )

module _ {ℓ} {V : Type ℓ} where
  -- Every entry of the list is what the table holds under its key.
  abbrev pub IsStored : Table V → Table V → Type ℓ
  IsStored [] m = Unit
  IsStored ((k, v) ∷ es) m = (lookup k m ≡ some v) × IsStored es m

  IsStored-cons :
      (j : Key) (w : V) (es m : Table V) → IsAbove j es → IsStored es m → IsStored es ((j, w) ∷ m)
  unfolding lookup
  IsStored-cons j w [] m a h = tt
  IsStored-cons j w ((k, v) ∷ es) m a h =
      (ground (arith, h.0, a.0, eq_of_key_eq j k, key_lt_irrefl j), IsStored-cons j w es m a.1 h.1)

  pub entries-IsStored :
      (strips : Bool) (space : Key) (p : ProcessId) (m : Table V)
      → hands_out_whole strips space p m ≡ true
      → IsOrdered m
      → IsStored (entries strips space p m) m
  unfolding iterate with_full_keys full_key lookup hands_out_whole
  entries-IsStored strips space p [] w o = tt
  entries-IsStored strips space p ((k, v) ∷ m) w o = ground (
    arith,
    IsStored-cons k v (entries strips space p m) m,
    entries-IsAbove strips space p k m,
    entries-IsStored strips space p m,
    o,
    eq_of_key_eq (full_key p (seen_key strips space p k)) k,
    key_eq_refl k,
  )

-- The addresses of the ballots differ from each other and from those seen.
abbrev pub AddressesDiffer : List ℕ → List VerifiedBallot → Type 0
AddressesDiffer seen [] = Unit
AddressesDiffer seen (vb ∷ vbs) =
    (contains vb.address seen ≡ false) × AddressesDiffer (vb.address ∷ seen) vbs

-- Each ballot is the verified ballot under the key beside it, which nobody holds.
abbrev pub AreFree : Store → List Key → List VerifiedBallot → Type 0
AreFree s [] [] = Unit
AreFree s (k ∷ ks) (vb ∷ vbs) =
    (lookup k s.verified ≡ some (encoded vb))
    × (is_reserved verified_queue k s ≡ false)
    × AreFree s ks vbs
AreFree s _ _ = ⊥

module _ (s : Store) (n : ℕ) where
  pub pull_entries-length :
      (es : VerifiedEntries) (count : ℕ) (seen : List ℕ)
      → count ≤ n
      → length (pull_entries s n es count seen) + count ≤ n
  unfolding pull_entries
  pull_entries-length [] count seen h = omega arith
  pull_entries-length ((k, garbage) ∷ es) count seen h =
      ground (arith, pull_entries-length es count seen h)
  pull_entries-length ((k, encoded vb) ∷ es) count seen h = ground (
    arith,
    pull_entries-length es count seen h,
    pull_entries-length es (count + 1) (vb.address ∷ seen),
  )

  pub pull_entries-AddressesDiffer :
      (es : VerifiedEntries) (count : ℕ) (seen : List ℕ)
      → AddressesDiffer seen (ballots_of_pulled (pull_entries s n es count seen))
  unfolding pull_entries ballots_of_pulled
  pull_entries-AddressesDiffer [] count seen = tt
  pull_entries-AddressesDiffer ((k, garbage) ∷ es) count seen =
      ground (arith, pull_entries-AddressesDiffer es count seen)
  pull_entries-AddressesDiffer ((k, encoded vb) ∷ es) count seen = ground (
    arith,
    pull_entries-AddressesDiffer es count seen,
    pull_entries-AddressesDiffer es (count + 1) (vb.address ∷ seen),
  )

  pub pull_entries-AreFree :
      (es : VerifiedEntries) (count : ℕ) (seen : List ℕ)
      → IsStored es s.verified
      → AreFree s
          (keys_of_pulled (pull_entries s n es count seen))
          (ballots_of_pulled (pull_entries s n es count seen))
  unfolding pull_entries ballots_of_pulled keys_of_pulled
  pull_entries-AreFree [] count seen h = tt
  pull_entries-AreFree ((k, garbage) ∷ es) count seen h =
      ground (arith, pull_entries-AreFree es count seen h.1)
  pull_entries-AreFree ((k, encoded vb) ∷ es) count seen h = ground (
    arith,
    h.0,
    pull_entries-AreFree es count seen h.1,
    pull_entries-AreFree es (count + 1) (vb.address ∷ seen) h.1,
  )

  pull_entries-IsAbove :
      (i : Key) (es : VerifiedEntries) (count : ℕ) (seen : List ℕ)
      → IsAbove i es
      → IsAbove i (pull_entries s n es count seen)
  unfolding pull_entries
  pull_entries-IsAbove i [] count seen h = tt
  pull_entries-IsAbove i ((k, garbage) ∷ es) count seen h =
      ground (arith, pull_entries-IsAbove i es count seen h.1)
  pull_entries-IsAbove i ((k, encoded vb) ∷ es) count seen h = ground (
    arith,
    pull_entries-IsAbove i es count seen h.1,
    pull_entries-IsAbove i es (count + 1) (vb.address ∷ seen) h.1,
  )

  pub pull_entries-IsOrdered :
      (es : VerifiedEntries) (count : ℕ) (seen : List ℕ)
      → IsOrdered es
      → IsOrdered (pull_entries s n es count seen)
  unfolding pull_entries
  pull_entries-IsOrdered [] count seen o = tt
  pull_entries-IsOrdered ((k, garbage) ∷ es) count seen o =
      ground (arith, pull_entries-IsOrdered es count seen o.1)
  pull_entries-IsOrdered ((k, encoded vb) ∷ es) count seen o = ground (
    arith,
    pull_entries-IsOrdered es count seen o.1,
    pull_entries-IsOrdered es (count + 1) (vb.address ∷ seen) o.1,
    pull_entries-IsAbove k es (count + 1) (vb.address ∷ seen) o.0,
  )
