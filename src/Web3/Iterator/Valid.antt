-- ===== src/Web3/Iterator/Valid.antt =====
-- The index of the iterator: in range on every path, so that Next never panics.
use davinci_node.Common.{
  ℕ, ◌+◌, ◌-◌, ◌<◌, ◌≤◌, ◌≡◌, refl, some, List, [], ◌∷◌, ◌++◌, arith, length, take, drop, get_elem?,
  length-append, get_elem?-length, nil_of_length, ◌==◌, Bool-cases, Option-cases, inl, inr, ◌⊎◌,
}
use davinci_node.Db.{Key}
use davinci_node.Web3.Iterator.{
  Web3Endpoint, Web3Iterator, endpoint, no_endpoints, new_web3_iterator, add_endpoints, cooled,
  still_disabled, check_cooldowns, next_available, next_endpoint, index_of_uri, restore_available,
  disable_at, disable, moved_index,
}

-- The index is in range, or 0 if no endpoint is available, and then none is disabled either.
pub record IsValid (it : Web3Iterator) : Type 0 where
  pub in_range : it.next_index ≤ length it.available - 1
  pub spare : (0 < length it.available) ⊎ (length it.disabled ≡ 0)

pub new_web3_iterator-IsValid : (es : List Web3Endpoint) → IsValid (new_web3_iterator es)
unfolding new_web3_iterator
new_web3_iterator-IsValid es = ground arith

pub add_endpoints-IsValid :
    (es : List Web3Endpoint) (it : Web3Iterator) → IsValid it → IsValid (add_endpoints es it)
unfolding add_endpoints
add_endpoints-IsValid es it v = ground (arith, length-append it.available es)

length-still_disabled :
    (now : ℕ) (es : List Web3Endpoint) → length (still_disabled now es) ≤ length es
unfolding still_disabled
length-still_disabled now [] = omega arith
length-still_disabled now (e ∷ es) = ground (arith, length-still_disabled now es)

pub check_cooldowns-IsValid :
    (now : ℕ) (it : Web3Iterator) → IsValid it → IsValid (check_cooldowns now it)
unfolding check_cooldowns
check_cooldowns-IsValid now it v = ground (
  arith,
  length-append it.available (cooled now it.disabled),
  length-still_disabled now it.disabled,
)

-- Next on a valid iterator: an endpoint, or none is registered.
pub next_available-total :
    (it : Web3Iterator)
    → IsValid it
    → IsValid (next_available it).0
      × (((e : Web3Endpoint) × (get_elem? it.available it.next_index ≡ some e)
            × ((next_available it).1 ≡ endpoint e))
          ⊎ (((next_available it).1 ≡ no_endpoints)
              × (length it.available ≡ 0)
              × (length it.disabled ≡ 0)))
unfolding next_available
next_available-total it v = elim (Bool-cases (length it.available == 0)) [
  | inl empty ↦ rw empty (v, inr (refl, ground arith, ground arith))
  | inr more ↦
      let (e, found) = get_elem?-length it.available it.next_index (ground arith) in
      rw (more, found) (ground arith, inl (e, refl, refl))
]

pub restore_available-IsValid : (it : Web3Iterator) → IsValid (restore_available it)
unfolding restore_available
restore_available-IsValid it = ground arith

pub disable-IsValid :
    (now : ℕ) (u : Key) (it : Web3Iterator) → IsValid it → IsValid (disable now u it)
unfolding disable disable_at
disable-IsValid now u it v = elim (Option-cases (index_of_uri u it.available)) [
  | inl absent ↦ rw (disable, absent) v
  | inr (i, found) ↦ elim (Option-cases (get_elem? it.available i)) [
    | inl outside ↦ rw (disable, found, disable_at, outside) v
    | inr (e, there) ↦
        rw (disable, found, disable_at, there)
          (restore_available-IsValid (record {
            next_index = moved_index it.next_index i;
            available = take i it.available ++ drop (i + 1) it.available;
            disabled = it.disabled ++ record e { disabled_at = now } ∷ [];
          }))
  ]
]

-- The iterators that calls of the operations make of a new one, at any times.
pub data Reach : Web3Iterator → Type 0 where
  created : (es : List Web3Endpoint) → Reach (new_web3_iterator es)
  added : {it : Web3Iterator} (es : List Web3Endpoint) → Reach it → Reach (add_endpoints es it)
  asked : {it : Web3Iterator} (now : ℕ) → Reach it → Reach (next_endpoint now it).0
  switched_off : {it : Web3Iterator} (now : ℕ) (u : Key) → Reach it → Reach (disable now u it)

pub next_endpoint-IsValid :
    (now : ℕ) (it : Web3Iterator) → IsValid it → IsValid (next_endpoint now it).0
unfolding next_endpoint
next_endpoint-IsValid now it v =
    (next_available-total (check_cooldowns now it) (check_cooldowns-IsValid now it v)).0

pub Reach-IsValid : {it : Web3Iterator} → Reach it → IsValid it
Reach-IsValid (created es) = new_web3_iterator-IsValid es
Reach-IsValid (added {it = it} es r) = add_endpoints-IsValid es it (Reach-IsValid r)
Reach-IsValid (asked {it = it} now r) = next_endpoint-IsValid now it (Reach-IsValid r)
Reach-IsValid (switched_off {it = it} now u r) = disable-IsValid now u it (Reach-IsValid r)

check_cooldowns-available :
    (now : ℕ) (it : Web3Iterator)
    → length (check_cooldowns now it).available
      ≡ length it.available + length (cooled now it.disabled)
unfolding check_cooldowns
check_cooldowns-available now it = length-append it.available (cooled now it.disabled)

-- Next, on an iterator that any calls of the operations have made of a new one: it does not panic, and
-- either it returns an available endpoint, or the error and the pool holds no endpoint at all, disabled
-- ones included.
pub next_endpoint-total :
    (now : ℕ) (it : Web3Iterator)
    → Reach it
    → ((e : Web3Endpoint) × (i : ℕ) × (get_elem? (check_cooldowns now it).available i ≡ some e)
        × ((next_endpoint now it).1 ≡ endpoint e))
      ⊎ (((next_endpoint now it).1 ≡ no_endpoints) × (it.available ≡ []) × (it.disabled ≡ []))
unfolding next_endpoint
next_endpoint-total now it r =
    let v = Reach-IsValid r in
    elim (next_available-total (check_cooldowns now it) (check_cooldowns-IsValid now it v)).1 [
      | inl (e, there, result) ↦ inl (e, (check_cooldowns now it).next_index, there, result)
      | inr (result, none_here, none_off) ↦
          let all = check_cooldowns-available now it in
          inr (
            result,
            nil_of_length it.available (omega (arith, all, none_here)),
            nil_of_length it.disabled (ground (arith, all, none_here, v.spare)),
          )
    ]
