-- ===== src/Web3/Iterator.antt =====
-- Web3Iterator (web3/rpc/web3_iter.go). An endpoint stands for the pointer to it, each in one place of
-- the two lists, and the ethclient.Client is left out. Times are nanoseconds, 0 the zero time.
pub mod Valid
pub mod Rounds
use davinci_node.Common.{
  ℕ, zero, suc, ◌+◌, ◌-◌, ◌*◌, ◌≡◌, Bool, true, false, Option, none, some, List, [], ◌∷◌, ◌++◌, map,
  length, take, drop, get_elem?, ltb, leb, ◌==◌, if◌then◌else◌,
}
use davinci_node.Db.{Key, key_eq}

pub record Web3Endpoint : Type 0 where
  pub chain_id : ℕ
  pub uri : Key
  pub is_archive : Bool
  pub disabled_at : ℕ

pub record Web3Iterator : Type 0 where
  pub next_index : ℕ
  pub available : List Web3Endpoint
  pub disabled : List Web3Endpoint

-- endpointCooldownDuration, 5 minutes.
abbrev pub endpoint_cooldown : ℕ
endpoint_cooldown = 5 * 60 * 1000000000

-- What Next returns; an index out of range is a panic.
pub data NextResult : Type 0 where
  endpoint : Web3Endpoint → NextResult
  no_endpoints : NextResult
  panics : NextResult

-- NewWeb3Iterator
unfoldable pub new_web3_iterator : List Web3Endpoint → Web3Iterator
new_web3_iterator endpoints = record { next_index = 0; available = endpoints; disabled = [] }

-- Add
unfoldable pub add_endpoints : List Web3Endpoint → Web3Iterator → Web3Iterator
add_endpoints endpoints it = record it { available = it.available ++ endpoints }

abbrev pub enabled : Web3Endpoint → Web3Endpoint
enabled e = record e { disabled_at = 0 }

-- `now.Sub(ep.disabledAt) >= endpointCooldownDuration`
abbrev pub is_cool : ℕ → Web3Endpoint → Bool
is_cool now e = leb endpoint_cooldown (now - e.disabled_at)

-- The loop of checkCooldowns: the endpoints that go back, and those that stay disabled.
unfoldable pub cooled : ℕ → List Web3Endpoint → List Web3Endpoint
cooled now [] = []
cooled now (e ∷ es) = let rest = cooled now es in if is_cool now e then enabled e ∷ rest else rest

unfoldable pub still_disabled : ℕ → List Web3Endpoint → List Web3Endpoint
still_disabled now [] = []
still_disabled now (e ∷ es) =
    let rest = still_disabled now es in if is_cool now e then rest else e ∷ rest

-- checkCooldowns
unfoldable pub check_cooldowns : ℕ → Web3Iterator → Web3Iterator
unfolding cooled still_disabled
check_cooldowns now it = record it {
  available = it.available ++ cooled now it.disabled;
  disabled = still_disabled now it.disabled;
}

-- `nextIndex++`, back to the first one past the end.
abbrev pub step_index : ℕ → ℕ → ℕ
step_index l i = if leb l (i + 1) then 0 else i + 1

-- Next
unfoldable pub next_available : Web3Iterator → Web3Iterator × NextResult
next_available it =
    if length it.available == 0
    then (it, no_endpoints)
    else elim (get_elem? it.available it.next_index) [
      | none ↦ (it, panics)
      | some e ↦
          (record it { next_index = step_index (length it.available) it.next_index }, endpoint e)
    ]

unfoldable pub next_endpoint : ℕ → Web3Iterator → Web3Iterator × NextResult
unfolding check_cooldowns next_available
next_endpoint now it = next_available (check_cooldowns now it)

-- The position of the first endpoint with the URI.
unfoldable pub index_of_uri : Key → List Web3Endpoint → Option ℕ
index_of_uri u [] = none
index_of_uri u (e ∷ es) =
    let rest : Option ℕ = elim (index_of_uri u es) [ none ↦ none | some i ↦ some (i + 1) ] in
    if key_eq e.uri u then some 0 else rest

-- The next index once the endpoint at `index` is gone, before it is brought into range.
abbrev pub moved_index : ℕ → ℕ → ℕ
moved_index next index =
    if next == index then next + 1 else if ltb index next then next - 1 else next

-- The end of Disable: all endpoints come back if none is left, and the index is in range.
unfoldable pub restore_available : Web3Iterator → Web3Iterator
restore_available it =
    if length it.available == 0
    then record {
      next_index = 0;
      available = map enabled (it.available ++ it.disabled);
      disabled = [];
    }
    else if leb (length it.available) it.next_index
    then record it { next_index = 0 }
    else it

-- Disable, for the endpoint that was found at `index`.
unfoldable pub disable_at : ℕ → ℕ → Web3Iterator → Web3Iterator
unfolding restore_available
disable_at now index it = elim (get_elem? it.available index) [
  | none ↦ it
  | some e ↦ restore_available (record {
    next_index = moved_index it.next_index index;
    available = take index it.available ++ drop (index + 1) it.available;
    disabled = it.disabled ++ record e { disabled_at = now } ∷ [];
  })
]

-- Disable
unfoldable pub disable : ℕ → Key → Web3Iterator → Web3Iterator
unfolding index_of_uri disable_at
disable now u it = elim (index_of_uri u it.available) [
  | none ↦ it
  | some index ↦ disable_at now index it
]
