-- ===== src/Tests/Endpoints.antt =====
-- A pool of three endpoints: Next in turn, an endpoint that is disabled, and calls that all fail.
use mathlib.Core.Option.{some-injective}
use mathlib.Core.Path.{subst}
use davinci_node.Common.{
  ℕ, ◌+◌, ◌*◌, ◌≤◌, ◌<◌, ◌≡◌, ◌≢◌, ◌⊎◌, refl, false, some, List, [], ◌∷◌, arith, length, get_elem?,
}
use davinci_node.Db.{lookup, key_eq}
use davinci_node.Web3.Iterator.{
  Web3Endpoint, Web3Iterator, endpoint, no_endpoints, new_web3_iterator, add_endpoints,
  check_cooldowns, next_endpoint, disable,
}
use davinci_node.Web3.Iterator.Valid.{IsValid, created, asked, next_endpoint-total}
use davinci_node.Web3.Iterator.Rounds.{
  held, count_uri, iterator-held, ask_all, next_endpoint-fair, disable-skips,
}
use davinci_node.Web3.Pool.{
  Web3Pool, chain_key, number_of_endpoints, CallResult, refused, broken, retry_switching_endpoints,
}
use davinci_node.Web3.Pool.Calls.{ChainIsValid, retry_switching_endpoints-bounded}

abbrev node_at : ℕ → Web3Endpoint
node_at n = record { chain_id = 1; uri = n ∷ []; is_archive = false; disabled_at = 0 }

abbrev three : List Web3Endpoint
three = node_at 1 ∷ node_at 2 ∷ node_at 3 ∷ []

abbrev fresh : Web3Iterator
fresh = record { next_index = 0; available = three; disabled = [] }

abbrev moved : Web3Iterator
moved = (next_endpoint 5 (new_web3_iterator three)).0

next_endpoint-total_example :
    ((e : Web3Endpoint) × (i : ℕ) × (get_elem? (check_cooldowns 9 moved).available i ≡ some e)
      × ((next_endpoint 9 moved).1 ≡ endpoint e))
    ⊎ (((next_endpoint 9 moved).1 ≡ no_endpoints) × (moved.available ≡ []) × (moved.disabled ≡ []))
next_endpoint-total_example = next_endpoint-total 9 moved (asked 5 (created three))

iterator-held_example :
    (held (2 ∷ []) (next_endpoint 9 fresh).0 ≡ held (2 ∷ []) fresh)
    × (held (2 ∷ []) (disable 9 (1 ∷ []) fresh) ≡ held (2 ∷ []) fresh)
    × (held (2 ∷ []) (add_endpoints (node_at 2 ∷ []) fresh)
        ≡ held (2 ∷ []) fresh + count_uri (2 ∷ []) (node_at 2 ∷ []))
iterator-held_example = iterator-held (2 ∷ []) (1 ∷ []) 9 (node_at 2 ∷ []) fresh

fresh-IsValid : IsValid fresh
fresh-IsValid = omega arith

next_endpoint-fair_example :
    ((next_endpoint 9 (ask_all (7 ∷ 8 ∷ []) fresh)).1 ≡ endpoint (node_at 3))
    × (length {A = ℕ} (7 ∷ 8 ∷ []) < length fresh.available)
next_endpoint-fair_example =
    next_endpoint-fair 2 9 (7 ∷ 8 ∷ []) (node_at 3) fresh fresh-IsValid refl refl refl

none_before : count_uri (1 ∷ []) [] ≡ 0
unfolding count_uri
none_before = refl

disable-skips_example : (next_endpoint 9 (disable 8 (1 ∷ []) fresh)).1 ≡ endpoint (node_at 3)
disable-skips_example =
    disable-skips 8 9 [] [] (node_at 1) (node_at 2) (node_at 3) fresh refl refl none_before

-- A call that counts itself and fails.
abbrev failing_call : Web3Endpoint → ℕ → ℕ × CallResult ℕ
failing_call e w = (w + 1, refused [])

abbrev no_sleep : ℕ → ℕ
no_sleep w = w

abbrev clock : ℕ → ℕ
clock w = w

abbrev one_chain : Web3Pool
one_chain = (chain_key 1, fresh) ∷ []

one_chain_valid : ChainIsValid 1 one_chain
unfolding lookup key_eq
one_chain_valid it found = subst IsValid (some-injective fresh it found) fresh-IsValid

retry_switching_endpoints-bounded_example :
    let x = retry_switching_endpoints failing_call no_sleep clock 1 (one_chain, 0) in
    (x.0.1 ≤ 0 + number_of_endpoints 1 false one_chain * 2) × (x.1 ≢ broken) × ChainIsValid 1 x.0.0
retry_switching_endpoints-bounded_example =
    retry_switching_endpoints-bounded failing_call no_sleep clock (λ w. w) (λ e w. refl) (λ w. refl)
      1 one_chain 0 one_chain_valid
