-- ===== src/Web3/Pool/Calls.antt =====
-- A call over the endpoints of a chain ends after a bounded number of requests, and never by a panic.
use mathlib.Core.Option.{some-injective}
use mathlib.Core.Path.{subst}
use davinci_node.Common.{
  ℕ, zero, suc, ◌+◌, ◌*◌, ◌≤◌, ◌≡◌, ◌≢◌, refl, sym, ap, ◌∙◌, false, Option, none, some, List, [],
  ◌∷◌, arith, ◌==◌, if◌then◌else◌, Bool-cases, Option-cases, inl, inr, ◌⊎◌,
}
use davinci_node.Db.{Key, lookup, lookup-insert_self}
use davinci_node.Web3.Iterator.{
  Web3Endpoint, Web3Iterator, NextResult, endpoint, no_endpoints, panics, next_endpoint, disable,
  check_cooldowns,
}
use davinci_node.Web3.Iterator.Valid.{
  IsValid, next_available-total, check_cooldowns-IsValid, disable-IsValid, next_endpoint-IsValid,
}
use davinci_node.Web3.Pool.{
  Web3Pool, chain_key, pool_endpoint, disable_endpoint, number_of_endpoints, CallResult, Switched,
  broken, Tried, ends, switches, default_retries, was_tried, retry_endpoint, try_endpoints,
  retry_switching_endpoints,
}

-- The iterator of a chain is valid, if there is one.
abbrev pub ChainIsValid : ℕ → Web3Pool → Type 0
ChainIsValid chain pool = (it : Web3Iterator) → lookup (chain_key chain) pool ≡ some it → IsValid it

next_endpoint-ne-panics :
    (now : ℕ) (it : Web3Iterator) → IsValid it → (next_endpoint now it).1 ≢ panics
unfolding next_endpoint
next_endpoint-ne-panics now it v h =
    elim (next_available-total (check_cooldowns now it) (check_cooldowns-IsValid now it v)).1 [
      | inl (e, there, found) ↦ cc
      | inr (none_left, none_here, none_off) ↦ cc
    ]

pool_endpoint-valid :
    (now chain : ℕ) (pool : Web3Pool)
    → ChainIsValid chain pool
    → ChainIsValid chain (pool_endpoint now chain pool).0
      × ((pool_endpoint now chain pool).1 ≢ some panics)
unfolding pool_endpoint
pool_endpoint-valid now chain pool v = elim (Option-cases (lookup (chain_key chain) pool)) [
  | inl absent ↦ rw (pool_endpoint, absent) (v, λ h. cc h)
  | inr (it, found) ↦
      let valid = v it found in
      let it' = (next_endpoint now it).0 in
      rw (pool_endpoint, found)
        (
          λ other there.
              subst IsValid
                (some-injective it' other
                  (sym (lookup-insert_self (chain_key chain) it' pool) ∙ there))
                (next_endpoint-IsValid now it valid),
          λ h. next_endpoint-ne-panics now it valid (some-injective _ _ h),
        )
]

disable_endpoint-valid :
    (now chain : ℕ) (uri : Key) (pool : Web3Pool)
    → ChainIsValid chain pool
    → ChainIsValid chain (disable_endpoint now chain uri pool)
unfolding disable_endpoint
disable_endpoint-valid now chain uri pool v = elim (Option-cases (lookup (chain_key chain) pool)) [
  | inl absent ↦ rw (disable_endpoint, absent) v
  | inr (it, found) ↦
      let it' = disable now uri it in
      rw (disable_endpoint, found)
        (λ other there.
          subst IsValid
            (some-injective it' other (sym (lookup-insert_self (chain_key chain) it' pool) ∙ there))
            (disable-IsValid now uri it (v it found)))
]

Found-cases :
    (o : Option NextResult)
    → (o ≡ none)
      ⊎ (o ≡ some no_endpoints)
      ⊎ (o ≡ some panics)
      ⊎ ((e : Web3Endpoint) × (o ≡ some (endpoint e)))
Found-cases none = inl refl
Found-cases (some no_endpoints) = inr (inl refl)
Found-cases (some panics) = inr (inr (inl refl))
Found-cases (some (endpoint e)) = inr (inr (inr (e, refl)))

Tried-cases : {A : Type 0} (t : Tried A) → ((r : Switched A) × (t ≡ ends r)) ⊎ (t ≡ switches)
Tried-cases (ends r) = inl (r, refl)
Tried-cases switches = inr refl

module _ {A W : Type 0} (call : Web3Endpoint → W → W × CallResult A) (sleep : W → W) (now : W → ℕ)
    (requests : W → ℕ)
    (counts : (e : Web3Endpoint) (w : W) → requests (call e w).0 ≡ requests w + 1)
    (quiet : (w : W) → requests (sleep w) ≡ requests w) where
  retry_endpoint-bounded :
      (left : ℕ) (e : Web3Endpoint) (w : W)
      → (requests (retry_endpoint call sleep now left e w).0 ≤ requests w + left)
        × ((retry_endpoint call sleep now left e w).1 ≢ ends broken)
  unfolding retry_endpoint
  retry_endpoint-bounded zero e w = (omega arith, λ h. cc h)
  retry_endpoint-bounded (suc left) e w =
      let w1 = (call e w).0 in
      let w2 = if left == 0 then w1 else sleep w1 in
      let calm : requests w2 ≡ requests w1 = elim (Bool-cases (left == 0)) [
        | inl last ↦ rw last refl
        | inr more ↦ rw more (quiet w1)
      ] in
      let again = retry_endpoint-bounded left e w2 in ground (arith, counts e w, calm, again)

  try_endpoints-bounded :
      (left chain : ℕ) (tried : List Key) (pool : Web3Pool) (w : W)
      → ChainIsValid chain pool
      → let x = try_endpoints call sleep now left chain tried (pool, w) in
        (requests x.0.1 ≤ requests w + left * default_retries)
        × (x.1 ≢ broken)
        × ChainIsValid chain x.0.0
  unfolding try_endpoints
  try_endpoints-bounded zero chain tried pool w v = (omega arith, λ h. cc h, v)
  try_endpoints-bounded (suc left) chain tried pool w v =
      let next = pool_endpoint (now w) chain pool in
      let (kept, unbroken) = pool_endpoint-valid (now w) chain pool v in
      elim (Found-cases next.1) [
        | inl none_there ↦ rw (try_endpoints, none_there) (omega arith, λ h. cc h, kept)
        | inr (inl empty) ↦ rw (try_endpoints, empty) (omega arith, λ h. cc h, kept)
        | inr (inr (inl panic)) ↦ absurd (unbroken panic)
        | inr (inr (inr (e, found))) ↦
            let tries = retry_endpoint call sleep now default_retries e w in
            let few = retry_endpoint-bounded default_retries e w in
            let after = disable_endpoint (now tries.0) chain e.uri next.0 in
            let rest =
              try_endpoints-bounded left chain (e.uri ∷ tried) after tries.0
                (disable_endpoint-valid (now tries.0) chain e.uri next.0 kept) in
            elim (Bool-cases (was_tried e.uri tried)) [
              | inl old ↦ rw (try_endpoints, found, old) (omega arith, λ h. cc h, kept)
              | inr new ↦ elim (Tried-cases tries.1) [
                | inl (r, ended) ↦
                    rw (try_endpoints, found, new, ended)
                      (omega (arith, few.0), λ h. few.1 (ended ∙ ap ends h), kept)
                | inr failed ↦
                    rw (try_endpoints, found, new, failed)
                      (omega (arith, few.0, rest.0), rest.1, rest.2)
              ]
            ]
      ]

  -- A call through the pool, on a chain whose iterator is valid and with a world that counts the requests
  -- of endpoints: it makes at most two requests for each endpoint that the chain has, disabled ones
  -- included, does not panic on an index of the iterator, and leaves the iterator valid.
  pub retry_switching_endpoints-bounded :
      (chain : ℕ) (pool : Web3Pool) (w : W)
      → ChainIsValid chain pool
      → let x = retry_switching_endpoints call sleep now chain (pool, w) in
        (requests x.0.1 ≤ requests w + number_of_endpoints chain false pool * 2)
        × (x.1 ≢ broken)
        × ChainIsValid chain x.0.0
  unfolding retry_switching_endpoints
  retry_switching_endpoints-bounded chain pool w v =
      let total = number_of_endpoints chain false pool in
      let tries = try_endpoints-bounded total chain [] pool w v in
      elim (Bool-cases (total == 0)) [
        | inl none_there ↦ rw (retry_switching_endpoints, none_there) (omega arith, λ h. cc h, v)
        | inr some_there ↦
            rw (retry_switching_endpoints, some_there) (omega (arith, tries.0), tries.1, tries.2)
      ]
