-- ===== src/Web3/Gas/Limits.antt =====
-- EstimateGas as a whole: a limit that works, within the configured maximum, or the fallback.
use davinci_node.Common.{
  ℕ, ◌*◌, ◌^◌, ◌<◌, ◌≤◌, ◌≡◌, refl, Bool, true, false, Option, none, some, arith, ltb, Bool-cases,
  inl, inr,
}
use davinci_node.Db.{Key}
use davinci_node.Web3.Gas.{
  CallMsg, Node, GasEstimateOpts, default_gas_estimate_opts, validate_opts, apply_safety_margin,
  GasCache, cached_gas_hint, store_gas_hint, with_fee_caps, hinted_low, hinted_high, search_by_call,
  estimate_gas,
}
use davinci_node.Web3.Gas.Search.{IsMonotone, fails_below, search_gas-total}

-- The options that count: the defaults fill in for the nil pointer and for zeros.
abbrev pub effective : Option GasEstimateOpts → GasEstimateOpts
effective opts = validate_opts (elim opts [ none ↦ default_gas_estimate_opts | some o ↦ o ])

-- Whether the call succeeds with a limit, with the fee caps that the estimation sets.
abbrev pub call_with : Node → CallMsg → ℕ → Bool
call_with node msg limit = node.call (record (with_fee_caps node msg) { gas = limit })

margin_bounds :
    (gas floor : ℕ) (o : GasEstimateOpts)
    → o.max_gas < 2 ^ 63
    → gas < 2 ^ 63
    → (apply_safety_margin gas floor o ≤ o.max_gas)
      × (gas ≤ o.max_gas → gas ≤ apply_safety_margin gas floor o)
      × (o.max_gas ≤ gas → apply_safety_margin gas floor o ≡ o.max_gas)
unfolding apply_safety_margin
margin_bounds gas floor o small_max small = (ground arith, λ h. ground arith, λ h. ground arith)

margin_works :
    (gas floor : ℕ) (o : GasEstimateOpts) (succeeds : ℕ → Bool)
    → IsMonotone succeeds
    → o.max_gas < 2 ^ 63
    → gas < 2 ^ 63
    → succeeds gas ≡ true
    → succeeds o.max_gas ≡ true
    → (apply_safety_margin gas floor o ≤ o.max_gas)
      × (succeeds (apply_safety_margin gas floor o) ≡ true)
margin_works gas floor o succeeds mono small_max small works max_works =
    let bounds = margin_bounds gas floor o small_max small in
    (
      bounds.0,
      elim (Bool-cases (ltb o.max_gas gas)) [
        | inl above ↦ rw (bounds.2 (ground (arith, above))) max_works
        | inr within ↦
            mono gas (apply_safety_margin gas floor o) (bounds.1 (ground (arith, within))) works
      ],
    )

hinted_high-le : (cached high : ℕ) → hinted_high cached high ≤ high
unfolding hinted_high
hinted_high-le cached high = ground arith

-- A result that is a limit within the maximum, at which the call succeeds.
abbrev pub Works : ℕ → (ℕ → Bool) → Option (ℕ × GasCache) → Type 0
Works max succeeds result =
    (gas : ℕ) × (cache : GasCache) × (result ≡ some (gas, cache))
    × (gas ≤ max)
    × (succeeds gas ≡ true)

search_by_call-Works :
    (node : Node) (key : CallMsg → Key) (cache : GasCache) (msg : CallMsg) (o : GasEstimateOpts)
    (floor : ℕ)
    → let succeeds : ℕ → Bool = λ limit. node.call (record msg { gas = limit }) in
      let cached = cached_gas_hint key msg cache in
      IsMonotone succeeds
      → o.max_gas < 2 ^ 63
      → hinted_low cached o.min_gas < 2 ^ 63
      → succeeds (hinted_high cached o.max_gas) ≡ true
      → Works o.max_gas succeeds (search_by_call node key cache msg o floor)
unfolding search_by_call
search_by_call-Works node key cache msg o floor mono small_max small_low works =
    let succeeds : ℕ → Bool = λ limit. node.call (record msg { gas = limit }) in
    let cached = cached_gas_hint key msg cache in
    let low = hinted_low cached o.min_gas in
    let high = hinted_high cached o.max_gas in
    let below = hinted_high-le cached o.max_gas in
    let max_works = mono high o.max_gas below works in
    elim (Bool-cases (succeeds low)) [
      | inl low_works ↦
          let (within, ok) =
            margin_works low floor o succeeds mono small_max small_low low_works max_works in
          (apply_safety_margin low floor o, cache, rw (search_by_call, low_works) refl, within, ok)
      | inr low_fails ↦
          let (h, found, h_works, h_below, best) =
            search_gas-total low high succeeds mono (omega arith) low_fails works in
          let (within, ok) =
            margin_works h floor o succeeds mono small_max (omega arith) h_works max_works in
          (
            apply_safety_margin h floor o,
            store_gas_hint key msg h cache,
            rw (search_by_call, low_fails, works, found) refl,
            within,
            ok,
          )
    ]

-- Where eth_estimateGas fails and eth_call answers, on a node for which more gas does no harm: if the
-- call succeeds with the upper limit of the search, which is the configured maximum or twice the cached
-- hint, then EstimateGas returns a limit within the maximum at which the call succeeds. The lower limit
-- and the maximum are below 2^63.
pub estimate_gas-works :
    (node : Node) (key : CallMsg → Key) (cache : GasCache) (msg : CallMsg)
    (opts : Option GasEstimateOpts) (floor : ℕ)
    → let o = effective opts in
      let cached = cached_gas_hint key (with_fee_caps node msg) cache in
      IsMonotone (call_with node msg)
      → node.estimate (with_fee_caps node msg) ≡ none
      → node.reachable ≡ true
      → o.max_gas < 2 ^ 63
      → hinted_low cached o.min_gas < 2 ^ 63
      → call_with node msg (hinted_high cached o.max_gas) ≡ true
      → (gas : ℕ) × (cache' : GasCache) × (estimate_gas node key cache msg opts floor
          ≡ some (gas, cache'))
        × (gas ≤ o.max_gas)
        × (call_with node msg gas ≡ true)
unfolding estimate_gas
estimate_gas-works node key cache msg opts floor mono no_estimate up small_max small_low works =
    rw (estimate_gas, no_estimate, up)
      (search_by_call-Works node key cache (with_fee_caps node msg) (effective opts) floor mono
        small_max small_low works)

-- A cached hint c that is too low for a call: where eth_estimateGas fails and the call fails with 2c,
-- which is below the configured maximum and not below the minimum, EstimateGas returns the fallback and
-- keeps the hint, whether or not the call succeeds with the maximum. On a node for which more gas does
-- no harm, a fallback of 2c or less is then a limit at which the call fails.
pub estimate_gas-stale :
    (node : Node) (key : CallMsg → Key) (cache : GasCache) (msg : CallMsg)
    (opts : Option GasEstimateOpts) (floor : ℕ)
    → let o = effective opts in
      let cached = cached_gas_hint key (with_fee_caps node msg) cache in
      IsMonotone (call_with node msg)
      → node.estimate (with_fee_caps node msg) ≡ none
      → node.reachable ≡ true
      → 0 < cached
      → cached * 2 < o.max_gas
      → o.max_gas < 2 ^ 63
      → o.min_gas ≤ cached * 2
      → call_with node msg (cached * 2) ≡ false
      → (estimate_gas node key cache msg opts floor ≡ some (o.fallback, cache))
        × (o.fallback ≤ cached * 2 → call_with node msg o.fallback ≡ false)
unfolding estimate_gas search_by_call hinted_low hinted_high
estimate_gas-stale node key cache msg opts floor mono no_estimate up hint below small above fails =
    let o = effective opts in
    let cached = cached_gas_hint key (with_fee_caps node msg) cache in
    let high : hinted_high cached o.max_gas ≡ cached * 2 = ground arith in
    let low : hinted_low cached o.min_gas ≤ cached * 2 = ground arith in
    let low_fails =
      fails_below (call_with node msg) (hinted_low cached o.min_gas) (cached * 2) mono low fails in
    (
      rw (estimate_gas, no_estimate, up, low_fails, high, fails) refl,
      λ h. fails_below (call_with node msg) o.fallback (cached * 2) mono h fails,
    )
