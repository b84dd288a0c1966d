-- ===== src/Web3/Gas.antt =====
-- The estimation of gas (web3/txmanager/txgas.go). What the node answers while one estimation runs is a
-- parameter, and so is the hash of the cache's keys; the context and its timeout are among the causes of
-- the errors that a node answers with. Gas is a uint64, with its wrap-around.
pub mod Search
pub mod Limits
use davinci_node.Common.{
  ℕ, zero, suc, ◌+◌, ◌*◌, ◌/◌, ◌%◌, ◌≡◌, Bool, true, false, Option, none, some, List, [], ◌∷◌, ltb,
  leb, length, take, ◌==◌, if◌then◌else◌,
}
use davinci_node.Word.{add_int, int_mod}
use davinci_node.Db.{Key, Table, lookup, insert}

-- The fields of an ethereum.CallMsg that the estimation sets or reads.
pub record CallMsg : Type 0 where
  pub to : Option Key
  pub content : List ℕ
  pub gas : ℕ
  pub gas_fee_cap : Option ℕ
  pub gas_tip_cap : Option ℕ

-- The answers of the node: none, or false, is an error. `reachable` is whether EthClient succeeds.
pub record Node : Type 0 where
  pub suggest_tip_cap : Option ℕ
  pub suggest_gas_price : Option ℕ
  pub estimate : CallMsg → Option ℕ
  pub reachable : Bool
  pub call : CallMsg → Bool

-- The timeout is in nanoseconds.
pub record GasEstimateOpts : Type 0 where
  pub min_gas : ℕ
  pub max_gas : ℕ
  pub safety_bps : ℕ
  pub timeout : ℕ
  pub fallback : ℕ

-- DefaultGasEstimateOpts
abbrev pub default_gas_estimate_opts : GasEstimateOpts
default_gas_estimate_opts = record {
  min_gas = 21000;
  max_gas = 5000000;
  safety_bps = 1000;
  timeout = 20 * 1000000000;
  fallback = 300000;
}

abbrev or_default : ℕ → ℕ → ℕ
or_default n d = if n == 0 then d else n

-- validate
unfoldable pub validate_opts : GasEstimateOpts → GasEstimateOpts
validate_opts o =
    let d = default_gas_estimate_opts in
    record {
      min_gas = or_default o.min_gas d.min_gas;
      max_gas = or_default o.max_gas d.max_gas;
      safety_bps = or_default o.safety_bps d.safety_bps;
      timeout = or_default o.timeout d.timeout;
      fallback = or_default o.fallback d.fallback;
    }

abbrev mul_int : ℕ → ℕ → ℕ
mul_int a b = (a * b) % int_mod

abbrev at_least : ℕ → ℕ → ℕ
at_least bound gas = if ltb gas bound then bound else gas

abbrev at_most : ℕ → ℕ → ℕ
at_most bound gas = if ltb bound gas then bound else gas

-- applySafetyMargin
unfoldable pub apply_safety_margin : ℕ → ℕ → GasEstimateOpts → ℕ
apply_safety_margin gas floor o =
    at_most o.max_gas
      (at_least floor (at_least o.min_gas (add_int gas (mul_int gas o.safety_bps / 10000))))

-- gasKey; `hex` is the key of an address and a selector, `digest` the hash of what there is.
unfoldable pub gas_key_of : (Key → List ℕ → Key) → (Option Key → List ℕ → Key) → CallMsg → Key
gas_key_of hex digest msg = elim msg.to [
  | none ↦ digest none msg.content
  | some to ↦
      if leb 4 (length msg.content)
      then hex to (take 4 msg.content)
      else digest (some to) msg.content
]

-- The cache of gas hints: none where there is no TxManager or its map is nil.
abbrev pub GasCache : Type 0
GasCache = Option (Table ℕ)

-- cachedGasHint
unfoldable pub cached_gas_hint : (CallMsg → Key) → CallMsg → GasCache → ℕ
cached_gas_hint key msg none = 0
cached_gas_hint key msg (some m) = elim (lookup (key msg) m) [ none ↦ 0 | some v ↦ v ]

-- storeGasHint
unfoldable pub store_gas_hint : (CallMsg → Key) → CallMsg → ℕ → GasCache → GasCache
store_gas_hint key msg gas none = none
store_gas_hint key msg gas (some m) = some (insert (key msg) gas m)

-- The fee caps of the node's suggestions: twice the gas price and the tip.
unfoldable pub suggested_caps : Node → CallMsg → CallMsg
suggested_caps node msg = elim node.suggest_tip_cap [
  | none ↦ msg
  | some tip ↦ elim node.suggest_gas_price [
    | none ↦ msg
    | some price ↦ record msg { gas_tip_cap = some tip; gas_fee_cap = some (price * 2 + tip) }
  ]
]

-- The fee caps that EstimateGas sets where one is missing.
unfoldable pub with_fee_caps : Node → CallMsg → CallMsg
unfolding suggested_caps
with_fee_caps node msg = elim msg.gas_fee_cap [
  | none ↦ suggested_caps node msg
  | some fee ↦ elim msg.gas_tip_cap [ none ↦ suggested_caps node msg | some tip ↦ msg ]
]

-- The loop between a limit that fails and one that succeeds; none is a lack of fuel.
unfoldable pub search_gas : ℕ → (ℕ → Bool) → ℕ → ℕ → Option ℕ
search_gas zero succeeds low high = none
search_gas (suc fuel) succeeds low high =
    let mid = add_int low high / 2 in
    let rest =
      search_gas fuel succeeds (if succeeds mid then low else add_int mid 1)
        (if succeeds mid then mid else high) in
    if ltb (add_int low 1000) high then rest else some high

-- The bounds of the search, brought closer by a cached hint.
unfoldable pub hinted_low : ℕ → ℕ → ℕ
hinted_low cached low = if ltb low (cached / 2) then cached / 2 else low

unfoldable pub hinted_high : ℕ → ℕ → ℕ
hinted_high cached high =
    if cached == 0 then high else if ltb (mul_int cached 2) high then mul_int cached 2 else high

-- The rounds that the search is given.
abbrev pub search_fuel : ℕ
search_fuel = 64

-- The search of EstimateGas by eth_call, and the cache behind it.
unfoldable pub search_by_call :
    Node → (CallMsg → Key) → GasCache → CallMsg → GasEstimateOpts → ℕ → Option (ℕ × GasCache)
unfolding hinted_low hinted_high
search_by_call node key cache msg o floor =
    let cached = cached_gas_hint key msg cache in
    let low = hinted_low cached o.min_gas in
    let high = hinted_high cached o.max_gas in
    let succeeds : ℕ → Bool = λ limit. node.call (record msg { gas = limit }) in
    if succeeds low
    then some (apply_safety_margin low floor o, cache)
    else if succeeds high
    then elim (search_gas search_fuel succeeds low high) [
      | none ↦ none
      | some gas ↦ some (apply_safety_margin gas floor o, store_gas_hint key msg gas cache)
    ]
    else some (o.fallback, cache)

-- EstimateGas
unfoldable pub estimate_gas :
    Node → (CallMsg → Key) → GasCache → CallMsg → Option GasEstimateOpts → ℕ → Option (ℕ × GasCache)
unfolding with_fee_caps search_by_call
estimate_gas node key cache msg opts floor =
    let o : GasEstimateOpts =
      validate_opts (elim opts [ none ↦ default_gas_estimate_opts | some o ↦ o ]) in
    let msg' = with_fee_caps node msg in
    elim (node.estimate msg') [
      | some gas ↦ some (apply_safety_margin gas floor o, cache)
      | none ↦
          if node.reachable
          then search_by_call node key cache msg' o floor
          else some (o.fallback, cache)
    ]
