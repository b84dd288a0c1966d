-- ===== src/Web3/Gas/Search.antt =====
-- The binary search: it ends, at a limit that succeeds and that is close to the lowest one.
use davinci_node.Common.{
  ℕ, zero, suc, ◌+◌, ◌*◌, ◌/◌, ◌^◌, ◌<◌, ◌≤◌, ◌≡◌, refl, ap, ◌∙◌, Bool, true, false, Option, some,
  arith, ltb, Bool-cases, inl, inr,
}
use davinci_node.Word.{add_int}
use davinci_node.Web3.Gas.{search_gas, search_fuel}

-- A limit that succeeds makes every higher one succeed.
abbrev pub IsMonotone : (ℕ → Bool) → Type 0
IsMonotone succeeds = (low high : ℕ) → low ≤ high → succeeds low ≡ true → succeeds high ≡ true

-- The distance that a number of rounds brings down to 1000.
abbrev span : ℕ → ℕ
span zero = 1000
span (suc fuel) = 2 * span fuel

abbrev AllFail : (ℕ → Bool) → ℕ → Type 0
AllFail succeeds low = (g : ℕ) → g < low → succeeds g ≡ false

-- A limit that fails makes every lower one fail.
pub fails_below :
    (succeeds : ℕ → Bool) (low high : ℕ)
    → IsMonotone succeeds
    → low ≤ high
    → succeeds high ≡ false
    → succeeds low ≡ false
fails_below succeeds low high mono order failed = elim (Bool-cases (succeeds low)) [
  | inl works ↦ cc (mono low high order works)
  | inr fails ↦ fails
]

AllFail-behind :
    (succeeds : ℕ → Bool) (mid : ℕ)
    → IsMonotone succeeds
    → succeeds mid ≡ false
    → AllFail succeeds (mid + 1)
AllFail-behind succeeds mid mono failed g below =
    fails_below succeeds g mid mono (omega arith) failed

-- The search ends at a limit that succeeds, not above the start, within 1000 of every limit that does.
abbrev pub Finds : (ℕ → Bool) → ℕ → Option ℕ → Type 0
Finds succeeds high result =
    (h : ℕ) × (result ≡ some h)
    × (succeeds h ≡ true)
    × (h ≤ high)
    × ((g : ℕ) → succeeds g ≡ true → h ≤ g + 1000)

search_gas-ends :
    (fuel low high : ℕ) (succeeds : ℕ → Bool)
    → high < 2 ^ 63
    → high ≤ low + 1000
    → low ≤ high
    → succeeds high ≡ true
    → AllFail succeeds low
    → Finds succeeds high (search_gas (suc fuel) succeeds low high)
unfolding search_gas
search_gas-ends fuel low high succeeds small near order works fails =
    (high, ground arith, works, omega arith, λ g ok. ground (arith, ok, fails g))

search_gas-lower :
    (fuel low high mid : ℕ) (succeeds : ℕ → Bool)
    → ltb (add_int low 1000) high ≡ true
    → add_int low high / 2 ≡ mid
    → succeeds mid ≡ true
    → search_gas (suc fuel) succeeds low high ≡ search_gas fuel succeeds low mid
unfolding search_gas
search_gas-lower fuel low high mid succeeds goes at works = rw (goes, at, works) refl

search_gas-upper :
    (fuel low high mid : ℕ) (succeeds : ℕ → Bool)
    → ltb (add_int low 1000) high ≡ true
    → add_int low high / 2 ≡ mid
    → succeeds mid ≡ false
    → search_gas (suc fuel) succeeds low high ≡ search_gas fuel succeeds (add_int mid 1) high
unfolding search_gas
search_gas-upper fuel low high mid succeeds goes at works = rw (goes, at, works) refl

search_gas-Finds :
    (fuel low high : ℕ) (succeeds : ℕ → Bool)
    → IsMonotone succeeds
    → high < 2 ^ 63
    → low ≤ high
    → high ≤ low + span fuel
    → succeeds high ≡ true
    → AllFail succeeds low
    → Finds succeeds high (search_gas (suc fuel) succeeds low high)
search_gas-Finds zero low high succeeds mono small order near works fails =
    search_gas-ends zero low high succeeds small near order works fails
search_gas-Finds (suc fuel) low high succeeds mono small order near works fails =
    let mid = (low + high) / 2 in
    let at : add_int low high / 2 ≡ mid = ground arith in
    elim (Bool-cases (ltb (add_int low 1000) high)) [
      | inr ends ↦
          search_gas-ends (suc fuel) low high succeeds small (ground (arith, ends)) order works
            fails
      | inl goes ↦ elim (Bool-cases (succeeds mid)) [
        | inl mid_works ↦
            let (h, result, ok, below, best) =
              search_gas-Finds fuel low mid succeeds mono (omega arith) (omega arith) (omega arith)
                mid_works fails in
            (
              h,
              search_gas-lower (suc fuel) low high mid succeeds goes at mid_works ∙ result,
              ok,
              omega arith,
              best,
            )
        | inr mid_fails ↦
            let next : add_int mid 1 ≡ mid + 1 = ground arith in
            let step =
              search_gas-upper (suc fuel) low high mid succeeds goes at mid_fails
              ∙ ap (λ l. search_gas (suc fuel) succeeds l high) next in
            let (h, result, ok, below, best) =
              search_gas-Finds fuel (mid + 1) high succeeds mono small (ground (arith, goes))
                (omega arith) works (AllFail-behind succeeds mid mono mid_fails) in
            (h, step ∙ result, ok, below, best)
      ]
    ]

-- The binary search of EstimateGas, on a node for which more gas does no harm, between a limit that
-- fails and a limit below 2^63 that succeeds, ends within its 64 rounds, at a limit that succeeds, that
-- is not above the upper one, and that exceeds no limit that succeeds by more than 1000.
pub search_gas-total :
    (low high : ℕ) (succeeds : ℕ → Bool)
    → IsMonotone succeeds
    → high < 2 ^ 63
    → succeeds low ≡ false
    → succeeds high ≡ true
    → (h : ℕ) × (search_gas search_fuel succeeds low high ≡ some h)
      × (succeeds h ≡ true)
      × (h ≤ high)
      × ((g : ℕ) → succeeds g ≡ true → h ≤ g + 1000)
search_gas-total low high succeeds mono small fails works = elim (Bool-cases (ltb high low)) [
  | inl crossed ↦ cc (mono high low (ground (arith, crossed)) works)
  | inr order ↦
      search_gas-Finds 63 low high succeeds mono small (ground (arith, order)) (omega arith) works
        (λ g below. fails_below succeeds g low mono (omega arith) fails)
]
