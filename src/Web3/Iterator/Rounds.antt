-- ===== src/Web3/Iterator/Rounds.antt =====
-- Which endpoints the iterator hands out: all in turn, and none is lost.
use davinci_node.Common.{
  ℕ, zero, suc, ◌+◌, ◌-◌, ◌%◌, ◌<◌, ◌≡◌, refl, ap, some, List, [], ◌∷◌, ◌++◌, map, arith, length,
  take, drop, get_elem?, length-append, lt-get_elem?, get_elem?-length, get_elem?-append,
  append_assoc, ◌∙◌, take-length-append, drop-append, ◌⊎◌, append-nil, if◌then◌else◌, Bool-cases,
  Option-cases, inl, inr,
}
use native.Mathlib.Nat.{mod-lt, mod-eq_of_lt, mod-eq-sub-mod}
use davinci_node.Db.{Key, key_eq, key_eq_refl}
use davinci_node.Web3.Iterator.{
  Web3Endpoint, Web3Iterator, endpoint, add_endpoints, cooled, still_disabled, check_cooldowns,
  next_available, next_endpoint, index_of_uri, restore_available, disable_at, disable, moved_index,
  step_index, enabled, is_cool,
}
use davinci_node.Web3.Iterator.Valid.{IsValid}

-- How many endpoints of a list have the URI, and how many the pool holds, disabled ones included.
unfoldable pub count_uri : Key → List Web3Endpoint → ℕ
count_uri u [] = 0
count_uri u (e ∷ es) = (if key_eq e.uri u then 1 else 0) + count_uri u es

abbrev pub held : Key → Web3Iterator → ℕ
held u it = count_uri u it.available + count_uri u it.disabled

count_uri-append :
    (u : Key) (xs ys : List Web3Endpoint) → count_uri u (xs ++ ys) ≡ count_uri u xs + count_uri u ys
unfolding count_uri
count_uri-append u [] ys = omega arith
count_uri-append u (x ∷ xs) ys = omega (arith, count_uri-append u xs ys)

count_uri-cooled :
    (u : Key) (now : ℕ) (es : List Web3Endpoint)
    → count_uri u (cooled now es) + count_uri u (still_disabled now es) ≡ count_uri u es
unfolding count_uri cooled still_disabled
count_uri-cooled u now [] = refl
count_uri-cooled u now (e ∷ es) = elim (Bool-cases (is_cool now e)) [
  | inl cool ↦ rw cool (omega (arith, count_uri-cooled u now es))
  | inr hot ↦ rw hot (omega (arith, count_uri-cooled u now es))
]

count_uri-enabled :
    (u : Key) (es : List Web3Endpoint) → count_uri u (map enabled es) ≡ count_uri u es
unfolding count_uri
count_uri-enabled u [] = refl
count_uri-enabled u (e ∷ es) = omega (arith, count_uri-enabled u es)

count_uri-without :
    (u : Key) (i : ℕ) (e : Web3Endpoint) (es : List Web3Endpoint)
    → get_elem? es i ≡ some e
    → count_uri u (take i es ++ drop (i + 1) es) + count_uri u (e ∷ []) ≡ count_uri u es
unfolding count_uri
count_uri-without u i e [] h = cc
count_uri-without u zero e (x ∷ es) h = ground arith
count_uri-without u (suc i) e (x ∷ es) h = ground (arith, count_uri-without u i e es h)

check_cooldowns-held :
    (u : Key) (now : ℕ) (it : Web3Iterator) → held u (check_cooldowns now it) ≡ held u it
unfolding check_cooldowns
check_cooldowns-held u now it = omega (
  arith,
  count_uri-append u it.available (cooled now it.disabled),
  count_uri-cooled u now it.disabled,
)

next_available-held : (u : Key) (it : Web3Iterator) → held u (next_available it).0 ≡ held u it
unfolding next_available
next_available-held u it = ground arith

restore_available-held : (u : Key) (it : Web3Iterator) → held u (restore_available it) ≡ held u it
unfolding restore_available count_uri
restore_available-held u it = ground (
  arith,
  count_uri-enabled u (it.available ++ it.disabled),
  count_uri-append u it.available it.disabled,
)

disable_at-held :
    (u : Key) (now i : ℕ) (it : Web3Iterator) → held u (disable_at now i it) ≡ held u it
unfolding disable_at count_uri
disable_at-held u now i it = elim (Option-cases (get_elem? it.available i)) [
  | inl outside ↦ rw (disable_at, outside) refl
  | inr (e, there) ↦
      let it' : Web3Iterator = record {
        next_index = moved_index it.next_index i;
        available = take i it.available ++ drop (i + 1) it.available;
        disabled = it.disabled ++ record e { disabled_at = now } ∷ [];
      } in
      rw (disable_at, there)
        (omega (
          arith,
          restore_available-held u it',
          count_uri-without u i e it.available there,
          count_uri-append u it.disabled (record e { disabled_at = now } ∷ []),
        ))
]

-- Next and Disable, at any times, neither lose nor duplicate an endpoint: of each URI the two lists
-- together hold as many endpoints as before. Add adds its own.
pub iterator-held :
    (u v : Key) (now : ℕ) (es : List Web3Endpoint) (it : Web3Iterator)
    → (held u (next_endpoint now it).0 ≡ held u it)
      × (held u (disable now v it) ≡ held u it)
      × (held u (add_endpoints es it) ≡ held u it + count_uri u es)
unfolding next_endpoint disable add_endpoints
iterator-held u v now es it = (
  omega (arith, next_available-held u (check_cooldowns now it), check_cooldowns-held u now it),
  elim (Option-cases (index_of_uri v it.available)) [
    | inl absent ↦ rw (disable, absent) refl
    | inr (i, found) ↦ rw (disable, found) (disable_at-held u now i it)
  ],
  omega (arith, count_uri-append u it.available es),
)

-- Calls of Next at the given times.
unfoldable pub ask_all : List ℕ → Web3Iterator → Web3Iterator
ask_all [] it = it
ask_all (now ∷ nows) it = ask_all nows (next_endpoint now it).0

check_cooldowns_off : (now : ℕ) (it : Web3Iterator) → it.disabled ≡ [] → check_cooldowns now it ≡ it
unfolding check_cooldowns cooled still_disabled
check_cooldowns_off now it off = ground (arith, off, append-nil it.available)

next_endpoint_off :
    (now : ℕ) (e : Web3Endpoint) (it : Web3Iterator)
    → it.disabled ≡ []
    → get_elem? it.available it.next_index ≡ some e
    → next_endpoint now it
      ≡ (record it { next_index = step_index (length it.available) it.next_index }, endpoint e)
unfolding next_endpoint next_available
next_endpoint_off now e it off found =
    ground (arith, check_cooldowns_off now it off, lt-get_elem? it.available it.next_index e found)

-- The position j comes up after the given calls, before or after the index has gone round.
abbrev ComesUp : ℕ → List ℕ → Web3Iterator → Type 0
ComesUp j nows it =
    (length nows < length it.available)
    × ((it.next_index + length nows ≡ j) ⊎ (it.next_index + length nows ≡ j + length it.available))

next_endpoint-ComesUp :
    (j now : ℕ) (nows : List ℕ) (e : Web3Endpoint) (it : Web3Iterator)
    → it.next_index < length it.available
    → it.disabled ≡ []
    → get_elem? it.available j ≡ some e
    → ComesUp j nows it
    → (next_endpoint now (ask_all nows it)).1 ≡ endpoint e
unfolding ask_all
next_endpoint-ComesUp j now [] e it h off found c =
    let at_j : it.next_index ≡ j = ground (arith, lt-get_elem? it.available j e found) in
    ap (λ r. r.1) (next_endpoint_off now e it off (rw at_j found))
next_endpoint-ComesUp j now (n ∷ nows) e it h off found c =
    let (d, here) = get_elem?-length it.available it.next_index h in
    let it' : Web3Iterator = record it {
      next_index = step_index (length it.available) it.next_index;
    } in
    rw (next_endpoint_off n d it off here) (
      next_endpoint-ComesUp j now nows e it' (ground arith) off found
        (ground (arith, lt-get_elem? it.available j e found)))

-- With n endpoints available and none disabled, the endpoint at any position j is what Next returns
-- after (j + n - i) mod n calls of Next, i being the index at the start and the times of the calls any:
-- no endpoint waits for n calls.
pub next_endpoint-fair :
    (j now : ℕ) (nows : List ℕ) (e : Web3Endpoint) (it : Web3Iterator)
    → IsValid it
    → it.disabled ≡ []
    → get_elem? it.available j ≡ some e
    → length nows ≡ (j + length it.available - it.next_index) % length it.available
    → ((next_endpoint now (ask_all nows it)).1 ≡ endpoint e) × (length nows < length it.available)
next_endpoint-fair j now nows e it v off found wait =
    let l = length it.available in
    let inside = lt-get_elem? it.available j e found in
    let c : ComesUp j nows it = ground (
      arith,
      mod-lt (j + l - it.next_index) {m = l},
      mod-eq_of_lt {n = j + l - it.next_index} {m = l},
      mod-eq-sub-mod {n = j + l - it.next_index} {m = l},
      mod-eq_of_lt {n = j - it.next_index} {m = l},
    ) in
    (next_endpoint-ComesUp j now nows e it (ground arith) off found c, c.0)

index_of_uri_behind :
    (e : Web3Endpoint) (before rest : List Web3Endpoint)
    → count_uri e.uri before ≡ 0
    → index_of_uri e.uri (before ++ e ∷ rest) ≡ some (length before)
unfolding index_of_uri count_uri
index_of_uri_behind e [] rest fresh = ground (arith, key_eq_refl e.uri)
index_of_uri_behind e (x ∷ before) rest fresh = ground (arith, index_of_uri_behind e before rest)

restore_available_inside :
    (it : Web3Iterator) → it.next_index < length it.available → restore_available it ≡ it
unfolding restore_available
restore_available_inside it h = ground arith

next_endpoint-at :
    (now : ℕ) (e : Web3Endpoint) (it : Web3Iterator)
    → get_elem? (it.available ++ cooled now it.disabled) it.next_index ≡ some e
    → (next_endpoint now it).1 ≡ endpoint e
unfolding next_endpoint next_available check_cooldowns
next_endpoint-at now e it found =
    ground (arith, lt-get_elem? (it.available ++ cooled now it.disabled) it.next_index e found)

-- The index is at an endpoint that is disabled: the one behind it is then passed over, and the second
-- one behind it is what Next returns, whatever has cooled down.
pub disable-skips :
    (t now : ℕ) (before after : List Web3Endpoint) (e skipped f : Web3Endpoint) (it : Web3Iterator)
    → it.available ≡ before ++ e ∷ skipped ∷ f ∷ after
    → it.next_index ≡ length before
    → count_uri e.uri before ≡ 0
    → (next_endpoint now (disable t e.uri it)).1 ≡ endpoint f
unfolding disable disable_at
disable-skips t now before after e skipped f it av at fresh =
    let rest = skipped ∷ f ∷ after in
    let it' : Web3Iterator = record {
      next_index = length before + 1;
      available = before ++ rest;
      disabled = it.disabled ++ record e { disabled_at = t } ∷ [];
    } in
    let fits : it'.next_index < length it'.available = ground (arith, length-append before rest) in
    let off : disable t e.uri it ≡ it' = ground (
      arith,
      index_of_uri_behind e before rest fresh,
      get_elem?-append before (e ∷ rest) (length before) 0,
      take-length-append before (e ∷ rest),
      drop-append before (e ∷ rest) (length before + 1) 1,
      restore_available_inside it' fits,
    ) in
    let back = cooled now it'.disabled in
    let here =
      ap (λ es. get_elem? es (length before + 1)) (append_assoc before rest back)
      ∙ get_elem?-append before (rest ++ back) (length before + 1) 1 refl in
    rw off (next_endpoint-at now f it' here)
