-- ===== src/Web3/Errors/Patterns.antt =====
-- The patterns of permanent errors of an endpoint against the text in lower case.
use davinci_node.Common.{
  ℕ, ◌≡◌, refl, ap, Bool, true, false, ◌&&◌, Option, none, some, [], ◌∷◌, map, arith, leb, ◌==◌,
  if◌then◌else◌, Bool-cases, inl, inr,
}
use davinci_node.Web3.Errors.{
  Message, codes, starts_with, contains_text, to_lower, is_permanent_rpc_error,
}

is_capital : ℕ → Bool
is_capital c = leb b'A' c && leb c b'Z'

-- A pattern with a capital letter in it.
has_capital : Message → Bool
has_capital [] = false
has_capital (c ∷ cs) = let rest = has_capital cs in if is_capital c then true else rest

to_lower-ne : (c b : ℕ) → is_capital c ≡ true → (c == to_lower b) ≡ false
unfolding is_capital
to_lower-ne c b capital = ground arith

starts_with-capital :
    (p msg : Message) → has_capital p ≡ true → starts_with p (map to_lower msg) ≡ false
unfolding starts_with has_capital
starts_with-capital [] msg h = cc
starts_with-capital (c ∷ p) [] h = refl
starts_with-capital (c ∷ p) (b ∷ msg) h = elim (Bool-cases (is_capital c)) [
  | inl capital ↦ rw (to_lower-ne c b capital) refl
  | inr small ↦ ground (arith, small, starts_with-capital p msg)
]

contains_text-capital :
    (p msg : Message) → has_capital p ≡ true → contains_text p (map to_lower msg) ≡ false
unfolding contains_text
contains_text-capital p [] h = starts_with-capital p [] h
contains_text-capital p (b ∷ msg) h =
    ground (arith, starts_with-capital p (b ∷ msg) h, contains_text-capital p msg h)

-- No error of a node is found to be a permanent error of its endpoint: the text is compared in lower
-- case, and the only pattern has capitals.
pub is_permanent_rpc_error-never : (error : Option Message) → is_permanent_rpc_error error ≡ false
unfolding is_permanent_rpc_error has_capital is_capital
is_permanent_rpc_error-never none = refl
is_permanent_rpc_error-never (some msg) =
    ap (λ b. if b then true else false)
      (contains_text-capital (codes "blob transaction invalid tx RLP length") msg refl)
