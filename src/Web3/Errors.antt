-- ===== src/Web3/Errors.antt =====
-- Which errors of a node are permanent and which concern the nonce (web3/rpc/web3_client.go,
-- web3/txmanager/txnonce.go). A message is its bytes, and strings.ToLower is that of ASCII.
pub mod Patterns
use Prim.Native.Char.{code}
use Prim.Native.String.{String}
use davinci_node.Common.{
  ℕ, ◌+◌, ◌≡◌, Bool, true, false, Option, none, some, List, [], ◌∷◌, ◌&&◌, ◌||◌, map, leb, ◌==◌,
  if◌then◌else◌,
}

abbrev pub Message : Type 0
Message = List ℕ

-- The bytes of an ASCII text.
abbrev pub codes : String → Message
codes String.[] = []
codes (String.◌∷◌ c s) = code c ∷ codes s

-- strings.HasPrefix and strings.Contains
unfoldable pub starts_with : Message → Message → Bool
starts_with [] msg = true
starts_with (a ∷ pattern') [] = false
starts_with (a ∷ pattern') (b ∷ msg) = (a == b) && starts_with pattern' msg

unfoldable pub contains_text : Message → Message → Bool
unfolding starts_with
contains_text pattern' [] = starts_with pattern' []
contains_text pattern' (b ∷ msg) =
    let rest = contains_text pattern' msg in if starts_with pattern' (b ∷ msg) then true else rest

abbrev pub to_lower : ℕ → ℕ
to_lower c = if leb b'A' c && leb c b'Z' then c + 32 else c

unfoldable pub contains_any : List Message → Message → Bool
unfolding contains_text
contains_any [] msg = false
contains_any (p ∷ ps) msg =
    let rest = contains_any ps msg in if contains_text p msg then true else rest

-- permanentTxErrorPatterns and permanentRPCErrorPatterns
abbrev pub permanent_tx_error_patterns : List Message
permanent_tx_error_patterns = codes "execution reverted" ∷ []

abbrev pub permanent_rpc_error_patterns : List Message
permanent_rpc_error_patterns = codes "blob transaction invalid tx RLP length" ∷ []

-- IsPermanentTxError, for the text of the error or none for nil.
unfoldable pub is_permanent_tx_error : Option Message → Bool
unfolding contains_any
is_permanent_tx_error none = false
is_permanent_tx_error (some msg) = contains_any permanent_tx_error_patterns (map to_lower msg)

-- IsPermanentRPCError
unfoldable pub is_permanent_rpc_error : Option Message → Bool
unfolding contains_any
is_permanent_rpc_error none = false
is_permanent_rpc_error (some msg) = contains_any permanent_rpc_error_patterns (map to_lower msg)

-- isNonceError
unfoldable pub is_nonce_error : Option Message → Bool
unfolding contains_text
is_nonce_error none = false
is_nonce_error (some msg) =
    contains_text (codes "nonce too low") msg
    || contains_text (codes "nonce too high") msg
    || contains_text (codes "already known") msg
