-- ===== src/Parser/FlowTable/Hash.antt =====
-- The hash of a key in PRISM/src/parser/flow_table.cpp. The hash of a string is a parameter.
use Prim.Native.Nat.{bit_xor}
use prism_dev.Common.{ℕ, ◌≡◌, ap, String, true}
use prism_dev.Common.Bits.{shl}
use prism_dev.Parser.FlowTable.{FlowKey, key_eq}
use prism_dev.Parser.FlowTable.Direction.{key_eq_iff}

-- `operator()` of FlowKeyHash.
unfoldable pub hash_key : (String → ℕ) → FlowKey → ℕ
hash_key h k = bit_xor (bit_xor (bit_xor (h k.src) (h k.dst)) (shl k.sport 1)) (shl k.dport 2)

-- What an unordered_map wants of its hash: keys that `operator==` takes for equal have one hash.
hash_key-key_eq : (h : String → ℕ) (k o : FlowKey) → key_eq k o ≡ true → hash_key h k ≡ hash_key h o
hash_key-key_eq h k o same = ap (hash_key h) ((key_eq_iff k o).0 same)
