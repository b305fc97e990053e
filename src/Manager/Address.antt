-- ===== src/Manager/Address.antt =====
-- The two regular expressions of `ContextManager.__init__`. `$` also matches before a newline that
-- ends the text.
use Prim.Native.Char.{code}
use blockchain_node.Prelude.{
  String, Bool, true, false, ◌&&◌, ◌||◌, List, [], ◌∷◌, ℕ, zero, suc, leb, eqb,
}

abbrev pub codes : String → List ℕ
codes String.[] = []
codes (String.◌∷◌ c s) = code c ∷ codes s

-- `[0-9a-f]`
abbrev pub is_hex : ℕ → Bool
is_hex c = (leb b'0' c && leb c b'9') || (leb b'a' c && leb c b'f')

-- `$`
abbrev pub at_end : List ℕ → Bool
at_end [] = true
at_end (c ∷ []) = eqb c 10
at_end (c ∷ d ∷ s) = false

-- `[0-9a-f]{n}$`
unfoldable pub hex_run : ℕ → List ℕ → Bool
hex_run zero s = at_end s
hex_run (suc n) [] = false
hex_run (suc n) (c ∷ s) = is_hex c && hex_run n s

-- `([0-9a-f]{2}){0,n}$`
unfoldable pub hex_pairs : ℕ → List ℕ → Bool
hex_pairs zero s = at_end s
hex_pairs (suc n) [] = true
hex_pairs (suc n) (c ∷ []) = eqb c 10
hex_pairs (suc n) (c ∷ d ∷ s) = is_hex c && is_hex d && hex_pairs n s

unfoldable pub address_is_valid : String → Bool
unfolding hex_run
address_is_valid address = hex_run 70 (codes address)

unfoldable pub namespace_is_valid : String → Bool
unfolding hex_pairs
namespace_is_valid namespace = hex_pairs 35 (codes namespace)
