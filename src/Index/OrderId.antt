-- ===== src/Index/OrderId.antt =====
-- `order_id` of indexer.rs: sixteen hexadecimal digits, a dash and the id of the author.
pub mod Order
use Prim.Native.Char.{code}
use paper_plane.Prelude.{
  ℕ, zero, suc, ◌+◌, ◌/◌, ◌%◌, String, List, [], ◌∷◌, ◌++◌, ltb, if◌then◌else◌,
}
use paper_plane.Models.{Text}

abbrev pub codes : String → Text
codes String.[] = []
codes (String.◌∷◌ c s) = code c ∷ codes s

-- `to_be_bytes` of a word of `n` bytes.
to_be_bytes : ℕ → ℕ → List ℕ
to_be_bytes zero x = []
to_be_bytes (suc n) x = to_be_bytes n (x / 256) ++ (x % 256) ∷ []

abbrev hex_digit : ℕ → ℕ
hex_digit d = if ltb d 10 then 48 + d else 87 + d

-- `format!("{:02x}", byte)`, joined.
hex_text : List ℕ → Text
hex_text [] = []
hex_text (b ∷ bs) = hex_digit (b / 16) ∷ hex_digit (b % 16) ∷ hex_text bs

unfoldable pub order_id : ℕ → String → Text
unfolding to_be_bytes hex_text
order_id order peer_id = hex_text (to_be_bytes 8 order) ++ (b'-' ∷ codes peer_id)
