-- ===== src/Platform/Record.antt =====
-- The record by which a node is discovered: `new` makes and signs its own, `verify_record` and
-- `verify_hashmap_record` check that of another node.
pub mod Laws
use paper_plane.Prelude.{ℕ, Bool, Option, none, some, List, [], ◌∷◌, length, ◌==◌}
use paper_plane.Prelude.Exec.{Result, ok, err, failed_to_decode_txt_record, panicked}
use paper_plane.Prelude.Results.{◌>>=◌, ◌>>◌, ok_or, ensure}
use paper_plane.Handshake.{Crypto}
use paper_plane.Platform.{Bytes}
use paper_plane.Platform.Map.{TextMap, get, insert}
use paper_plane.Platform.Number.{to_string, parse}
use paper_plane.Platform.Txt.{encode_txt_record, decode_txt_record}

pub record DnsRecord : Type 0 where
  pub port : ℕ
  pub name : Bytes
  pub pub_key : Bytes

-- Keys and signatures, `hex::encode` and `hex::decode`, and `String::from_utf8`.
pub record Codecs : Type 0 where
  pub crypto : Crypto
  pub encode_hex : List ℕ → Bytes
  pub decode_hex : Bytes → Option (List ℕ)
  pub is_utf8 : Bytes → Bool

-- The texts "signature", "port", "name" and "pub_key".
abbrev pub signature_key : Bytes
signature_key = 115 ∷ 105 ∷ 103 ∷ 110 ∷ 97 ∷ 116 ∷ 117 ∷ 114 ∷ 101 ∷ []

abbrev pub port_key : Bytes
port_key = 112 ∷ 111 ∷ 114 ∷ 116 ∷ []

abbrev pub name_key : Bytes
name_key = 110 ∷ 97 ∷ 109 ∷ 101 ∷ []

abbrev pub pub_key_key : Bytes
pub_key_key = 112 ∷ 117 ∷ 98 ∷ 95 ∷ 107 ∷ 101 ∷ 121 ∷ []

module _ (d : Codecs) where
  -- The map that `new` fills for the key, the name and the port of the node.
  unfoldable pub txt_record_map : List ℕ → Bytes → ℕ → TextMap
  txt_record_map key name port =
      let signed = insert signature_key (d.encode_hex (d.crypto.sign key name)) [] in
      let placed = insert port_key (to_string port) signed in
      insert pub_key_key (d.encode_hex (d.crypto.verifying_key key)) (insert name_key name placed)

  required : Bytes → TextMap → Result Bytes
  required key record_map = ok_or (get key record_map) failed_to_decode_txt_record

  -- `hex::decode`, and `try_into` an array of `size` bytes.
  decode_bytes : ℕ → Bytes → Result (List ℕ)
  decode_bytes size text = do
    bytes ← ok_or (d.decode_hex text) failed_to_decode_txt_record
    ensure (length bytes == size) failed_to_decode_txt_record
    ok bytes

  unfoldable pub verify_hashmap_record : TextMap → Result DnsRecord
  unfolding required decode_bytes
  verify_hashmap_record record_map = do
    signature ← required signature_key record_map
    name ← required name_key record_map
    port ← required port_key record_map
    pub_key ← required pub_key_key record_map
    signature_bytes ← decode_bytes 64 signature
    pub_key_bytes ← decode_bytes 32 pub_key
    ensure (d.crypto.is_key pub_key_bytes) failed_to_decode_txt_record
    ensure (d.crypto.verify pub_key_bytes name signature_bytes) failed_to_decode_txt_record
    number ← ok_or (parse port) failed_to_decode_txt_record
    ok (record { port = number; name = name; pub_key = pub_key })

  -- The `unwrap` of a record that cannot be decoded panics.
  unfoldable pub verify_record : Bytes → Result DnsRecord
  verify_record bytes = do
    record_map ← ok_or (decode_txt_record d.is_utf8 bytes) panicked
    verify_hashmap_record record_map

-- The `unwrap` of `new`, over the entries of the map in the order of its iteration.
unfoldable pub own_txt_record : TextMap → Result Bytes
own_txt_record entries = ok_or (encode_txt_record entries) panicked
