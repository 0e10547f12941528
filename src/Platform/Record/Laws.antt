-- ===== src/Platform/Record/Laws.antt =====
-- A node's own record is verified by every other node; and what the signature does not cover.
use paper_plane.Prelude.{
  ℕ, ◌^◌, ◌<◌, ◌≡◌, refl, ap, ◌∙◌, true, Option, none, some, List, length, ◌==◌, arith, All,
  Option-cases, Bool-cases, ◌⊎◌, inl, inr,
}
use paper_plane.Prelude.Exec.{ok, err, failed_to_decode_txt_record, panicked}
use paper_plane.Prelude.Results.{ok_or}
use paper_plane.Handshake.Agreement.{IsSound}
use paper_plane.Platform.{Bytes}
use paper_plane.Platform.Map.{TextMap, get, insert, IsMap, same, get-insert}
use paper_plane.Platform.Number.{to_string, parse, parse-to_string}
use paper_plane.Platform.Txt.{encode_txt_record}
use paper_plane.Platform.Txt.RoundTrip.{CanSplit, decode_txt_record-encode_txt_record}
use paper_plane.Platform.Record.{
  DnsRecord, Codecs, signature_key, port_key, name_key, pub_key_key, txt_record_map, required,
  decode_bytes, verify_hashmap_record, verify_record, own_txt_record,
}

unwrapped : (o : Option Bytes) (bytes : Bytes) → ok_or o panicked ≡ ok bytes → o ≡ some bytes
unwrapped none bytes e = absurd (ground arith)
unwrapped (some b) bytes e = ground arith

module _ (d : Codecs) where
  -- What a record has to hold to be verified as this one.
  record Verified (m : TextMap) (name pub_key : Bytes) : Type 0 where
    signature : Bytes
    signature_bytes : List ℕ
    pub_key_bytes : List ℕ
    has_signature : get signature_key m ≡ some signature
    has_name : get name_key m ≡ some name
    has_pub_key : get pub_key_key m ≡ some pub_key
    decoded_signature : d.decode_hex signature ≡ some signature_bytes
    decoded_pub_key : d.decode_hex pub_key ≡ some pub_key_bytes
    signature_len : length signature_bytes ≡ 64
    pub_key_len : length pub_key_bytes ≡ 32
    is_key : d.crypto.is_key pub_key_bytes ≡ true
    verifies : d.crypto.verify pub_key_bytes name signature_bytes ≡ true

  verified :
      (m : TextMap) (name pub_key port : Bytes) (number : ℕ)
      → Verified m name pub_key
      → get port_key m ≡ some port
      → parse port ≡ some number
      → verify_hashmap_record d m ≡ ok (record { port = number; name = name; pub_key = pub_key })
  unfolding verify_hashmap_record required decode_bytes
  verified m name pub_key port number v has parsed = ground arith

  decode_cases :
      (size : ℕ) (text : Bytes)
      → (decode_bytes d size text ≡ err failed_to_decode_txt_record)
        ⊎ ((bytes : List ℕ) × (d.decode_hex text ≡ some bytes)
            × (length bytes ≡ size)
            × (decode_bytes d size text ≡ ok bytes))
  unfolding decode_bytes
  decode_cases size text = elim (Option-cases (d.decode_hex text)) [
    | inl none_left ↦ inl (ground arith)
    | inr (bytes, has) ↦ elim (Bool-cases (length bytes == size)) [
      | inl fits ↦ inr (bytes, has, ground arith, ground arith)
      | inr other ↦ inl (ground arith)
    ]
  ]

  checked :
      (m : TextMap) (r : DnsRecord) (signature port : Bytes)
      → get signature_key m ≡ some signature
      → get name_key m ≡ some r.name
      → get port_key m ≡ some port
      → get pub_key_key m ≡ some r.pub_key
      → verify_hashmap_record d m ≡ ok r
      → Verified m r.name r.pub_key
  unfolding verify_hashmap_record required
  checked m r signature port has_signature has_name has_port has_pub_key e =
      elim (decode_cases 64 signature) [
        | inl fails ↦ absurd (ground arith)
        | inr (bytes, hex, len, decoded) ↦ elim (decode_cases 32 r.pub_key) [
          | inl fails ↦ absurd (ground arith)
          | inr (key, key_hex, key_len, key_decoded) ↦ record {
            signature = signature;
            signature_bytes = bytes;
            pub_key_bytes = key;
            has_signature = has_signature;
            has_name = has_name;
            has_pub_key = has_pub_key;
            decoded_signature = hex;
            decoded_pub_key = key_hex;
            signature_len = len;
            pub_key_len = key_len;
            is_key = ground arith;
            verifies = ground arith;
          }
        ]
      ]

  names_kept :
      (m : TextMap) (r : DnsRecord) (name : Bytes)
      → get name_key m ≡ some name
      → verify_hashmap_record d m ≡ ok r
      → name ≡ r.name
  unfolding verify_hashmap_record required decode_bytes
  names_kept m r name has e = ground arith

  keys_kept :
      (m : TextMap) (r : DnsRecord) (pub_key : Bytes)
      → get pub_key_key m ≡ some pub_key
      → verify_hashmap_record d m ≡ ok r
      → pub_key ≡ r.pub_key
  unfolding verify_hashmap_record required decode_bytes
  keys_kept m r pub_key has e = ground arith

  verify_hashmap_record-Verified :
      (m : TextMap) (r : DnsRecord) → verify_hashmap_record d m ≡ ok r → Verified m r.name r.pub_key
  unfolding verify_hashmap_record required decode_bytes
  verify_hashmap_record-Verified m r e = elim (Option-cases (get signature_key m)) [
    | inl n1 ↦ absurd (ground arith)
    | inr (signature, has_signature) ↦ elim (Option-cases (get name_key m)) [
      | inl n2 ↦ absurd (ground arith)
      | inr (name, has_name) ↦ elim (Option-cases (get port_key m)) [
        | inl n3 ↦ absurd (ground arith)
        | inr (port, has_port) ↦ elim (Option-cases (get pub_key_key m)) [
          | inl n4 ↦ absurd (ground arith)
          | inr (pub_key, has_pub_key) ↦
              let same_name : name ≡ r.name = names_kept m r name has_name e in
              let same_key : pub_key ≡ r.pub_key = keys_kept m r pub_key has_pub_key e in
              checked m r signature port has_signature
                (has_name ∙ ap (λ (n : Bytes). some n) same_name) has_port
                (has_pub_key ∙ ap (λ (n : Bytes). some n) same_key) e
        ]
      ]
    ]
  ]

  moved :
      (m : TextMap) (name pub_key port : Bytes)
      → Verified m name pub_key
      → Verified (insert port_key port m) name pub_key
  unfolding same
  moved m name pub_key port v = record {
    signature = v.signature;
    signature_bytes = v.signature_bytes;
    pub_key_bytes = v.pub_key_bytes;
    has_signature = get-insert port_key signature_key port m ∙ v.has_signature;
    has_name = get-insert port_key name_key port m ∙ v.has_name;
    has_pub_key = get-insert port_key pub_key_key port m ∙ v.has_pub_key;
    decoded_signature = v.decoded_signature;
    decoded_pub_key = v.decoded_pub_key;
    signature_len = v.signature_len;
    pub_key_len = v.pub_key_len;
    is_key = v.is_key;
    verifies = v.verifies;
  }

  -- The bug: a record that is verified is verified with any other port below 2 ^ 16 in its place
  -- too.
  pub port_unsigned :
      (m : TextMap) (r : DnsRecord) (port : ℕ)
      → port < 2 ^ 16
      → verify_hashmap_record d m ≡ ok r
      → verify_hashmap_record d (insert port_key (to_string port) m) ≡ ok (record r { port = port })
  unfolding same
  port_unsigned m r port small e =
      verified (insert port_key (to_string port) m) r.name r.pub_key (to_string port) port
        (moved m r.name r.pub_key (to_string port) (verify_hashmap_record-Verified m r e))
        (get-insert port_key port_key (to_string port) m) (parse-to_string port small)

  -- The texts that `hex` writes are read back.
  abbrev pub ReadsHex : Type 0
  ReadsHex = (bytes : List ℕ) → d.decode_hex (d.encode_hex bytes) ≡ some bytes

  module _ (key : List ℕ) (name : Bytes) (port : ℕ) where
    -- The node's own map, in the order of some iteration.
    abbrev pub IsIteration : TextMap → Type 0
    IsIteration entries =
        IsMap entries × ((k : Bytes) → get k entries ≡ get k (txt_record_map d key name port))

    own-Verified :
        (m : TextMap)
        → ((k : Bytes) → get k m ≡ get k (txt_record_map d key name port))
        → IsSound d.crypto
        → ReadsHex
        → Verified m name (d.encode_hex (d.crypto.verifying_key key))
    unfolding txt_record_map get insert same
    own-Verified m own h hex = record {
      signature = d.encode_hex (d.crypto.sign key name);
      signature_bytes = d.crypto.sign key name;
      pub_key_bytes = d.crypto.verifying_key key;
      has_signature = own signature_key;
      has_name = own name_key;
      has_pub_key = own pub_key_key;
      decoded_signature = hex (d.crypto.sign key name);
      decoded_pub_key = hex (d.crypto.verifying_key key);
      signature_len = h.signature_len key name;
      pub_key_len = h.key_len key;
      is_key = h.is_key key;
      verifies = h.verifies key name;
    }

    pub own_port : get port_key (txt_record_map d key name port) ≡ some (to_string port)
    unfolding txt_record_map get insert same
    own_port = refl

    -- The map itself is verified, in whatever order it is.
    pub own_verified :
        (m : TextMap)
        → ((k : Bytes) → get k m ≡ get k (txt_record_map d key name port))
        → IsSound d.crypto
        → ReadsHex
        → port < 2 ^ 16
        → verify_hashmap_record d m
          ≡ ok (record {
            port = port;
            name = name;
            pub_key = d.encode_hex (d.crypto.verifying_key key);
          })
    own_verified m own h hex small =
        verified m name (d.encode_hex (d.crypto.verifying_key key)) (to_string port) port
          (own-Verified m own h hex) (own port_key ∙ own_port) (parse-to_string port small)

    -- If lengths and signatures are as the program relies on and hexadecimal texts are read back,
    -- the record that a node makes of its name, its key and a port below 2 ^ 16, encoded in
    -- whatever order its map is iterated, is verified, and gives the port, the name and the key
    -- again, if it can be encoded, its entries are UTF-8 and no key holds the sign of equality.
    pub verify_record-own_txt_record :
        (entries : TextMap) (bytes : Bytes)
        → IsSound d.crypto
        → ReadsHex
        → port < 2 ^ 16
        → IsIteration entries
        → All (CanSplit d.is_utf8) entries
        → own_txt_record entries ≡ ok bytes
        → verify_record d bytes
          ≡ ok (record {
            port = port;
            name = name;
            pub_key = d.encode_hex (d.crypto.verifying_key key);
          })
    unfolding verify_record own_txt_record
    verify_record-own_txt_record entries bytes h hex small iterates split e =
        let encoded : encode_txt_record entries ≡ some bytes =
          unwrapped (encode_txt_record entries) bytes e in
        let (m, decoded, found) =
          decode_txt_record-encode_txt_record d.is_utf8 entries bytes iterates.0 split encoded in
        let own : (k : Bytes) → get k m ≡ get k (txt_record_map d key name port) =
          λ k. found k ∙ iterates.1 k in
        rw decoded (own_verified m own h hex small)
