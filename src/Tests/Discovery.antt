-- ===== src/Tests/Discovery.antt =====
-- Tests of the theorems on the records by which nodes are discovered.
use paper_plane.Prelude.{
  eq_iff, All, ◌≢◌, String, List, ◌==◌, if◌then◌else◌, ◌≡◌, ◌*◌, ◌≤◌, refl, true, false, ◌⊎◌, none,
  some, [], ◌∷◌, ◌++◌, length, any, arith,
}
use paper_plane.Prelude.Exec.{ok}
use paper_plane.Platform.{Bytes}
use paper_plane.Platform.Map.{TextMap, IsMap, same, get, insert}
use paper_plane.Platform.Txt.{encode_txt_record}
use paper_plane.Platform.Txt.RoundTrip.{CanSplit, is_long, encode_txt_record_lem}
use paper_plane.Platform.Number.{parse, digits, to_string}
use paper_plane.Platform.Record.{
  signature_key, name_key, pub_key_key, Codecs, port_key, txt_record_map, verify_hashmap_record,
  verify_record, own_txt_record,
}
use paper_plane.ChatBot.Discovery.Register.{OwnService, own_service, registered_found}
use paper_plane.Peer.{Peer}
use paper_plane.Platform.Record.Laws.{port_unsigned, verify_record-own_txt_record}
use paper_plane.Prelude.Dict
use paper_plane.Prelude.Dict.{lookup}
use paper_plane.Peers.{new_peer, save_row}
use paper_plane.Sync.Serve.{save_peer}
use paper_plane.Platform.Chat.{ChatManager, set_peer}
use paper_plane.ChatBot.Discovery.{
  v4, ServiceInfo, ServiceEvent, service_resolved, link_local, before_colon, peer_addr, found_peer,
  on_service, browse,
}
use paper_plane.ChatBot.Discovery.Laws.{Offers, browse_lem}
use paper_plane.Tests.{key, keys, two_messages, anna}
use paper_plane.Tests.Pool.{pool, crypto, crypto-IsSound}

-- The entries `a=1` and `b=`.
abbrev entries : TextMap
entries = (97 ∷ [], 49 ∷ []) ∷ (98 ∷ [], []) ∷ []

abbrev encoded : Bytes
encoded = 3 ∷ 97 ∷ 61 ∷ 49 ∷ 2 ∷ 98 ∷ 61 ∷ []

entries-encoded : encode_txt_record entries ≡ some encoded
unfolding encode_txt_record
entries-encoded = refl

encode_txt_record_lem_example :
    ((encode_txt_record entries ≡ none) × (any is_long entries ≡ true))
    ⊎ ((bytes : Bytes) × (encode_txt_record entries ≡ some bytes)
        × (any is_long entries ≡ false)
        × (length bytes ≤ 256 * length entries))
encode_txt_record_lem_example = encode_txt_record_lem entries

-- Hexadecimal text that is the bytes themselves.
abbrev codecs : Codecs
codecs = record {
  crypto = crypto;
  encode_hex = λ b. b;
  decode_hex = λ t. some t;
  is_utf8 = λ b. true;
}

abbrev own : TextMap
own = txt_record_map codecs (1 ∷ []) (65 ∷ []) 8080

own_verified :
    verify_hashmap_record codecs own ≡ ok (record { port = 8080; name = 65 ∷ []; pub_key = key })
unfolding verify_hashmap_record txt_record_map get insert same parse digits
own_verified = refl

port_unsigned_example :
    verify_hashmap_record codecs (insert port_key (to_string 9) own)
    ≡ ok (record { port = 9; name = 65 ∷ []; pub_key = key })
port_unsigned_example =
    port_unsigned codecs own (record { port = 8080; name = 65 ∷ []; pub_key = key }) 9 (omega arith)
      own_verified

-- The entries `signature=...`, `port=8080`, `name=A` and `pub_key=...`.
abbrev own_bytes : Bytes
own_bytes =
    74 ∷ (signature_key ++ 61 ∷ key ++ key)
    ++ 9 ∷ (port_key ++ 61 ∷ 56 ∷ 48 ∷ 56 ∷ 48 ∷ [])
    ++ 6 ∷ (name_key ++ 61 ∷ 65 ∷ [])
    ++ 40 ∷ (pub_key_key ++ 61 ∷ key)

own_encoded : own_txt_record own ≡ ok own_bytes
unfolding own_txt_record encode_txt_record txt_record_map insert same digits
own_encoded = refl

own-CanSplit : All (CanSplit (λ b. true)) own
unfolding txt_record_map insert same digits
own-CanSplit = ground arith

own-IsMap : IsMap own
unfolding txt_record_map insert same digits get
own-IsMap = (refl, (refl, (refl, (refl, tt))))

verify_record-own_txt_record_example :
    verify_record codecs own_bytes ≡ ok (record { port = 8080; name = 65 ∷ []; pub_key = key })
verify_record-own_txt_record_example =
    verify_record-own_txt_record codecs (1 ∷ []) (65 ∷ []) 8080 own own_bytes crypto-IsSound
      (λ b. refl) (omega arith) (own-IsMap, λ k. refl) own-CanSplit own_encoded

abbrev manager : ChatManager
manager = record { node = two_messages; pool = pool; local = anna; delegate = none }

-- The texts of the service: a name, a key and an address.
abbrev text : Bytes → String
text b = if length b == 1 then "Dora" else if length b == 32 then "dora" else "169.254.7.2:8080"

-- The first address is not link-local.
abbrev service : ServiceInfo
service = record {
  addresses =
      v4 (record { a = 10; b = 0; c = 0; d = 2 })
      ∷ v4 (record { a = 169; b = 254; c = 7; d = 2 })
      ∷ [];
  port = 5353;
  properties = own;
}

dora_set :
    lookup "dora" (browse codecs keys text (service_resolved 0 service ∷ []) manager).pool.addrs
    ≡ some "169.254.7.2:8080"
unfolding browse on_service found_peer peer_addr before_colon link_local digits
    verify_hashmap_record txt_record_map get insert same parse set_peer new_peer save_peer save_row
    lookup Dict.insert
dora_set = refl

browse_lem_example :
    (lookup "dora" manager.pool.addrs ≡ some "169.254.7.2:8080")
    ⊎ ((before : List ServiceEvent) × (e : ServiceEvent) × (after : List ServiceEvent)
        × (service_resolved 0 service ∷ [] ≡ before ++ e ∷ after)
        × Offers codecs keys text "dora" "169.254.7.2:8080" e
        × ("dora" ≢ manager.local.id))
browse_lem_example =
    browse_lem codecs keys text (service_resolved 0 service ∷ []) manager "dora" "169.254.7.2:8080"
      dora_set

-- Dora's bot registers, and Anna's resolves what it has registered.
abbrev dora : Peer
dora = record {
  id = "dora";
  name = some "Dora";
  created_at = 0;
  public_key = key;
  signing_key = none;
}

registered_found_example :
    (svc : OwnService) × (own_service (65 ∷ []) own ≡ some svc)
    × (svc.instance_name ≡ 67 ∷ 104 ∷ 97 ∷ 116 ∷ 45 ∷ 65 ∷ [])
    × (svc.hostname ≡ 112 ∷ 101 ∷ 101 ∷ 114 ∷ 45 ∷ 65 ∷ 46 ∷ 108 ∷ 111 ∷ 99 ∷ 97 ∷ 108 ∷ 46 ∷ [])
    × (let info : ServiceInfo = record {
      addresses = service.addresses;
      port = svc.port;
      properties = svc.properties;
    } in
        lookup "dora" (on_service codecs keys text (service_resolved 0 info) manager).pool.addrs
        ≡ some "169.254.7.2:8080")
unfolding digits
registered_found_example =
    registered_found codecs (1 ∷ []) (65 ∷ []) 8080 keys text 0 manager own service.addresses dora
      (record { a = 169; b = 254; c = 7; d = 2 }) crypto-IsSound (λ b. refl) (omega arith)
      (own-IsMap, λ k. refl) (unfold link_local in refl) (ground (arith, eq_iff "dora" "anna"))
      (unfold new_peer in refl) refl
