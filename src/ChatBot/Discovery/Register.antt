-- ===== src/ChatBot/Discovery/Register.antt =====
-- ChatLib/chat-bot/src/main.rs: the service that the bot registers with the mDNS daemon. It is
-- what the bot of another node resolves.
use paper_plane.Prelude.{
  ℕ, ◌^◌, ◌<◌, ◌≡◌, ◌≢◌, refl, ap, ◌∙◌, String, true, false, Option, none, some, List, [], ◌∷◌,
  ◌++◌, arith, eq_iff,
}
use paper_plane.Prelude.Dict.{lookup, lookup-insert}
use paper_plane.Peer.{Peer}
use paper_plane.Peers.{Keys, new_peer, save_row}
use paper_plane.Sync.Serve.{save_peer}
use paper_plane.Platform.Chat.{ChatManager, set_peer}
use paper_plane.ChatBot.Discovery.{
  Ipv4Addr, IpAddr, ServiceInfo, service_resolved, link_local, dotted, with_port, peer_addr,
  is_empty, found_peer, on_service,
}
use paper_plane.ChatBot.Discovery.Laws.{host, peer_addr_lem, service_found}
use paper_plane.Prelude.Exec.{ok}
use paper_plane.Handshake.Agreement.{IsSound}
use paper_plane.Platform.{Bytes}
use paper_plane.Platform.Map.{TextMap, get}
use paper_plane.Platform.Number.{to_string, parse, parse-to_string}
use paper_plane.Platform.Record.{Codecs, DnsRecord, port_key}
use paper_plane.Platform.Record.Laws.{ReadsHex, IsIteration, own_port, own_verified}

pub record OwnService : Type 0 where
  pub instance_name : Bytes
  pub hostname : Bytes
  pub port : ℕ
  pub properties : TextMap

-- A record without a port, and one whose port is no u16, are errors.
unfoldable pub get_port_from_dns_record : TextMap → Option ℕ
get_port_from_dns_record entries = elim (get port_key entries) [
  | none ↦ none
  | some port ↦ parse port
]

-- What `run` hands to `ServiceInfo::new`, whose own errors and those of `register` are the library's.
-- The names are "Chat-{}" and "peer-{}.local.".
unfoldable pub own_service : Bytes → TextMap → Option OwnService
unfolding get_port_from_dns_record
own_service name dns_record = elim (get_port_from_dns_record dns_record) [
  | none ↦ none
  | some port ↦ some (record {
    instance_name = 67 ∷ 104 ∷ 97 ∷ 116 ∷ 45 ∷ name;
    hostname = 112 ∷ 101 ∷ 101 ∷ 114 ∷ 45 ∷ (name ++ 46 ∷ 108 ∷ 111 ∷ 99 ∷ 97 ∷ 108 ∷ 46 ∷ []);
    port = port;
    properties = dns_record;
  })
]

not_empty : (xs : Bytes) (y : ℕ) (ys : Bytes) → is_empty (xs ++ y ∷ ys) ≡ false
not_empty [] y ys = refl
not_empty (x ∷ xs) y ys = refl

module _ (d : Codecs) (key : List ℕ) (name : Bytes) (port : ℕ) where
  own_port_read :
      (entries : TextMap)
      → port < 2 ^ 16
      → IsIteration d key name port entries
      → get_port_from_dns_record entries ≡ some port
  unfolding get_port_from_dns_record
  own_port_read entries small iterates =
      let has : get port_key entries ≡ some (to_string port) =
        iterates.1 port_key ∙ own_port d key name port in
      rw (has, get_port_from_dns_record) (parse-to_string port small)

  module _ (k : Keys) (text : Bytes → String) (now : ℕ) (c : ChatManager) where
    -- The id of the node, as others see it.
    abbrev pub seen_id : String
    seen_id = text (d.encode_hex (d.crypto.verifying_key key))

    -- A record of the node, at an address that can be reached.
    set :
        (info : ServiceInfo) (p : Peer) (ip : Ipv4Addr)
        → link_local info.addresses ≡ some ip
        → seen_id ≢ c.local.id
        → new_peer k now seen_id (text name) seen_id ≡ ok p
        → c.node.peers.online ≡ true
        → let r : DnsRecord = record {
          port = port;
          name = name;
          pub_key = d.encode_hex (d.crypto.verifying_key key);
        } in
          lookup seen_id (found_peer d k text now info r c).pool.addrs
          ≡ some (text (with_port (dotted ip) port))
    unfolding found_peer set_peer save_peer save_row
    set info p ip near other made online =
        let addr : peer_addr info port ≡ with_port (dotted ip) port =
          peer_addr_lem info port ∙ ap (λ (o : Option Ipv4Addr). with_port (host o) port) near in
        ground (
          arith,
          addr,
          not_empty (dotted ip) 58 (to_string port),
          eq_iff seen_id c.local.id,
          lookup-insert seen_id seen_id (text (with_port (dotted ip) port)) c.pool.addrs,
          eq_iff seen_id seen_id,
        )

    -- If lengths and signatures are as the program relies on and hexadecimal texts are read back,
    -- then with the record that a node makes of its name, its key and a port below 2 ^ 16, in
    -- whatever order its map is, the bot has a service to register, named Chat- and the name, on
    -- the host peer- and the name and .local., and the bot of another node that resolves this
    -- service at addresses of which some are link-local knows the node then under its key, at the
    -- first of these and the node's port; provided that the ids of the two nodes differ, that the
    -- key and the name make a peer, and that the table of peers answers.
    pub registered_found :
        (entries : TextMap) (addresses : List IpAddr) (p : Peer) (ip : Ipv4Addr)
        → IsSound d.crypto
        → ReadsHex d
        → port < 2 ^ 16
        → IsIteration d key name port entries
        → link_local addresses ≡ some ip
        → seen_id ≢ c.local.id
        → new_peer k now seen_id (text name) seen_id ≡ ok p
        → c.node.peers.online ≡ true
        → (svc : OwnService) × (own_service name entries ≡ some svc)
          × (svc.instance_name ≡ 67 ∷ 104 ∷ 97 ∷ 116 ∷ 45 ∷ name)
          × (svc.hostname
              ≡ 112 ∷ 101 ∷ 101 ∷ 114 ∷ 45 ∷ (name ++ 46 ∷ 108 ∷ 111 ∷ 99 ∷ 97 ∷ 108 ∷ 46 ∷ []))
          × (let info : ServiceInfo = record {
            addresses = addresses;
            port = svc.port;
            properties = svc.properties;
          } in
              lookup seen_id (on_service d k text (service_resolved now info) c).pool.addrs
              ≡ some (text (with_port (dotted ip) port)))
    unfolding own_service
    registered_found entries addresses p ip h hex small iterates near other made online =
        let info : ServiceInfo = record {
          addresses = addresses;
          port = port;
          properties = entries;
        } in
        let svc : OwnService = record {
          instance_name = 67 ∷ 104 ∷ 97 ∷ 116 ∷ 45 ∷ name;
          hostname =
              112 ∷ 101 ∷ 101 ∷ 114 ∷ 45 ∷ (name ++ 46 ∷ 108 ∷ 111 ∷ 99 ∷ 97 ∷ 108 ∷ 46 ∷ []);
          port = port;
          properties = entries;
        } in
        (
          svc,
          rw (own_port_read entries small iterates, own_service) refl,
          refl,
          refl,
          rw
              (service_found d k text now info _ c
                (own_verified d key name port entries iterates.1 h hex small))
              (set info p ip near other made online),
        )
