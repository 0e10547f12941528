-- ===== src/ChatBot/Discovery.antt =====
-- ChatLib/chat-bot/src/main.rs: what the bot does with the events of the mDNS daemon. The daemon is
-- not modelled: an event is what it hands over.
pub mod Laws
pub mod Register
use paper_plane.Prelude.{
  ℕ, ◌≡◌, ◌≢◌, refl, sym, ap, ◌∙◌, ◌⊎◌, inl, inr, String, Bool, true, false, ◌&&◌, ◌||◌, Option,
  none, some, List, [], ◌∷◌, ◌++◌, ◌==◌, arith, str_eq, eq_iff, if◌then◌else◌, Bool-cases, ltb, ◌<◌,
  All, All-append,
}
use paper_plane.Prelude.Dict.{lookup, insert, lookup-insert}
use paper_plane.Prelude.Exec.{Result, ok, err, Result-cases}
use paper_plane.Peers.{Keys, new_peer}
use paper_plane.Sync.Serve.{save_peer}
use paper_plane.Platform.{Bytes}
use paper_plane.Platform.Map.{TextMap}
use paper_plane.Platform.Number.{to_string, digits_bound}
use paper_plane.Platform.Record.{Codecs, DnsRecord, verify_hashmap_record}
use paper_plane.Platform.Chat.{ChatManager, set_peer}

-- `std::net::Ipv4Addr`, its four octets.
pub record Ipv4Addr : Type 0 where
  pub a : ℕ
  pub b : ℕ
  pub c : ℕ
  pub d : ℕ

pub data IpAddr : Type 0 where
  v4 : Ipv4Addr → IpAddr
  v6 : (segments : List ℕ) → IpAddr

-- A resolved service: its addresses in the order in which the set gives them, its port, and its
-- properties as a map of texts.
pub record ServiceInfo : Type 0 where
  pub addresses : List IpAddr
  pub port : ℕ
  pub properties : TextMap

-- `now` is when the event is received.
pub data ServiceEvent : Type 0 where
  service_resolved : (now : ℕ) → ServiceInfo → ServiceEvent
  other_event : ServiceEvent

abbrev is_link_local : Ipv4Addr → Bool
is_link_local ip = ip.a == 169 && ip.b == 254

-- The first address that passes the filter.
unfoldable pub link_local : List IpAddr → Option Ipv4Addr
link_local [] = none
link_local (v6 segments ∷ ips) = link_local ips
link_local (v4 ip ∷ ips) = if is_link_local ip then some ip else link_local ips

-- `Display` of an IPv4 address; a dot is 46, a colon 58.
abbrev pub dotted : Ipv4Addr → Bytes
dotted ip = to_string ip.a ++ 46 ∷ (to_string ip.b ++ 46 ∷ (to_string ip.c ++ 46 ∷ to_string ip.d))

abbrev pub with_port : Bytes → ℕ → Bytes
with_port host port = host ++ 58 ∷ to_string port

abbrev pub service_addr : Option Ipv4Addr → ℕ → Bytes
service_addr none port = []
service_addr (some ip) port = with_port (dotted ip) port

-- `split(':').next()`
unfoldable pub before_colon : Bytes → Bytes
before_colon [] = []
before_colon (b ∷ bs) = let rest = before_colon bs in if b == 58 then [] else b ∷ rest

-- The address that the peer is set with, for the port of its record.
unfoldable pub peer_addr : ServiceInfo → ℕ → Bytes
peer_addr info port =
    with_port (before_colon (service_addr (link_local info.addresses) info.port)) port

abbrev pub is_empty : Bytes → Bool
is_empty [] = true
is_empty (b ∷ bs) = false

-- `text` reads the bytes of a text.
module _ (d : Codecs) (k : Keys) (text : Bytes → String) where
  unfoldable pub found_peer : ℕ → ServiceInfo → DnsRecord → ChatManager → ChatManager
  found_peer now info r c =
      if str_eq (text r.pub_key) c.local.id || is_empty (peer_addr info r.port)
      then c
      else (set_peer k now (text r.name) (text (peer_addr info r.port)) (text r.pub_key) c).1

  unfoldable pub on_service : ServiceEvent → ChatManager → ChatManager
  on_service other_event c = c
  on_service (service_resolved now info) c = elim (verify_hashmap_record d info.properties) [
    | err e ↦ c
    | ok r ↦ found_peer now info r c
  ]

  unfoldable pub browse : List ServiceEvent → ChatManager → ChatManager
  browse [] c = c
  browse (e ∷ es) c = browse es (on_service e c)
