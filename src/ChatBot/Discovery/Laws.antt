-- ===== src/ChatBot/Discovery/Laws.antt =====
-- Where the peers that the bot finds are dialled.
use paper_plane.Prelude.{
  ℕ, ◌≡◌, ◌≢◌, refl, sym, ap, subst, ◌∙◌, ◌⊎◌, inl, inr, String, true, false, ◌||◌, Option, none,
  some, List, [], ◌∷◌, ◌++◌, arith, str_eq, eq_iff, Bool-cases, ◌<◌, All, All-append,
}
use paper_plane.Prelude.Dict.{lookup, insert, lookup-insert}
use paper_plane.Prelude.Exec.{ok, err, Error, Result-cases}
use paper_plane.Peers.{Keys, new_peer}
use paper_plane.Sync.Serve.{save_peer}
use paper_plane.Platform.{Bytes}
use paper_plane.Platform.Number.{to_string, digits_bound}
use paper_plane.Platform.Record.{Codecs, DnsRecord, verify_hashmap_record}
use paper_plane.Platform.Chat.{ChatManager, set_peer}
use paper_plane.ChatBot.Discovery.{
  Ipv4Addr, ServiceInfo, ServiceEvent, service_resolved, other_event, link_local, dotted, with_port,
  service_addr, before_colon, peer_addr, is_empty, found_peer, on_service, browse,
}

-- The host that a peer is set with, which is none if no address is link-local.
abbrev pub host : Option Ipv4Addr → Bytes
host none = []
host (some ip) = dotted ip

abbrev NoColon : Bytes → Type 0
NoColon = All (λ b. b < 58)

to_string-NoColon : (n : ℕ) → NoColon (to_string n)
to_string-NoColon n = digits_bound 5 n

joined-NoColon : (xs ys : Bytes) → NoColon xs → NoColon ys → NoColon (xs ++ 46 ∷ ys)
joined-NoColon xs ys hx hy = All-append (λ b. b < 58) xs (46 ∷ ys) hx (omega arith, hy)

dotted-NoColon : (ip : Ipv4Addr) → NoColon (dotted ip)
dotted-NoColon ip = joined-NoColon (to_string ip.a) _ (to_string-NoColon ip.a) (
    joined-NoColon (to_string ip.b) _ (to_string-NoColon ip.b)
      (joined-NoColon (to_string ip.c) _ (to_string-NoColon ip.c) (to_string-NoColon ip.d)))

before_colon_lem : (bs rest : Bytes) → NoColon bs → before_colon (bs ++ 58 ∷ rest) ≡ bs
unfolding before_colon
before_colon_lem [] rest h = refl
before_colon_lem (b ∷ bs) rest h = ground (arith, before_colon_lem bs rest h.1)

before_colon-service_addr :
    (ip : Option Ipv4Addr) (port : ℕ) → before_colon (service_addr ip port) ≡ host ip
unfolding before_colon
before_colon-service_addr none port = refl
before_colon-service_addr (some ip) port =
    before_colon_lem (dotted ip) (to_string port) (dotted-NoColon ip)

pub peer_addr_lem :
    (info : ServiceInfo) (port : ℕ)
    → peer_addr info port ≡ with_port (host (link_local info.addresses)) port
unfolding peer_addr
peer_addr_lem info port =
    ap (λ (h : Bytes). with_port h port)
      (before_colon-service_addr (link_local info.addresses) info.port)

module _ (d : Codecs) (k : Keys) (text : Bytes → String) where
  -- The event resolves a service with a valid record of this key, and with this address.
  abbrev pub Offers : String → String → ServiceEvent → Type 0
  Offers id addr other_event = (true ≡ false)
  Offers id addr (service_resolved now info) =
      (r : DnsRecord) × (verify_hashmap_record d info.properties ≡ ok r)
      × (text r.pub_key ≡ id)
      × (addr ≡ text (with_port (host (link_local info.addresses)) r.port))

  set_peer_cases :
      (now : ℕ) (name addr pub_key : String) (c : ChatManager)
      → let c' = (set_peer k now name addr pub_key c).1 in
        (c'.local ≡ c.local)
        × ((c'.pool.addrs ≡ c.pool.addrs) ⊎ (c'.pool.addrs ≡ insert pub_key addr c.pool.addrs))
  unfolding set_peer
  set_peer_cases now name addr pub_key c =
      elim (Result-cases (new_peer k now pub_key name pub_key)) [
        | inr (e, failed) ↦ (ground arith, inl (ground arith))
        | inl (p, made) ↦ elim (Result-cases (save_peer p c.node).0) [
          | inr (e, failed) ↦ (ground arith, inl (ground arith))
          | inl (u, saved) ↦ (ground arith, inr (ground arith))
        ]
      ]

  Kept : ServiceEvent → ChatManager → ChatManager → Type 0
  Kept e c c' =
      (c'.local ≡ c.local)
      × ((id addr : String)
          → lookup id c'.pool.addrs ≡ some addr
          → (lookup id c.pool.addrs ≡ some addr) ⊎ (Offers id addr e × (id ≢ c.local.id)))

  found-Kept :
      (now : ℕ) (info : ServiceInfo) (r : DnsRecord) (c : ChatManager)
      → verify_hashmap_record d info.properties ≡ ok r
      → Kept (service_resolved now info) c (found_peer d k text now info r c)
  unfolding Kept found_peer
  found-Kept now info r c valid =
      elim (Bool-cases (str_eq (text r.pub_key) c.local.id || is_empty (peer_addr info r.port))) [
        | inl out ↦ rw out (refl, λ id addr h. inl h)
        | inr goes ↦
            let given = text (peer_addr info r.port) in
            let (same, addrs) = set_peer_cases now (text r.name) given (text r.pub_key) c in
            rw goes (
              same,
              λ id addr h. elim addrs [
                | inl kept ↦ inl (sym (ap (lookup id) kept) ∙ h)
                | inr set ↦ elim (Bool-cases (str_eq (text r.pub_key) id)) [
                  | inr other ↦
                      inl (ground (arith, lookup-insert (text r.pub_key) id given c.pool.addrs))
                  | inl this ↦ inr (
                    (
                      r,
                      valid,
                      ground (arith, eq_iff (text r.pub_key) id),
                      ground (
                        arith,
                        lookup-insert (text r.pub_key) id given c.pool.addrs,
                        peer_addr_lem info r.port,
                      ),
                    ),
                    ground (arith, eq_iff (text r.pub_key) id, eq_iff (text r.pub_key) c.local.id),
                  )
                ]
              ],
            )
      ]

  pub service_found :
      (now : ℕ) (info : ServiceInfo) (r : DnsRecord) (c : ChatManager)
      → verify_hashmap_record d info.properties ≡ ok r
      → on_service d k text (service_resolved now info) c ≡ found_peer d k text now info r c
  unfolding on_service
  service_found now info r c valid = ground arith

  service_ignored :
      (now : ℕ) (info : ServiceInfo) {e : Error} (c : ChatManager)
      → verify_hashmap_record d info.properties ≡ err e
      → c ≡ on_service d k text (service_resolved now info) c
  unfolding on_service
  service_ignored now info c failed = ground arith

  Kept-refl : (e : ServiceEvent) (c : ChatManager) → Kept e c c
  unfolding Kept
  Kept-refl e c = (refl, λ id addr h. inl h)

  on_service-Kept : (e : ServiceEvent) (c : ChatManager) → Kept e c (on_service d k text e c)
  unfolding on_service
  on_service-Kept other_event c = Kept-refl other_event c
  on_service-Kept (service_resolved now info) c =
      let kept = Kept (service_resolved now info) c in
      elim (Result-cases (verify_hashmap_record d info.properties)) [
        | inl (r, valid) ↦
            subst kept (sym (service_found now info r c valid)) (found-Kept now info r c valid)
        | inr (e, failed) ↦
            subst kept (service_ignored now info c failed) (Kept-refl (service_resolved now info) c)
      ]

  -- After any events of the daemon, an address that the bot has for a peer was known before, or
  -- one of the events resolved a service with a valid record of this peer, which is not the node
  -- itself, and the address is the first link-local IPv4 address of the service, or no host at all
  -- if it has none, with the port of the record.
  pub browse_lem :
      (es : List ServiceEvent) (c : ChatManager) (id addr : String)
      → lookup id (browse d k text es c).pool.addrs ≡ some addr
      → (lookup id c.pool.addrs ≡ some addr)
        ⊎ ((before : List ServiceEvent) × (e : ServiceEvent) × (after : List ServiceEvent) × (es
              ≡ before ++ e ∷ after)
            × Offers id addr e
            × (id ≢ c.local.id))
  unfolding browse Kept
  browse_lem [] c id addr h = inl h
  browse_lem (e ∷ es) c id addr h =
      let (same, one) = on_service-Kept e c in
      elim (browse_lem es (on_service d k text e c) id addr h) [
        | inr (before, other, after, split, offers, foreign) ↦ inr (
          e ∷ before,
          other,
          after,
          ap (λ (l : List ServiceEvent). e ∷ l) split,
          offers,
          λ own. foreign (own ∙ sym (ap (λ p. p.id) same)),
        )
        | inl first ↦ elim (one id addr first) [
          | inl already ↦ inl already
          | inr (offers, foreign) ↦ inr ([], e, es, refl, offers, foreign)
        ]
      ]
