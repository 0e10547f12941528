-- ===== src/Resolver.antt =====
-- ChatLib/chat-arch/src/file_resolver.rs: the storage of the files that are wanted. The file table
-- that the storage holds is the indexer's.
pub mod Step
pub mod Download
pub mod Laws
pub mod Peers
pub mod Stalls
pub mod Reachable
use paper_plane.Prelude.{
  String, Bool, true, false, Option, none, some, List, [], ◌∷◌, ◌++◌, contains, if◌then◌else◌,
}
use paper_plane.Prelude.Dict.{Dict, lookup, insert}

pub record ResolveWant : Type 0 where
  pub file_id : String
  pub failed_peers : List String

pub record ResolveResult : Type 0 where
  pub file_id : String
  pub file_path : String

-- `ResolverData` with the channel of `FileResolverStorage`, the oldest want first. A hash set is a
-- list without repetition.
pub record FileResolverStorage : Type 0 where
  pub need_resolve : List String
  pub peers_have : Dict (List String)
  pub to_resolve : List ResolveWant

-- `impl From<String> for ResolveWant`
abbrev pub want_of : String → ResolveWant
want_of value = record { file_id = value; failed_peers = [] }

abbrev pub insert_set : String → List String → List String
insert_set x set = if contains set x then set else x ∷ set

abbrev pub or_none : Option (List String) → List String
or_none none = []
or_none (some peers) = peers

abbrev pub push_peer : String → String → Dict (List String) → Dict (List String)
push_peer file_id peer_id have = insert file_id (or_none (lookup file_id have) ++ peer_id ∷ []) have

abbrev push_optional : String → Option String → Dict (List String) → Dict (List String)
push_optional file_id none have = have
push_optional file_id (some peer_id) have = push_peer file_id peer_id have

abbrev pub send_want : ResolveWant → FileResolverStorage → FileResolverStorage
send_want w s = record s { to_resolve = s.to_resolve ++ w ∷ [] }

unfoldable pub add_need_resolve : String → Option String → FileResolverStorage → FileResolverStorage
add_need_resolve file_id peer_id s = send_want (want_of file_id) (record s {
  need_resolve = insert_set file_id s.need_resolve;
  peers_have = push_optional file_id peer_id s.peers_have;
})

unfoldable pub add_peer_have : String → String → FileResolverStorage → FileResolverStorage
add_peer_have file_id peer_id s =
    send_want (want_of file_id) (record s { peers_have = push_peer file_id peer_id s.peers_have })

unfoldable pub add_peer_have_many : List String → String → FileResolverStorage → FileResolverStorage
unfolding add_peer_have
add_peer_have_many [] peer_id s = s
add_peer_have_many (f ∷ fs) peer_id s = add_peer_have_many fs peer_id (add_peer_have f peer_id s)

unfoldable pub get_peers_have : String → FileResolverStorage → List String
get_peers_have file_id s = or_none (lookup file_id s.peers_have)

unfoldable pub get_need_resolve : FileResolverStorage → List String
get_need_resolve s = s.need_resolve
