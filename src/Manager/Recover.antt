-- ===== src/Manager/Recover.antt =====
-- A repository that is opened takes its counter from the table.
use paper_plane.Prelude.{
  ℕ, ◌^◌, ◌<◌, ◌≡◌, ◌⊎◌, refl, ◌∙◌, String, true, none, some, arith, inl, inr, Option-cases, eq_iff,
  length,
}
use paper_plane.Prelude.Dict.{lookup}
use paper_plane.Prelude.Exec.{ok}
use paper_plane.Messages.{get_highest_counter}
use paper_plane.Messages.Log.{log, Numbered}
use paper_plane.Messages.Query.{get_highest_counter-log}
use paper_plane.Node.{Node, set_counter, cur_counter_congr, cur_counter-set_counter}
use paper_plane.Repository.Log.{IsLog}
use paper_plane.Manager.{get_or_create_repository}

-- The table holds a log of the peer, and the repository, if it is open, agrees with it.
pub record HasLog (id : String) (n : Node) : Type 0 where
  pub numbered : Numbered 1 (log id n.db)
  pub agrees : (lookup id n.repositories ≡ none) ⊎ IsLog id n

pub HasLog-congr :
    (id : String) (n n' : Node)
    → n'.db ≡ n.db
    → n'.repositories ≡ n.repositories
    → HasLog id n
    → HasLog id n'
HasLog-congr id n n' db repositories h = record {
  numbered = rw db h.numbered;
  agrees = elim h.agrees [
    | inl closed ↦ inl (rw repositories closed)
    | inr is_log ↦ inr (record {
      numbered = rw db is_log.numbered;
      counted = cur_counter_congr id n' n repositories ∙ is_log.counted ∙ rw db;
    })
  ];
}

get_closed :
    (null : ℕ) (id : String) (n : Node) {c : ℕ}
    → lookup id n.repositories ≡ none
    → get_highest_counter null n.db id ≡ ok c
    → (get_or_create_repository null id n).1 ≡ set_counter id c n
unfolding get_or_create_repository
get_closed null id n closed highest = ground arith

get_open :
    (null : ℕ) (id : String) (n : Node) {c : ℕ}
    → lookup id n.repositories ≡ some c
    → (get_or_create_repository null id n).1 ≡ n
unfolding get_or_create_repository
get_open null id n open_already = ground arith

module _ (null : ℕ) (zeroes : null ≡ 0) where
  opened :
      (id : String) (n : Node)
      → n.db.online ≡ true
      → Numbered 1 (log id n.db)
      → length (log id n.db) < 2 ^ 63
      → lookup id n.repositories ≡ none
      → let n' = (get_or_create_repository null id n).1 in IsLog id n' × (n'.db ≡ n.db)
  unfolding set_counter
  opened id n up numbered few closed =
      let highest = get_highest_counter-log null n.db id up numbered few zeroes in
      rw (get_closed null id n closed highest) (
        record {
          numbered = numbered;
          counted =
              ground (arith, cur_counter-set_counter id id (length (log id n.db)) n, eq_iff id id);
        },
        refl,
      )

  -- If the database answers, NULL is read as 0, and the table holds a log of the peer shorter than
  -- 2 ^ 63, which an open repository agrees with, then getting the repository, open or not, leaves
  -- one whose counter is the length of the log, and changes no row.
  pub get_or_create_repository-IsLog :
      (id : String) (n : Node)
      → n.db.online ≡ true
      → HasLog id n
      → length (log id n.db) < 2 ^ 63
      → let n' = (get_or_create_repository null id n).1 in IsLog id n' × (n'.db ≡ n.db)
  get_or_create_repository-IsLog id n up h few = elim h.agrees [
    | inl closed ↦ opened id n up h.numbered few closed
    | inr is_log ↦ elim (Option-cases (lookup id n.repositories)) [
      | inl closed ↦ opened id n up h.numbered few closed
      | inr (c, open_already) ↦ rw (get_open null id n open_already) (is_log, refl)
    ]
  ]
