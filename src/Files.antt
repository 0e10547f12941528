-- ===== src/Files.antt =====
-- ChatLib/chat-arch/src/file_database.rs: the table `files`, its rows in the order of insertion.
use paper_plane.Prelude.{
  ℕ, String, Bool, true, false, ◌≡◌, refl, Option, none, some, List, [], ◌∷◌, ◌++◌, str_eq, eq_iff,
  any, find, contains, arith, if◌then◌else◌,
}
use paper_plane.Prelude.Exec.{Result, ok, err, unavailable, duplicate_id}

pub record FileDescription : Type 0 where
  pub id : String
  pub format : String
  pub local_path : String
  pub timestamp : ℕ

pub record FileDatabase : Type 0 where
  pub rows : List FileDescription
  pub online : Bool

abbrev has_id : String → FileDescription → Bool
has_id id f = str_eq f.id id

unfoldable pub save : FileDatabase → FileDescription → Result FileDatabase
save db f =
    if db.online
    then (if any (has_id f.id) db.rows
        then err duplicate_id
        else ok (record db { rows = db.rows ++ f ∷ [] }))
    else err unavailable

unfoldable pub get_by_id : FileDatabase → String → Result (Option FileDescription)
get_by_id db id = if db.online then ok (find (has_id id) db.rows) else err unavailable

abbrev is_some {ℓ} : {A : Type ℓ} → Option A → Bool
is_some none = false
is_some (some a) = true

unfoldable pub contains_id : FileDatabase → String → Result Bool
contains_id db id = if db.online then ok (is_some (find (has_id id) db.rows)) else err unavailable

ids : List FileDescription → List String
ids [] = []
ids (f ∷ fs) = f.id ∷ ids fs

unfoldable pub all_file_ids : FileDatabase → Result (List String)
unfolding ids
all_file_ids db = if db.online then ok (ids db.rows) else err unavailable

find-append_new :
    (f : FileDescription) (fs : List FileDescription) (id : String)
    → any (has_id f.id) fs ≡ false
    → find (has_id id) (fs ++ f ∷ []) ≡ (if str_eq f.id id then some f else find (has_id id) fs)
find-append_new f [] id h = refl
find-append_new f (x ∷ xs) id h =
    ground (arith, find-append_new f xs id, eq_iff f.id id, eq_iff x.id id, eq_iff x.id f.id)

-- A file that was saved is found under its id, and every other id finds what it found before.
pub get_by_id_saved :
    (db db' : FileDatabase) (f : FileDescription) (id : String)
    → save db f ≡ ok db'
    → get_by_id db' id ≡ (if str_eq f.id id then ok (some f) else get_by_id db id)
unfolding get_by_id save
get_by_id_saved db db' f id e = ground (arith, find-append_new f db.rows id)

find-ids :
    (fs : List FileDescription) (id : String) (f : FileDescription)
    → find (has_id id) fs ≡ some f
    → contains (ids fs) id ≡ true
unfolding ids
find-ids [] id f e = cc
find-ids (x ∷ xs) id f e = ground (arith, find-ids xs id f)

find-none :
    (fs : List FileDescription) (id : String)
    → find (has_id id) fs ≡ none
    → any (has_id id) fs ≡ false
find-none [] id e = refl
find-none (x ∷ xs) id e = ground (arith, find-none xs id)

-- A file that is found is among all.
pub get_by_id-all_file_ids :
    (db : FileDatabase) (id : String) (f : FileDescription)
    → get_by_id db id ≡ ok (some f)
    → (all : List String) × (all_file_ids db ≡ ok all) × (contains all id ≡ true)
unfolding get_by_id all_file_ids
get_by_id-all_file_ids db id f e =
    (ids db.rows, ground arith, ground (arith, find-ids db.rows id f))

-- A file that is not found can be saved.
pub save_unknown :
    (db : FileDatabase) (f : FileDescription)
    → get_by_id db f.id ≡ ok none
    → save db f ≡ ok (record db { rows = db.rows ++ f ∷ [] })
unfolding get_by_id save
save_unknown db f e = ground (arith, find-none db.rows f.id)
