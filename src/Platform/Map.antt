-- ===== src/Platform/Map.antt =====
-- `HashMap<String, String>`, whose texts are bytes, in the order in which it is iterated.
use paper_plane.Prelude.{
  ◌≡◌, refl, ◌↔◌, Bool, true, false, ◌&&◌, ◌==◌, Option, none, some, List, [], ◌∷◌, arith,
  if◌then◌else◌,
}
use paper_plane.Platform.{Bytes}

unfoldable pub same : Bytes → Bytes → Bool
same [] [] = true
same [] (b ∷ ys) = false
same (a ∷ xs) [] = false
same (a ∷ xs) (b ∷ ys) = a == b && same xs ys

pub same_iff : (a b : Bytes) → (same a b ≡ true) ↔ (a ≡ b)
unfolding same
same_iff [] [] = ground arith
same_iff [] (b ∷ ys) = ground arith
same_iff (a ∷ xs) [] = ground arith
same_iff (a ∷ xs) (b ∷ ys) = ground (arith, same_iff xs ys)

abbrev pub TextMap : Type 0
TextMap = List (Bytes × Bytes)

unfoldable pub get : Bytes → TextMap → Option Bytes
get key [] = none
get key ((other, value) ∷ m) = if same other key then some value else get key m

unfoldable pub insert : Bytes → Bytes → TextMap → TextMap
insert key value [] = (key, value) ∷ []
insert key value ((other, old) ∷ m) =
    if same other key then (key, value) ∷ m else (other, old) ∷ insert key value m

pub get-insert :
    (key other value : Bytes) (m : TextMap)
    → get other (insert key value m) ≡ (if same key other then some value else get other m)
unfolding get insert
get-insert key other value [] = refl
get-insert key other value ((first, old) ∷ m) = ground (
  arith,
  get-insert key other value m,
  same_iff first other,
  same_iff first key,
  same_iff key other,
)

-- No key stands twice.
abbrev pub IsMap : TextMap → Type 0
IsMap [] = Unit {0}
IsMap ((key, value) ∷ m) = (get key m ≡ none) × IsMap m

-- The entries of a map, one after the other put into another.
unfoldable pub insert_all : TextMap → TextMap → TextMap
insert_all [] m = m
insert_all ((key, value) ∷ entries) m = insert_all entries (insert key value m)

abbrev pub or_else : Option Bytes → Option Bytes → Option Bytes
or_else none other = other
or_else (some value) other = some value

pub get-insert_all :
    (entries m : TextMap) (key : Bytes)
    → IsMap entries
    → get key (insert_all entries m) ≡ or_else (get key entries) (get key m)
unfolding get insert_all
get-insert_all [] m key h = refl
get-insert_all ((first, value) ∷ entries) m key h = ground (
  arith,
  get-insert_all entries (insert first value m) key,
  get-insert first key value m,
  same_iff first key,
)
