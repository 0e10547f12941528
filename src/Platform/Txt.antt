-- ===== src/Platform/Txt.antt =====
-- `encode_txt_record` and `decode_txt_record`: each entry is a byte with its length and the text
-- `key=value`. Whether bytes are UTF-8 is a parameter.
pub mod RoundTrip
use paper_plane.Prelude.{
  ℕ, zero, suc, ◌%◌, ◌^◌, Bool, true, false, Option, none, some, List, [], ◌∷◌, ◌++◌, length, take,
  drop, ltb, ◌==◌, if◌then◌else◌,
}
use paper_plane.Platform.{Bytes}
use paper_plane.Platform.Map.{TextMap, insert}

-- `format!("{}={}", key, value)`
abbrev pub entry_of : Bytes → Bytes → Bytes
entry_of key value = key ++ 61 ∷ value

put_entry : Bytes → Option Bytes → Option Bytes
put_entry entry none = none
put_entry entry (some bytes) = some (length entry % 2 ^ 8 ∷ entry ++ bytes)

unfoldable pub encode_txt_record : TextMap → Option Bytes
unfolding put_entry
encode_txt_record [] = some []
encode_txt_record ((key, value) ∷ m) =
    let rest = encode_txt_record m in
    if ltb 255 (length (entry_of key value)) then none else put_entry (entry_of key value) rest

-- `split_once('=')`
pub split_once : Bytes → Option (Bytes × Bytes)
split_once [] = none
split_once (b ∷ bs) =
    let rest = split_once bs in
    if b == 61
    then some ([], bs)
    else elim rest [ none ↦ none | some (key, value) ↦ some (b ∷ key, value) ]

module _ (is_utf8 : Bytes → Bool) where
  read_entry : Bytes → Option (Bytes × Bytes)
  read_entry entry = if is_utf8 entry then split_once entry else none

  -- The loop over what is left of the data; each turn takes a byte or more.
  pub decode_entries : ℕ → Bytes → TextMap → Option TextMap
  unfolding read_entry
  decode_entries zero bytes m = some m
  decode_entries (suc fuel) [] m = some m
  decode_entries (suc fuel) (len ∷ bytes) m =
      if ltb (length bytes) len then none else elim (read_entry (take len bytes)) [
        | none ↦ none
        | some (key, value) ↦ decode_entries fuel (drop len bytes) (insert key value m)
      ]

  unfoldable pub decode_txt_record : Bytes → Option TextMap
  unfolding decode_entries
  decode_txt_record bytes = decode_entries (length bytes) bytes []
