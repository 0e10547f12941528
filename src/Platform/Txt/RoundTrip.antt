-- ===== src/Platform/Txt/RoundTrip.antt =====
-- What is encoded, how long it is, and that it is decoded again.
use paper_plane.Prelude.{
  ℕ, zero, suc, ◌*◌, ◌≤◌, ◌<◌, ◌≡◌, refl, ◌∙◌, ◌⊎◌, inl, inr, Bool, true, false, none, some, [],
  ◌∷◌, ◌++◌, length, length-append, take-length_append, drop-length_append, ltb, ◌==◌, any, All,
  arith, Bool-cases, Option-cases,
}
use paper_plane.Platform.{Bytes}
use paper_plane.Platform.Map.{TextMap, get, insert, IsMap, insert_all, get-insert_all}
use paper_plane.Platform.Txt.{
  entry_of, put_entry, encode_txt_record, split_once, read_entry, decode_entries, decode_txt_record,
}

abbrev pub is_long : Bytes × Bytes → Bool
is_long (key, value) = ltb 255 (length (entry_of key value))

-- The key holds no `=`, and the entry is UTF-8.
abbrev pub CanSplit : (Bytes → Bool) → Bytes × Bytes → Type 0
CanSplit is_utf8 (key, value) =
    All (λ b. (b == 61) ≡ false) key × (is_utf8 (entry_of key value) ≡ true)

split_once_lem :
    (key value : Bytes)
    → All (λ b. (b == 61) ≡ false) key
    → split_once (entry_of key value) ≡ some (key, value)
unfolding split_once
split_once_lem [] value h = refl
split_once_lem (b ∷ key) value h = ground (arith, split_once_lem key value h.1)

-- An encoding is that of the first entry and that of the others.
encode_cases :
    (key value : Bytes) (m : TextMap) (bytes : Bytes)
    → encode_txt_record ((key, value) ∷ m) ≡ some bytes
    → (rest : Bytes) × (encode_txt_record m ≡ some rest)
      × (length (entry_of key value) < 256)
      × (bytes ≡ length (entry_of key value) ∷ entry_of key value ++ rest)
unfolding encode_txt_record put_entry
encode_cases key value m bytes e = elim (Option-cases (encode_txt_record m)) [
  | inl none_left ↦ absurd (ground arith)
  | inr (rest, has) ↦ (rest, has, ground arith, ground arith)
]

module _ (is_utf8 : Bytes → Bool) where
  decode_step :
      (key value rest : Bytes) (m : TextMap) (fuel : ℕ)
      → CanSplit is_utf8 (key, value)
      → decode_entries is_utf8
          (suc fuel)
          (length (entry_of key value) ∷ entry_of key value ++ rest)
          m
        ≡ decode_entries is_utf8 fuel rest (insert key value m)
  unfolding decode_entries read_entry
  decode_step key value rest m fuel h = ground (
    arith,
    split_once_lem key value h.0,
    length-append (entry_of key value) rest,
    take-length_append (entry_of key value) rest,
    drop-length_append (entry_of key value) rest,
  )

  decode_entries_lem :
      (entries m : TextMap) (bytes : Bytes) (fuel : ℕ)
      → All (CanSplit is_utf8) entries
      → encode_txt_record entries ≡ some bytes
      → length bytes ≤ fuel
      → decode_entries is_utf8 fuel bytes m ≡ some (insert_all entries m)
  unfolding encode_txt_record decode_entries insert_all
  decode_entries_lem [] m [] zero h e enough = refl
  decode_entries_lem [] m [] (suc fuel) h e enough = refl
  decode_entries_lem [] m (b ∷ bytes) fuel h e enough = absurd (ground arith)
  decode_entries_lem ((key, value) ∷ entries) m bytes zero h e enough =
      let (rest, has, short, made) = encode_cases key value entries bytes e in absurd (ground arith)
  decode_entries_lem ((key, value) ∷ entries) m bytes (suc fuel) h e enough =
      let (rest, has, short, made) = encode_cases key value entries bytes e in
      let left : length rest ≤ fuel = ground (arith, length-append (entry_of key value) rest) in
      rw made (
        decode_step key value rest m fuel h.0
        ∙ decode_entries_lem entries (insert key value m) rest fuel h.1 has left)

  -- A map that could be encoded, whose entries are UTF-8 and whose keys hold no sign of equality,
  -- is decoded to a map with the same value for every key.
  pub decode_txt_record-encode_txt_record :
      (entries : TextMap) (bytes : Bytes)
      → IsMap entries
      → All (CanSplit is_utf8) entries
      → encode_txt_record entries ≡ some bytes
      → (m : TextMap) × (decode_txt_record is_utf8 bytes ≡ some m)
        × ((key : Bytes) → get key m ≡ get key entries)
  unfolding decode_txt_record get
  decode_txt_record-encode_txt_record entries bytes distinct h e = (
    insert_all entries [],
    decode_entries_lem entries [] bytes (length bytes) h e (omega arith),
    λ key. ground (arith, get-insert_all entries [] key distinct),
  )

-- A map is either not encoded, and then one of its entries is longer than 255 bytes, or it is, and
-- then none is, and the encoding has at most 256 bytes for each entry.
pub encode_txt_record_lem :
    (entries : TextMap)
    → (encode_txt_record entries ≡ none × any is_long entries ≡ true)
      ⊎ ((bytes : Bytes) × (encode_txt_record entries ≡ some bytes)
          × (any is_long entries ≡ false)
          × (length bytes ≤ 256 * length entries))
unfolding encode_txt_record put_entry
encode_txt_record_lem [] = inr ([], refl, refl, omega arith)
encode_txt_record_lem ((key, value) ∷ entries) = elim (encode_txt_record_lem entries) [
  | inl (fails, long) ↦ inl (ground arith)
  | inr (rest, has, short, small) ↦ elim (Bool-cases (is_long (key, value))) [
    | inl long ↦ inl (ground arith)
    | inr fits ↦ inr (
      length (entry_of key value) ∷ entry_of key value ++ rest,
      ground arith,
      ground arith,
      ground (arith, length-append (entry_of key value) rest),
    )
  ]
]
