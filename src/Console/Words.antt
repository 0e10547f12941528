-- ===== src/Console/Words.antt =====
-- `split_whitespace`, `join(" ")` and `eq_ignore_ascii_case` of Rust's strings.
use Prim.Native.Char.{code}
use Prim.Native.String.{String, ◌++◌ as append}
use paper_plane.Prelude.{
  ℕ, ◌+◌, Bool, true, false, ◌||◌, ◌&&◌, List, [], ◌∷◌, ◌==◌, ltb, leb, str_eq, if◌then◌else◌,
}
use paper_plane.Models.{Text}
use paper_plane.Index.OrderId.{codes}

-- The code points of the Unicode property White_Space.
abbrev pub is_whitespace : ℕ → Bool
is_whitespace c =
    (leb 9 c && leb c 13)
    || c == 32
    || c == 133
    || c == 160
    || c == 5760
    || (leb 8192 c && leb c 8202)
    || c == 8232
    || c == 8233
    || c == 8239
    || c == 8287
    || c == 12288

abbrev pub push_word : String → List String → List String
push_word word words = if str_eq word "" then words else word ∷ words

-- The word that the text begins with, if any, and the words behind it.
pub split_first : String → String × List String
split_first String.[] = ("", [])
split_first (String.◌∷◌ c s) =
    let (word, words) = split_first s in
    if is_whitespace (code c) then ("", push_word word words) else (String.◌∷◌ c word, words)

unfoldable pub split_whitespace : String → List String
unfolding split_first
split_whitespace s = let (word, words) = split_first s in push_word word words

abbrev pub join_more : List String → String
join_more [] = ""
join_more (word ∷ words) = append " " (append word (join_more words))

abbrev pub join : List String → String
join [] = ""
join (word ∷ words) = append word (join_more words)

abbrev lower : ℕ → ℕ
lower c = if ltb 64 c && ltb c 91 then c + 32 else c

abbrev same_lower : Text → Text → Bool
same_lower [] [] = true
same_lower [] (d ∷ ds) = false
same_lower (c ∷ cs) [] = false
same_lower (c ∷ cs) (d ∷ ds) = lower c == lower d && same_lower cs ds

abbrev pub eq_ignore_ascii_case : String → String → Bool
eq_ignore_ascii_case s t = same_lower (codes s) (codes t)
