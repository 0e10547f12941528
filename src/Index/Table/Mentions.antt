-- ===== src/Index/Table/Mentions.antt =====
-- The column `mentions` of index_database.rs: `join(",")` when it is written, `split(',')` when it
-- is read.
use paper_plane.Prelude.{
  ℕ, ◌≡◌, refl, ap, ◌∙◌, false, List, [], ◌∷◌, ◌++◌, arith, ◌==◌, any, is_empty, All, if◌then◌else◌,
}
use paper_plane.Models.{Text}

unfoldable pub join : List Text → Text
join [] = []
join (t ∷ []) = t
join (t ∷ u ∷ ts) = t ++ (b',' ∷ join (u ∷ ts))

abbrev extend_first : ℕ → List Text → List Text
extend_first c [] = (c ∷ []) ∷ []
extend_first c (t ∷ ts) = (c ∷ t) ∷ ts

unfoldable pub split : Text → List Text
split [] = [] ∷ []
split (c ∷ s) = let rest = split s in if c == b',' then [] ∷ rest else extend_first c rest

abbrev pub HasNoComma : Text → Type 0
HasNoComma t = any (λ c. c == b',') t ≡ false

split_word : (t : Text) → HasNoComma t → split t ≡ t ∷ []
unfolding split
split_word [] h = refl
split_word (c ∷ t) h = ground (arith, split_word t)

split_word_comma : (t s : Text) → HasNoComma t → split (t ++ (b',' ∷ s)) ≡ t ∷ split s
unfolding split
split_word_comma [] s h = refl
split_word_comma (c ∷ t) s h = ground (arith, split_word_comma t s)

-- Mentions without a comma are read back from the column as they were written, but for the empty
-- list: it comes back as the list of one empty mention.
pub split-join :
    (ts : List Text) → All HasNoComma ts → split (join ts) ≡ (if is_empty ts then [] ∷ [] else ts)
unfolding join
split-join [] h = unfold split in refl
split-join (t ∷ []) h = split_word t h.0
split-join (t ∷ u ∷ ts) h =
    split_word_comma t (join (u ∷ ts)) h.0 ∙ ap (λ (l : List Text). t ∷ l) (split-join (u ∷ ts) h.1)
