-- ===== src/Index/OrderId/Order.antt =====
-- The order of the order ids as texts is the order of the messages.
use paper_plane.Prelude.{
  ℕ, zero, suc, ◌/◌, ◌%◌, ◌^◌, ◌<◌, ◌≡◌, refl, ◌∙◌, String, Bool, true, false, List, [], ◌∷◌, ◌++◌,
  arith, ltb, if◌then◌else◌, length, length-append,
}
use native.Mathlib.Decide.{dec_lt}
use paper_plane.Models.{Text}
use paper_plane.Index.OrderId.{codes, to_be_bytes, hex_text, order_id}

-- Texts compare by their first difference.
unfoldable pub lt_text : Text → Text → Bool
lt_text s [] = false
lt_text [] (d ∷ t) = true
lt_text (c ∷ s) (d ∷ t) =
    let rest = lt_text s t in if ltb c d then true else if ltb d c then false else rest

lt_text_prefix : (p s t : Text) → lt_text (p ++ s) (p ++ t) ≡ lt_text s t
unfolding lt_text
lt_text_prefix [] s t = refl
lt_text_prefix (c ∷ p) s t = ground (arith, lt_text_prefix p s t)

lt_text-append :
    (p q s t : Text) → length p ≡ length q → lt_text p q ≡ true → lt_text (p ++ s) (q ++ t) ≡ true
unfolding lt_text
lt_text-append [] [] s t l h = cc
lt_text-append [] (d ∷ q) s t l h = absurd (omega arith)
lt_text-append (c ∷ p) [] s t l h = cc
lt_text-append (c ∷ p) (d ∷ q) s t l h = ground (arith, lt_text-append p q s t)

pub lt_text_asymm : (s t : Text) → lt_text s t ≡ true → lt_text t s ≡ false
unfolding lt_text
lt_text_asymm [] [] h = cc
lt_text_asymm [] (d ∷ t) h = refl
lt_text_asymm (c ∷ s) [] h = cc
lt_text_asymm (c ∷ s) (d ∷ t) h = ground (arith, lt_text_asymm s t)

hex_text-append : (xs ys : List ℕ) → hex_text (xs ++ ys) ≡ hex_text xs ++ hex_text ys
unfolding hex_text
hex_text-append [] ys = refl
hex_text-append (x ∷ xs) ys = ground (arith, hex_text-append xs ys)

length-hex_text_byte : (x : ℕ) → length (hex_text (x ∷ [])) ≡ 2
unfolding hex_text
length-hex_text_byte x = refl

length-hex_text-to_be_bytes :
    (n x y : ℕ) → length (hex_text (to_be_bytes n x)) ≡ length (hex_text (to_be_bytes n y))
unfolding to_be_bytes
length-hex_text-to_be_bytes zero x y = refl
length-hex_text-to_be_bytes (suc n) x y =
    simp (hex_text-append, length-append, length-hex_text_byte)
      (omega (arith, length-hex_text-to_be_bytes n (x / 256) (y / 256)))

last_byte :
    (p : Text) (x y : ℕ)
    → x < 256
    → y < 256
    → x < y
    → lt_text (p ++ hex_text (x ∷ [])) (p ++ hex_text (y ∷ [])) ≡ true
last_byte p x y hx hy h = rw lt_text_prefix (unfold lt_text hex_text in ground arith)

hex_text_mono :
    (n x y : ℕ)
    → y < 256 ^ n
    → x < y
    → lt_text (hex_text (to_be_bytes n x)) (hex_text (to_be_bytes n y)) ≡ true
unfolding to_be_bytes
hex_text_mono zero x y hy h = absurd (omega arith)
hex_text_mono (suc n) x y hy h = elim (dec_lt (x / 256) (y / 256)) [
  | yes high ↦ simp hex_text-append (
      lt_text-append _ _ _ _ (length-hex_text-to_be_bytes n (x / 256) (y / 256))
        (hex_text_mono n (x / 256) (y / 256) (omega arith) high))
  | no low ↦
      let same : x / 256 ≡ y / 256 = omega arith in
      simp (hex_text-append, same)
        (last_byte (hex_text (to_be_bytes n (y / 256))) (x % 256) (y % 256) (omega arith)
          (omega arith) (omega arith))
]

order_id_mono :
    (a b : ℕ) (p q : String) → b < 2 ^ 64 → a < b → lt_text (order_id a p) (order_id b q) ≡ true
unfolding order_id
order_id_mono a b p q hb h =
    lt_text-append _ _ _ _ (length-hex_text-to_be_bytes 8 a b) (hex_text_mono 8 a b (omega arith) h)

-- Order ids of orders below 2 ^ 64 compare as the pairs of the order and the author's id do: by
-- the number first, and between messages of one number by the author.
pub lt_text-order_id :
    (a b : ℕ) (p q : String)
    → a < 2 ^ 64
    → b < 2 ^ 64
    → lt_text (order_id a p) (order_id b q)
      ≡ (if ltb a b then true else if ltb b a then false else lt_text (codes p) (codes q))
lt_text-order_id a b p q ha hb = ground (
  arith,
  order_id_mono a b p q,
  lt_text_asymm (order_id b q) (order_id a p),
  order_id_mono b a q p,
  same_order a p q,
)
  where
    same_order :
        (a : ℕ) (p q : String) → lt_text (order_id a p) (order_id a q) ≡ lt_text (codes p) (codes q)
    same_order a p q =
        unfold order_id in
        (lt_text_prefix (hex_text (to_be_bytes 8 a)) _ _ ∙ lt_text_prefix (b'-' ∷ []) _ _)
