-- ===== src/Platform/Number.antt =====
-- The port as a text: `to_string` and `parse` of a u16 in Rust's standard library.
use paper_plane.Prelude.{
  ℕ, zero, suc, ◌+◌, ◌-◌, ◌*◌, ◌/◌, ◌%◌, ◌^◌, ◌<◌, ◌≤◌, ◌≡◌, refl, sym, ap, ◌∙◌, ◌||◌, Option, none,
  some, inl, inr, Bool-cases, [], ◌∷◌, ◌++◌, ltb, ◌==◌, arith, if◌then◌else◌, All, All-append,
}
use paper_plane.Platform.{Bytes}

-- The digits of a number, at most as many as the fuel says.
unfoldable pub digits : ℕ → ℕ → Bytes
digits zero n = []
digits (suc fuel) n =
    let more = digits fuel (n / 10) in
    if ltb n 10 then (48 + n) ∷ [] else more ++ (48 + n % 10) ∷ []

-- A u16 has five digits at most.
abbrev pub to_string : ℕ → Bytes
to_string n = digits 5 n

-- One more digit: an error if it is none, or on overflow.
abbrev push_digit : Option ℕ → ℕ → Option ℕ
push_digit none b = none
push_digit (some n) b =
    if ltb b 48 || ltb 57 b
    then none
    else if ltb (n * 10 + (b - 48)) (2 ^ 16)
    then some (n * 10 + (b - 48))
    else none

unfoldable pub parse_digits : Option ℕ → Bytes → Option ℕ
parse_digits n [] = n
parse_digits n (b ∷ bs) = parse_digits (push_digit n b) bs

-- An empty text and a lone sign are errors; a `+` may stand in front of the digits.
unfoldable pub parse : Bytes → Option ℕ
unfolding parse_digits
parse [] = none
parse (b ∷ []) = parse_digits (some 0) (b ∷ [])
parse (b ∷ c ∷ bs) =
    if b == 43 then parse_digits (some 0) (c ∷ bs) else parse_digits (some 0) (b ∷ c ∷ bs)

parse_digits-append :
    (n : Option ℕ) (xs : Bytes) (b : ℕ)
    → parse_digits n (xs ++ b ∷ []) ≡ push_digit (parse_digits n xs) b
unfolding parse_digits
parse_digits-append n [] b = refl
parse_digits-append n (x ∷ xs) b = parse_digits-append (push_digit n x) xs b

abbrev pow10 : ℕ → ℕ
pow10 zero = 1
pow10 (suc fuel) = 10 * pow10 fuel

parse_digits-digits :
    (fuel n : ℕ) → n < 2 ^ 16 → n < pow10 fuel → parse_digits (some 0) (digits fuel n) ≡ some n
unfolding parse_digits digits
parse_digits-digits zero n small few = let e : 0 ≡ n = omega arith in ap (λ (k : ℕ). some k) e
parse_digits-digits (suc fuel) n small few = elim (Bool-cases (ltb n 10)) [
  | inl one ↦ ground arith
  | inr more ↦
      let rest = parse_digits-digits fuel (n / 10) (omega arith) (omega arith) in
      ground (arith, parse_digits-append (some 0) (digits fuel (n / 10)) (48 + n % 10))
]

pub digits_bound : (fuel n : ℕ) → All (λ b. b < 58) (digits fuel n)
unfolding digits
digits_bound zero n = tt
digits_bound (suc fuel) n = elim (Bool-cases (ltb n 10)) [
  | inl one ↦ let small : n < 10 = ground arith in rw one (omega arith, tt)
  | inr more ↦ rw more (
      All-append (λ b. b < 58) (digits fuel (n / 10)) ((48 + n % 10) ∷ [])
        (digits_bound fuel (n / 10)) (omega arith, tt))
]

digits_cons : (fuel n : ℕ) → (b : ℕ) × (bs : Bytes) × (digits (suc fuel) n ≡ b ∷ bs) × (48 ≤ b)
unfolding digits
digits_cons zero n = elim (Bool-cases (ltb n 10)) [
  | inl one ↦ (48 + n, [], ground arith, omega arith)
  | inr more ↦ (48 + n % 10, [], ground arith, omega arith)
]
digits_cons (suc fuel) n = elim (Bool-cases (ltb n 10)) [
  | inl one ↦ (48 + n, [], ground arith, omega arith)
  | inr more ↦
      let (b, bs, made, large) = digits_cons fuel (n / 10) in
      (b, bs ++ (48 + n % 10) ∷ [], ground arith, large)
]

no_sign : (b : ℕ) (bs : Bytes) → 48 ≤ b → parse (b ∷ bs) ≡ parse_digits (some 0) (b ∷ bs)
unfolding parse
no_sign b [] large = refl
no_sign b (c ∷ bs) large = ground arith

pub parse-to_string : (n : ℕ) → n < 2 ^ 16 → parse (to_string n) ≡ some n
parse-to_string n small =
    let (b, bs, made, large) = digits_cons 4 n in
    ap parse made
    ∙ no_sign b bs large
    ∙ ap (parse_digits (some 0)) (sym made)
    ∙ parse_digits-digits 5 n small (omega arith)
