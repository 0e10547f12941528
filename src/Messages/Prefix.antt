-- ===== src/Messages/Prefix.antt =====
-- Logs that are the beginning of another, and messages that stand in a log.
use paper_plane.Prelude.{
  ℕ, suc, ◌+◌, ◌≤◌, ◌≡◌, refl, sym, ap, ◌∙◌, ◌⊎◌, inl, inr, List, [], ◌∷◌, ◌++◌, arith, append-nil,
  append_assoc, All, length, length-append,
}
use paper_plane.Models.{DbMessage}
use paper_plane.Messages.Log.{Numbered}

abbrev pub Prefix : List DbMessage → List DbMessage → Type 0
Prefix xs ys = (rest : List DbMessage) × (ys ≡ xs ++ rest)

abbrev pub In : DbMessage → List DbMessage → Type 0
In m [] = ⊥
In m (x ∷ xs) = (m ≡ x) ⊎ In m xs

pub Prefix-refl : (xs : List DbMessage) → Prefix xs xs
Prefix-refl xs = ([], sym (append-nil xs))

pub Prefix-append : (xs ys : List DbMessage) → Prefix xs (xs ++ ys)
Prefix-append xs ys = (ys, refl)

pub Prefix-trans : (xs ys zs : List DbMessage) → Prefix xs ys → Prefix ys zs → Prefix xs zs
Prefix-trans xs ys zs (r, e) (s, f) =
    (r ++ s, f ∙ ap (λ (l : List DbMessage). l ++ s) e ∙ append_assoc xs r s)

pub Prefix-length : (xs ys : List DbMessage) → Prefix xs ys → length xs ≤ length ys
Prefix-length xs ys (r, e) = omega (arith, ap length e, length-append xs r)

empty_of_length : (l : List DbMessage) → length l ≡ 0 → l ≡ []
empty_of_length [] h = refl
empty_of_length (m ∷ ms) h = absurd (omega arith)

pub Prefix_antisym : (xs ys : List DbMessage) → Prefix xs ys → Prefix ys xs → xs ≡ ys
Prefix_antisym xs ys (r, e) back =
    let len = Prefix-length ys xs back in
    let none_more : r ≡ [] =
      empty_of_length r (omega (arith, len, ap length e, length-append xs r)) in
    sym (e ∙ ap (λ (l : List DbMessage). xs ++ l) none_more ∙ append-nil xs)

In-append : (m : DbMessage) (xs ys : List DbMessage) → In m xs → In m (xs ++ ys)
In-append m [] ys h = absurd h
In-append m (x ∷ xs) ys (inl e) = inl e
In-append m (x ∷ xs) ys (inr h) = inr (In-append m xs ys h)

pub In-Prefix : (m : DbMessage) (xs ys : List DbMessage) → Prefix xs ys → In m xs → In m ys
In-Prefix m xs ys (r, e) h = rw e (In-append m xs r h)

pub snoc-In : (m : DbMessage) (xs : List DbMessage) → In m (xs ++ m ∷ [])
snoc-In m [] = inl refl
snoc-In m (x ∷ xs) = inr (snoc-In m xs)

pub All-In_self : (xs : List DbMessage) → All (λ m. In m xs) xs
All-In_self xs = inside xs xs (λ m h. h)
  where
    inside : (ms l : List DbMessage) → ((m : DbMessage) → In m ms → In m l) → All (λ m. In m l) ms
    inside [] l f = tt
    inside (m ∷ ms) l f = (f m (inl refl), inside ms l (λ x h. f x (inr h)))

pub In-Numbered :
    (k : ℕ) (m : DbMessage) (xs : List DbMessage) → Numbered k xs → In m xs → k ≤ m.counter
In-Numbered k m [] n h = absurd h
In-Numbered k m (x ∷ xs) n (inl e) = omega (arith, ap (λ (y : DbMessage). y.counter) e, n.0)
In-Numbered k m (x ∷ xs) n (inr h) = omega (arith, In-Numbered (suc k) m xs n.1 h)

-- In a numbered log the message behind a beginning is the one with the next number.
next_of :
    (k : ℕ) (m : DbMessage) (pre rest : List DbMessage)
    → Numbered k (pre ++ rest)
    → In m (pre ++ rest)
    → m.counter ≡ k + length pre
    → (more : List DbMessage) × (rest ≡ m ∷ more)
next_of k m [] [] n h e = absurd h
next_of k m [] (x ∷ xs) n (inl same) e = (xs, ap (λ (y : DbMessage). y ∷ xs) (sym same))
next_of k m [] (x ∷ xs) n (inr h) e = absurd (omega (arith, In-Numbered (suc k) m xs n.1 h))
next_of k m (p ∷ ps) rest n (inl same) e =
    absurd (omega (arith, ap (λ (y : DbMessage). y.counter) same, n.0))
next_of k m (p ∷ ps) rest n (inr h) e = next_of (suc k) m ps rest n.1 h (omega arith)

-- What goes on from a beginning of a numbered log in its numbering, by messages of this log, is a
-- beginning again.
pub Prefix-Numbered :
    (new pre l : List DbMessage)
    → Numbered 1 l
    → Prefix pre l
    → Numbered (suc (length pre)) new
    → All (λ m. In m l) new
    → Prefix (pre ++ new) l
Prefix-Numbered [] pre l n h num all = rw append-nil h
Prefix-Numbered (m ∷ ms) pre l n (rest, e) num all =
    let (more, next) = next_of 1 m pre rest (rw e at n) (rw e at all.0) (omega (arith, num.0)) in
    let split : l ≡ (pre ++ m ∷ []) ++ more =
      e ∙ ap (λ (r : List DbMessage). pre ++ r) next ∙ sym (append_assoc pre (m ∷ []) more) in
    let len : length (pre ++ m ∷ []) ≡ suc (length pre) =
      omega (arith, length-append pre (m ∷ [])) in
    rw (← append_assoc pre (m ∷ []) ms)
      (Prefix-Numbered ms (pre ++ m ∷ []) l n (more, split) (rw len num.1) all.1)

-- One of the two goes on from the other.
abbrev pub Agree : List DbMessage → List DbMessage → Type 0
Agree xs ys = Prefix xs ys ⊎ Prefix ys xs

tail_eq : (x y : DbMessage) (xs ys : List DbMessage) → x ∷ xs ≡ y ∷ ys → (x ≡ y) × (xs ≡ ys)
tail_eq x y xs ys e = (cc, cc)

-- Two beginnings of one list.
pub Prefix-Agree : (xs ys l : List DbMessage) → Prefix xs l → Prefix ys l → Agree xs ys
Prefix-Agree [] ys l hx hy = inl (ys, refl)
Prefix-Agree (x ∷ xs) [] l hx hy = inr (x ∷ xs, refl)
Prefix-Agree (x ∷ xs) (y ∷ ys) l (r, e) (s, f) =
    let (same, tails) = tail_eq x y (xs ++ r) (ys ++ s) (sym e ∙ f) in
    elim (Prefix-Agree xs ys (xs ++ r) (r, refl) (s, tails)) [
      | inl (more, go) ↦ inl (more, rw same (ap (λ (t : List DbMessage). y ∷ t) go))
      | inr (more, go) ↦ inr (more, rw same (ap (λ (t : List DbMessage). y ∷ t) go))
    ]
