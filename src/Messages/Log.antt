-- ===== src/Messages/Log.antt =====
-- The log of a peer: its rows of the table `messages`, and what makes it a log.
use paper_plane.Prelude.{
  ℕ, zero, suc, ◌+◌, ◌-◌, ◌^◌, ◌≤◌, ◌<◌, ◌≡◌, sym, drop-nil, String, List, [], ◌∷◌, ◌++◌, arith,
  retain, drop, length, ltb, All,
}
use native.Mathlib.Decide.{dec_lt}
use paper_plane.Prelude.Word.{le_i64}
use paper_plane.Models.{DbMessage}
use paper_plane.Messages.{MessageDatabase, is_from}

unfoldable pub log : String → MessageDatabase → List DbMessage
log peer_id db = retain (is_from peer_id) db.rows

-- The counters count up from `k` with no gap.
abbrev pub Numbered : ℕ → List DbMessage → Type 0
Numbered k [] = Unit {0}
Numbered k (m ∷ ms) = (m.counter ≡ k) × Numbered (suc k) ms

pub Numbered-append :
    (k : ℕ) (xs ys : List DbMessage)
    → Numbered k xs
    → Numbered (k + length xs) ys
    → Numbered k (xs ++ ys)
Numbered-append k [] ys hx hy = ground arith
Numbered-append k (x ∷ xs) ys hx hy = ground (arith, Numbered-append (suc k) xs ys)

pub Numbered-drop : (n k : ℕ) (xs : List DbMessage) → Numbered k xs → Numbered (k + n) (drop n xs)
Numbered-drop zero k xs h = ground arith
Numbered-drop (suc n) k [] h = tt
Numbered-drop (suc n) k (x ∷ xs) h = ground (arith, Numbered-drop n (suc k) xs)

pub Numbered-All-lt :
    (b k : ℕ) (xs : List DbMessage)
    → Numbered k xs
    → k + length xs ≤ b
    → All (λ m. m.counter < b) xs
Numbered-All-lt b k [] h le = tt
Numbered-All-lt b k (x ∷ xs) h le = ground (arith, Numbered-All-lt b (suc k) xs)

-- Of consecutive counters those above `c` are a suffix.
pub retain_above-Numbered :
    (c k : ℕ) (xs : List DbMessage)
    → Numbered k xs
    → retain (λ m. ltb c m.counter) xs ≡ drop (suc c - k) xs
retain_above-Numbered c k [] h = sym (drop-nil (suc c - k))
retain_above-Numbered c k (x ∷ xs) h =
    let rest = retain_above-Numbered c (suc k) xs h.1 in
    elim (dec_lt c k) [
      | yes low ↦
          let none_before : suc c - suc k ≡ 0 = omega arith in
          let none_now : suc c - k ≡ 0 = omega arith in
          rw none_now (ground (arith, rw none_before at rest))
      | no high ↦
          let one_now : suc c - k ≡ suc (suc c - suc k) = omega arith in
          rw one_now (ground (arith, rest))
    ]

-- Under a signed order, as long as the counters fit an i64.
pub retain_from-Numbered :
    (c k : ℕ) (xs : List DbMessage)
    → Numbered k xs
    → k + length xs ≤ 2 ^ 63
    → c < 2 ^ 63
    → retain (λ m. le_i64 c m.counter) xs ≡ drop (c - k) xs
retain_from-Numbered c k [] h le lt = sym (drop-nil (c - k))
retain_from-Numbered c k (x ∷ xs) h le lt =
    let rest = retain_from-Numbered c (suc k) xs h.1 (omega arith) lt in
    elim (dec_lt k c) [
      | yes low ↦
          let one_now : c - k ≡ suc (c - suc k) = omega arith in rw one_now (ground (arith, rest))
      | no high ↦
          let none_before : c - suc k ≡ 0 = omega arith in
          let none_now : c - k ≡ 0 = omega arith in
          rw none_now (ground (arith, rw none_before at rest))
    ]
