-- ===== src/Cldma/Slots.antt =====
-- Places in a ring, counted from one of its entries, and what they hold.
use mtk_t7xx_fix.Prelude.{
  ℕ, zero, suc, ◌+◌, ◌-◌, ◌≤◌, ◌<◌, ◌≡◌, ◌≢◌, refl, ap, arith, none, some, List, [], ◌∷◌, ◌++◌,
  length, get_elem?, ltb, if◌then◌else◌, ℕ_discrete, subst,
}
use mtk_t7xx_fix.Cldma.State.{next}

-- The entry `k` places after the entry `start`, for `k` up to the ring's length.
abbrev pub place : ℕ → ℕ → ℕ → ℕ
place len start k = if ltb (start + k) len then start + k else start + k - len

pub place-lt : (len start k : ℕ) → start < len → k < len → place len start k < len
place-lt len start k h l = ground arith

pub place-ne :
    (len start j k : ℕ)
    → start < len
    → j < len
    → k < len
    → j ≢ k
    → place len start j ≢ place len start k
place-ne len start j k h l m n e = ground arith

pub place-next :
    (len start k : ℕ)
    → start < len
    → suc k ≤ len
    → place len (next len start) k ≡ place len start (suc k)
place-next len start k h l = ground arith

pub place_first : (len start : ℕ) → start < len → place len start 0 ≡ start
place_first len start h = ground arith

pub place_around : (len start : ℕ) → start < len → place len start len ≡ start
place_around len start h = ground arith

pub next-place :
    (len start k : ℕ)
    → start < len
    → k < len
    → next len (place len start k) ≡ place len start (suc k)
next-place len start k h l = ground arith

pub next-lt : (len start : ℕ) → start < len → next len start < len
next-lt len start h = ground arith

-- A predicate on all numbers below a bound.
abbrev pub AllBelow {ℓ} : ℕ → (ℕ → Type ℓ) → Type ℓ
AllBelow zero P = Unit
AllBelow (suc n) P = P n × AllBelow n P

pub AllBelow-at {ℓ} : (n : ℕ) (P : ℕ → Type ℓ) (k : ℕ) → AllBelow n P → k < n → P k
AllBelow-at zero P k h l = absurd (omega arith)
AllBelow-at (suc n) P k h l = elim (ℕ_discrete n k) [
  | yes e ↦ subst P e h.0
  | no e ↦ AllBelow-at n P k h.1 (omega arith)
]

pub AllBelow_of {ℓ} : (n : ℕ) (P : ℕ → Type ℓ) → ((k : ℕ) → k < n → P k) → AllBelow n P
AllBelow_of zero P f = tt
AllBelow_of (suc n) P f = (f n (omega arith), AllBelow_of n P (λ k l. f k (omega arith)))

module _ {ℓ} {A : Type ℓ} where
  pub get_elem?_beyond : (xs : List A) (k : ℕ) → length xs ≤ k → get_elem? xs k ≡ none
  get_elem?_beyond [] k h = refl
  get_elem?_beyond (x ∷ xs) zero h = absurd (omega arith)
  get_elem?_beyond (x ∷ xs) (suc k) h = get_elem?_beyond xs k (omega arith)

  pub get_elem?-append_ne :
      (xs : List A) (a : A) (k : ℕ) → length xs ≢ k → get_elem? (xs ++ (a ∷ [])) k ≡ get_elem? xs k
  get_elem?-append_ne [] a zero h = absurd (h refl)
  get_elem?-append_ne [] a (suc k) h = refl
  get_elem?-append_ne (x ∷ xs) a zero h = refl
  get_elem?-append_ne (x ∷ xs) a (suc k) h = get_elem?-append_ne xs a k (λ e. h (ap suc e))

  pub get_elem?-append_end : (xs : List A) (a : A) → get_elem? (xs ++ (a ∷ [])) (length xs) ≡ some a
  get_elem?-append_end [] a = refl
  get_elem?-append_end (x ∷ xs) a = get_elem?-append_end xs a
