-- ===== src/Cldma/Linked.antt =====
-- The links between the descriptors of a ring, as src/t7xx_hif_cldma.c makes them.
use mtk_t7xx_fix.Prelude.{
  ℕ, zero, suc, ◌+◌, ◌-◌, ◌≤◌, ◌<◌, ◌≡◌, ◌≢◌, refl, ap, ◌∙◌, arith, List, [], ◌∷◌, length,
  length-set, get_or, get_or-set_self, get_or-set_ne, set, ℕ_discrete, ◌⊎◌, inl, inr, subst,
}
use mtk_t7xx_fix.Cldma.State.{Request, no_request, next}
use mtk_t7xx_fix.Cldma.Setup.{link_from, link}

abbrev pub at : List Request → ℕ → Request
at ring k = get_or ring k no_request

abbrev point : List Request → ℕ → ℕ → List Request
point ring i addr = set ring i (record (at ring i) { next_gpd_ptr = addr })

-- What a link does not touch.
module _ {ℓ} {X : Type ℓ} (f : Request → X)
    (same : (r : Request) (a : ℕ) → f (record r { next_gpd_ptr = a }) ≡ f r) where
  point-same : (ring : List Request) (i a k : ℕ) → f (at (point ring i a) k) ≡ f (at ring k)
  point-same [] i a k = refl
  point-same (r ∷ rs) zero a zero = same r a
  point-same (r ∷ rs) zero a (suc k) = refl
  point-same (r ∷ rs) (suc i) a zero = refl
  point-same (r ∷ rs) (suc i) a (suc k) = point-same rs i a k

  link_from-same :
      (n prev i : ℕ) (ring : List Request) (k : ℕ)
      → f (at (link_from n prev i ring) k) ≡ f (at ring k)
  unfolding link_from
  link_from-same zero prev i ring k = refl
  link_from-same (suc n) prev i ring k =
      link_from-same n i (suc i) (point ring prev (at ring i).gpd_addr) k
      ∙ point-same ring prev (at ring i).gpd_addr k

  pub link-same : (ring : List Request) (k : ℕ) → f (at (link ring) k) ≡ f (at ring k)
  unfolding link
  link-same ring k = link_from-same (length ring) (length ring - 1) 0 ring k

length-link_from :
    (n prev i : ℕ) (ring : List Request) → length (link_from n prev i ring) ≡ length ring
unfolding link_from
length-link_from zero prev i ring = refl
length-link_from (suc n) prev i ring =
    length-link_from n i (suc i) (point ring prev (at ring i).gpd_addr) ∙ length-set ring prev _

pub length-link : (ring : List Request) → length (link ring) ≡ length ring
unfolding link
length-link ring = length-link_from (length ring) (length ring - 1) 0 ring

-- The loop leaves alone what is not before an entry it comes to.
link_from-beside :
    (n prev i : ℕ) (ring : List Request) (k : ℕ)
    → prev ≢ k
    → (k < i) ⊎ (i + n ≤ suc k)
    → (at (link_from n prev i ring) k).next_gpd_ptr ≡ (at ring k).next_gpd_ptr
unfolding link_from
link_from-beside zero prev i ring k h l = refl
link_from-beside (suc zero) prev i ring k h l =
    ap (λ r. r.next_gpd_ptr) (get_or-set_ne ring prev k _ no_request h)
link_from-beside (suc (suc n)) prev i ring k h l =
    link_from-beside (suc n) i (suc i) (point ring prev (at ring i).gpd_addr) k (λ e. ground arith)
      (ground arith)
    ∙ ap (λ r. r.next_gpd_ptr) (get_or-set_ne ring prev k _ no_request h)

-- The first entry it writes.
link_from-first :
    (n prev i : ℕ) (ring : List Request)
    → prev < length ring
    → (prev < i) ⊎ (i + n ≤ prev)
    → (at (link_from (suc n) prev i ring) prev).next_gpd_ptr ≡ (at ring i).gpd_addr
unfolding link_from
link_from-first zero prev i ring h l =
    ap (λ r. r.next_gpd_ptr) (get_or-set_self ring prev _ no_request h)
link_from-first (suc n) prev i ring h l =
    link_from-beside (suc n) i (suc i) (point ring prev (at ring i).gpd_addr) prev
      (λ e. ground arith) (ground arith)
    ∙ ap (λ r. r.next_gpd_ptr) (get_or-set_self ring prev _ no_request h)

link_from-inner :
    (n prev i : ℕ) (ring : List Request) (k : ℕ)
    → i + n ≡ length ring
    → i ≤ k
    → suc k < i + n
    → (at (link_from n prev i ring) k).next_gpd_ptr ≡ (at ring (suc k)).gpd_addr
unfolding link_from
link_from-inner zero prev i ring k e l m = absurd (omega arith)
link_from-inner (suc zero) prev i ring k e l m = absurd (omega arith)
link_from-inner (suc (suc n)) prev i ring k e l m =
    let ring₁ = point ring prev (at ring i).gpd_addr in
    let kept = point-same (λ r. r.gpd_addr) (λ r a. refl) ring prev (at ring i).gpd_addr (suc k) in
    let size : length ring₁ ≡ length ring = length-set ring prev _ in
    elim (ℕ_discrete i k) [
      | yes x ↦
          subst
            (λ j.
              (at (link_from (suc n) i (suc i) ring₁) j).next_gpd_ptr ≡ (at ring₁ (suc j)).gpd_addr)
            x (link_from-first n i (suc i) ring₁ (omega (arith, size)) (inl (omega arith)))
          ∙ kept
      | no x ↦
          link_from-inner (suc n) i (suc i) ring₁ k (omega (arith, size)) (omega arith)
            (omega arith)
          ∙ kept
    ]

-- Every descriptor of a ring points to the one after it, the last to the first.
pub link-next :
    (ring : List Request) (k : ℕ)
    → k < length ring
    → (at (link ring) k).next_gpd_ptr ≡ (at ring (next (length ring) k)).gpd_addr
unfolding link
link-next [] k l = absurd (omega arith)
link-next (r ∷ rs) k l = elim (ℕ_discrete (suc (length rs) - 1) k) [
  | yes e ↦
      subst
        (λ j.
          (at (link (r ∷ rs)) j).next_gpd_ptr ≡ (at (r ∷ rs) (next (suc (length rs)) j)).gpd_addr)
        e
        (link_from-first (length rs) (suc (length rs) - 1) 0 (r ∷ rs) (omega arith)
            (inr (omega arith))
          ∙ ap (λ j. (at (r ∷ rs) j).gpd_addr) (around (length rs)))
  | no n ↦
      link_from-inner (suc (length rs)) (suc (length rs) - 1) 0 (r ∷ rs) k (omega arith)
        (omega arith) (omega arith)
      ∙ ap (λ j. (at (r ∷ rs) j).gpd_addr) (inside k (length rs) l n)
]
  where
    around : (n : ℕ) → 0 ≡ next (suc n) (suc n - 1)
    around n = ground arith

    inside : (k n : ℕ) → k < suc n → suc n - 1 ≢ k → suc k ≡ next (suc n) k
    inside k n l h = ground arith
