-- ===== src/Prelude/Status.antt =====
-- The `int` return codes of the driver: 0, or a negated error number.
use mathlib.Core.Path.{◌≡◌, refl}
use mathlib.Core.Logic.{◌⊎◌, inl, inr}
use native.Mathlib.Omega.{arith}

pub data Errno : Type 0 where
  einval enomem ebusy enodev etimedout efault eexist enxio enobufs eagain eio enodata ealready
        eacces :
      Errno
  -- any other code, as returned by code outside the driver
  eother : Errno

pub data Ret : Type 0 where
  ok : Ret
  fail : Errno → Ret

pub Errno-discrete : Discrete Errno
Errno-discrete = hlevel

pub Ret-cases : (r : Ret) → (r ≡ ok) ⊎ ((e : Errno) × (r ≡ fail e))
Ret-cases ok = inl refl
Ret-cases (fail e) = inr (e, refl)

pub fail-ok : (e : Errno) → fail e ≡ ok → ⊥
fail-ok e h = ground arith

pub Ret-by {ℓ κ} :
    {A : Type ℓ} (P : A → Type κ) (r : Ret) (x : A) (f : Errno → A)
    → (r ≡ ok → P x)
    → ((e : Errno) → P (f e))
    → P (elim r as (λ _. A) [ ok ↦ x | fail e ↦ f e ])
Ret-by P ok x f g h = g refl
Ret-by P (fail e) x f g h = h e
