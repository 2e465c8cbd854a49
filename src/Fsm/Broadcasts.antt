-- ===== src/Fsm/Broadcasts.antt =====
-- Who is told of a modem state, and in which order (src/t7xx_state_monitor.c).
use mtk_t7xx_fix.Prelude.{
  ℕ, ◌≡◌, ◌≢◌, refl, sym, ap, ◌∙◌, arith, true, false, List, [], ◌∷◌, ◌++◌, append_assoc, All,
  All-append, Bool-cases, inl, inr, ◌==◌,
}
use mtk_t7xx_fix.Fsm.State.{MdState, md_ready, Call, notifier_fn, port_status_notify, Ctl, call}
use mtk_t7xx_fix.Fsm.Notify.{
  notifier_register, notifier_unregister, remove_notifier, notify_each, state_notify,
  broadcast_state, broadcast_ready_state, is_waiting_for_hs2,
}

-- The calls of the notifiers, the latest first.
abbrev pub told : MdState → List ℕ → List Call
told state [] = []
told state (n ∷ rest) = told state rest ++ (notifier_fn n state ∷ [])

notify_each-calls :
    (l : List ℕ) (state : MdState) (ctl : Ctl)
    → (notify_each l state ctl).calls ≡ told state l ++ ctl.calls
unfolding notify_each
notify_each-calls [] state ctl = refl
notify_each-calls (n ∷ rest) state ctl =
    notify_each-calls rest state (call ctl (notifier_fn n state))
    ∙ sym (append_assoc (told state rest) (notifier_fn n state ∷ []) ctl.calls)

-- A broadcast tells the ports first and then every registered notifier once, in the order of
-- registration. The ready broadcast does so only in the state waiting_for_hs2, and tells the ports
-- last; in any other state it does nothing.
pub broadcast_order :
    (state : MdState) (ctl : Ctl)
    → ((broadcast_state state ctl).calls
        ≡ told state ctl.notifier_list ++ (port_status_notify state ∷ ctl.calls))
      × (is_waiting_for_hs2 ctl.md_state ≡ true
          → ((broadcast_ready_state ctl).calls
              ≡ port_status_notify md_ready ∷ (told md_ready ctl.notifier_list ++ ctl.calls)))
      × (is_waiting_for_hs2 ctl.md_state ≡ false → broadcast_ready_state ctl ≡ ctl)
unfolding broadcast_state broadcast_ready_state state_notify
broadcast_order state ctl = (
  notify_each-calls ctl.notifier_list state _,
  λ e.
      rw e (
        ap (λ l. port_status_notify md_ready ∷ l) (notify_each-calls ctl.notifier_list md_ready _)),
  λ e. rw e,
)

-- Not a call of the notifier.
abbrev pub Spares : ℕ → Call → Type 0
Spares n c = (s : MdState) → c ≢ notifier_fn n s

fn_injective : (m n : ℕ) (a b : MdState) → notifier_fn m a ≡ notifier_fn n b → m ≡ n
fn_injective m n a b e = cc

told-Spares :
    (n : ℕ) (state : MdState) (l : List ℕ) → All (Spares n) (told state (remove_notifier n l))
unfolding remove_notifier
told-Spares n state [] = tt
told-Spares n state (m ∷ rest) = elim (Bool-cases (m == n)) [
  | inl e ↦ rw e (told-Spares n state rest)
  | inr e ↦ rw e (
      All-append (Spares n) (told state (remove_notifier n rest)) (notifier_fn m state ∷ [])
        (told-Spares n state rest) (differs m n state e, tt))
]
  where
    differs : (m n : ℕ) (state : MdState) → (m == n) ≡ false → Spares n (notifier_fn m state)
    differs m n state e s p = let q = fn_injective m n state s p in ground arith

-- A notifier that was registered any number of times and then unregistered is told nothing more.
pub unregistered_not_told :
    (n : ℕ) (state : MdState) (ctl : Ctl)
    → All (Spares n) (told state (notifier_unregister n (notifier_register n ctl)).notifier_list)
unfolding notifier_unregister notifier_register
unregistered_not_told n state ctl = told-Spares n state (ctl.notifier_list ++ (n ∷ []))
