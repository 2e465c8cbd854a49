-- ===== src/Fsm/Notify.antt =====
-- Telling the ports and the registered notifiers of a modem state.
use mtk_t7xx_fix.Prelude.{ℕ, Bool, true, false, List, [], ◌∷◌, ◌++◌, ◌==◌, if◌then◌else◌}
use mtk_t7xx_fix.Fsm.State.{
  MdState, md_ready, waiting_for_hs2, Mode, port_status_notify, notifier_fn, mode_update, Ctl, call,
}

unfoldable pub notifier_register : ℕ → Ctl → Ctl
notifier_register n ctl = record ctl { notifier_list = ctl.notifier_list ++ (n ∷ []) }

-- list_del for every entry that is the given notifier.
unfoldable pub remove_notifier : ℕ → List ℕ → List ℕ
remove_notifier n [] = []
remove_notifier n (m ∷ rest) =
    let kept = remove_notifier n rest in if m == n then kept else m ∷ kept

unfoldable pub notifier_unregister : ℕ → Ctl → Ctl
notifier_unregister n ctl = record ctl { notifier_list = remove_notifier n ctl.notifier_list }

-- The loop of fsm_state_notify.
unfoldable pub notify_each : List ℕ → MdState → Ctl → Ctl
notify_each [] state ctl = ctl
notify_each (n ∷ rest) state ctl = notify_each rest state (call ctl (notifier_fn n state))

unfoldable pub state_notify : MdState → Ctl → Ctl
state_notify state ctl = notify_each ctl.notifier_list state ctl

unfoldable pub broadcast_state : MdState → Ctl → Ctl
broadcast_state state ctl =
    state_notify state (call (record ctl { md_state = state }) (port_status_notify state))

abbrev pub is_waiting_for_hs2 : MdState → Bool
is_waiting_for_hs2 waiting_for_hs2 = true
is_waiting_for_hs2 _ = false

unfoldable pub broadcast_ready_state : Ctl → Ctl
broadcast_ready_state ctl =
    if is_waiting_for_hs2 ctl.md_state
    then call (state_notify md_ready (record ctl { md_state = md_ready }))
        (port_status_notify md_ready)
    else ctl

-- t7xx_mode_update of src/t7xx_pci.c.
unfoldable pub update_mode : Mode → Ctl → Ctl
update_mode mode ctl = call (record ctl { mode = mode }) (mode_update mode)
