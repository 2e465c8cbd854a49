-- ===== src/Fsm/Reach.antt =====
-- The state machine of src/t7xx_state_monitor.c between commands: the thread's rounds interleaved
-- with what interrupts, other threads and the handshake work do.
use mtk_t7xx_fix.Prelude.{
  ℕ, ◌≡◌, ◌≢◌, ◌⊎◌, inl, inr, refl, sym, subst, ◌∙◌, arith, Bool, true, List, [], ◌∷◌, field_get,
}
use mtk_t7xx_fix.Fsm.State.{
  FsmState, init, pre_start, ready, exception, stopped, EventId, CmdId, MdIrqType, irq_wdt,
  irq_ccif_ex, irq_port_enum, Ctl, cmd_at, fsm_init, cmd_start, cmd_exception,
}
use mtk_t7xx_fix.Fsm.Queues.{queue_cmd, append_event, clr_event}
use mtk_t7xx_fix.Fsm.Notify.{notifier_register, notifier_unregister}
use mtk_t7xx_fix.Fsm.Routines.{Env, hs1_broadcast, may_start}
use mtk_t7xx_fix.Fsm.Thread.{
  take_command, main_step, recv_md_intr, flag_in_interrupt, flag_exception_event,
}
use mtk_t7xx_fix.Fsm.Started.{
  queue_cmd-curr, hs1_broadcast-curr, Started, polling, timed_out, handshaken,
}
use mtk_t7xx_fix.Fsm.Transitions.{Edge, stay, start, except, pre_stop, stop, run_command-Edge}

-- One thing that happens. The thread's round runs a whole command.
pub data Step (c : Ctl) : Ctl → Type 0 where
  thread : (env : Env) → Step c (main_step env c)
  queue : (alloc : Bool) (id : CmdId) (flag : ℕ) → Step c (queue_cmd alloc id flag c).1
  event :
      (alloc : Bool) (id : EventId) (n : ℕ) (bytes : List ℕ)
      → Step c (append_event alloc id n bytes c).1
  clear : (id : EventId) → Step c (clr_event id c)
  interrupt : (alloc : Bool) (type : MdIrqType) → Step c (recv_md_intr alloc type c).1
  register : (n : ℕ) → Step c (notifier_register n c)
  unregister : (n : ℕ) → Step c (notifier_unregister n c)
  hs1 : Step c (hs1_broadcast true c)

pub data Reach (s : Ctl) : Ctl → Type 0 where
  here : Reach s s
  next : {c d : Ctl} → Reach s c → Step c d → Reach s d

-- What a step does to the state: an edge of the thread's diagram, or nothing.
pub data Moved (c d : Ctl) : Type 0 where
  moved :
      (env : Env) (flag : ℕ) (id : CmdId) → Edge env flag id c.curr_state d.curr_state → Moved c d
  kept : d.curr_state ≡ c.curr_state → Moved c d

take_command-Moved : (env : Env) (l : List ℕ) (ctl : Ctl) → Moved ctl (take_command env l ctl)
unfolding take_command
take_command-Moved env [] ctl = kept refl
take_command-Moved env (p ∷ rest) ctl =
    moved env _ _
      (run_command-Edge env (cmd_at ctl p).cmd_id p (record ctl { command_queue = rest }))

recv_md_intr-curr :
    (alloc : Bool) (type : MdIrqType) (ctl : Ctl)
    → (recv_md_intr alloc type ctl).1.curr_state ≡ ctl.curr_state
unfolding recv_md_intr
recv_md_intr-curr alloc irq_port_enum ctl = queue_cmd-curr alloc cmd_start flag_in_interrupt ctl
recv_md_intr-curr alloc irq_ccif_ex ctl =
    queue_cmd-curr alloc cmd_exception flag_exception_event (record ctl { exp_flg = true })
recv_md_intr-curr alloc irq_wdt ctl = refl

append_any-curr :
    (alloc : Bool) (id : EventId) (n : ℕ) (bytes : List ℕ) (ctl : Ctl)
    → (append_event alloc id n bytes ctl).1.curr_state ≡ ctl.curr_state
unfolding append_event
append_any-curr alloc id n bytes ctl = ground arith

Step-Moved : {c d : Ctl} → Step c d → Moved c d
unfolding main_step clr_event notifier_register notifier_unregister
Step-Moved {c} (thread env) = take_command-Moved env c.command_queue c
Step-Moved {c} (queue alloc id flag) = kept (queue_cmd-curr alloc id flag c)
Step-Moved {c} (event alloc id n bytes) = kept (append_any-curr alloc id n bytes c)
Step-Moved (clear id) = kept refl
Step-Moved {c} (interrupt alloc type) = kept (recv_md_intr-curr alloc type c)
Step-Moved (register n) = kept refl
Step-Moved (unregister n) = kept refl
Step-Moved {c} hs1 = kept (hs1_broadcast-curr true c)

-- The states in which the machine rests between commands: `starting` and `stopping` are passed
-- through within a command.
pub data Settled : FsmState → Type 0 where
  at_init : Settled init
  at_pre_start : Settled pre_start
  at_ready : Settled ready
  at_exception : Settled exception
  at_stopped : Settled stopped

Started-Settled : {env : Env} {flag : ℕ} {s : FsmState} → Started env flag s → Settled s
Started-Settled polling = at_pre_start
Started-Settled (timed_out late f st) = at_exception
Started-Settled (handshaken m a f s) = at_ready

Edge-Settled :
    {env : Env} {flag : ℕ} {id : CmdId} {s t : FsmState}
    → Edge env flag id s t
    → Settled s
    → Settled t
Edge-Settled (stay id s r) h = h
Edge-Settled (start s t m st) h = Started-Settled st
Edge-Settled (except s m) h = at_exception
Edge-Settled (pre_stop s r) h = at_stopped
Edge-Settled (stop s r) h = at_stopped

Moved-Settled : {c d : Ctl} → Moved c d → Settled c.curr_state → Settled d.curr_state
Moved-Settled (moved env flag id e) h = Edge-Settled e h
Moved-Settled (kept e) h = subst Settled (sym e) h

-- However commands, events, interrupts, registrations and handshakes are interleaved with the
-- thread's rounds after initialisation, between two steps the machine is never left in the states
-- `starting` or `stopping`.
pub Reach-Settled : {c : Ctl} → Reach fsm_init c → Settled c.curr_state
unfolding fsm_init
Reach-Settled here = at_init
Reach-Settled (next r st) = Moved-Settled (Step-Moved st) (Reach-Settled r)

-- A state that an exception can be left for.
pub data AfterException : FsmState → Type 0 where
  still : AfterException exception
  stopped_from : AfterException stopped

Edge-AfterException :
    {env : Env} {flag : ℕ} {id : CmdId} {s t : FsmState}
    → Edge env flag id s t
    → AfterException s
    → (AfterException t) ⊎ (s ≡ stopped)
Edge-AfterException (stay id s r) h = inl h
Edge-AfterException (start s t m st) still = cc
Edge-AfterException (start s t m st) stopped_from = inr refl
Edge-AfterException (except s m) h = inl still
Edge-AfterException (pre_stop s r) h = inl stopped_from
Edge-AfterException (stop s r) h = inl stopped_from

-- No single step leads from the exception state anywhere but to itself or to `stopped`: a modem
-- that has crashed is not started again unless it was stopped first.
pub exception_needs_stop :
    {c d : Ctl}
    → Step c d
    → c.curr_state ≡ exception
    → (d.curr_state ≡ exception) ⊎ (d.curr_state ≡ stopped)
exception_needs_stop {c} {d} st e = go (Step-Moved st)
  where
    as_sum : {t : FsmState} → AfterException t → (t ≡ exception) ⊎ (t ≡ stopped)
    as_sum still = inl refl
    as_sum stopped_from = inr refl

    go : Moved c d → (d.curr_state ≡ exception) ⊎ (d.curr_state ≡ stopped)
    go (kept k) = inl (k ∙ e)
    go (moved env flag id ed) = elim (Edge-AfterException ed (subst AfterException (sym e) still)) [
      | inl a ↦ as_sum a
      | inr s ↦ cc
    ]

-- What a start that ends in `ready` has found, by the flag of its command.
pub record Handshaken (env : Env) (flag : ℕ) : Type 0 where
  pub md : env.core_md.ready ≡ true
  pub ap_core : env.core_ap.ready ≡ true
  pub flagged : flag ≢ 0
  pub linux : field_get 0 3 env.dev_status ≡ 4

Edge-ready :
    {env : Env} {flag : ℕ} {id : CmdId} {s t : FsmState}
    → Edge env flag id s t
    → t ≡ ready
    → (s ≡ ready) ⊎ ((id ≡ cmd_start) × (Handshaken env flag) × (may_start s ≡ true))
Edge-ready (stay id s r) e = inl e
Edge-ready (start s t m st) e = inr (refl, go st e, m)
  where
    go :
        {env : Env} {flag : ℕ} {u : FsmState} → Started env flag u → u ≡ ready → Handshaken env flag
    go polling e = cc
    go (timed_out late f st) e = cc
    go (handshaken a b f g) e = record { md = a; ap_core = b; flagged = f; linux = g }
Edge-ready (except s m) e = cc
Edge-ready (pre_stop s r) e = cc
Edge-ready (stop s r) e = cc

-- A round of the thread that found a start command at the head of its queue, in a state that allows it,
-- and both cores ready; `env` is what that round was told.
abbrev pub RanStart : Env → Ctl → List ℕ → Type 0
RanStart env c [] = ⊥
RanStart env c (p ∷ rest) =
    ((cmd_at c p).cmd_id ≡ cmd_start)
    × (Handshaken env (cmd_at c p).flag)
    × (may_start c.curr_state ≡ true)

abbrev pub StartStep : {c d : Ctl} → Step c d → Type 0
StartStep {c} (thread env) = RanStart env c c.command_queue
StartStep (queue alloc id flag) = ⊥
StartStep (event alloc id n bytes) = ⊥
StartStep (clear id) = ⊥
StartStep (interrupt alloc type) = ⊥
StartStep (register n) = ⊥
StartStep (unregister n) = ⊥
StartStep hs1 = ⊥

take_command-RanStart :
    (env : Env) (l : List ℕ) (c : Ctl)
    → (take_command env l c).curr_state ≡ ready
    → c.curr_state ≢ ready
    → RanStart env c l
unfolding take_command
take_command-RanStart env [] c e n = absurd (n e)
take_command-RanStart env (p ∷ rest) c e n =
    let edge = run_command-Edge env (cmd_at c p).cmd_id p (record c { command_queue = rest }) in
    elim (Edge-ready edge e) [ inl s ↦ absurd (n s) | inr h ↦ h ]

-- A step into `ready` from another state is a round of the thread that took a start command from the
-- head of the queue, in `init`, `pre_start` or `stopped`; the command came with a flag, and that round
-- found the device in its Linux stage and both cores ready after the wait for their handshakes.
pub ready_needs_handshakes :
    {c d : Ctl} (st : Step c d) → d.curr_state ≡ ready → c.curr_state ≢ ready → StartStep st
unfolding main_step clr_event notifier_register notifier_unregister
ready_needs_handshakes {c} (thread env) e n = take_command-RanStart env c.command_queue c e n
ready_needs_handshakes {c} (queue alloc id flag) e n = n (sym (queue_cmd-curr alloc id flag c) ∙ e)
ready_needs_handshakes {c} (event alloc id k bytes) e n =
    n (sym (append_any-curr alloc id k bytes c) ∙ e)
ready_needs_handshakes (clear id) e n = n e
ready_needs_handshakes {c} (interrupt alloc type) e n = n (sym (recv_md_intr-curr alloc type c) ∙ e)
ready_needs_handshakes (register k) e n = n e
ready_needs_handshakes (unregister k) e n = n e
ready_needs_handshakes {c} hs1 e n = n (sym (hs1_broadcast-curr true c) ∙ e)
