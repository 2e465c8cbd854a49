-- ===== src/Modem/Handshake.antt =====
-- The handshake works and the interrupts of src/t7xx_modem_ops.c.
use Prim.Native.Nat.{bit_or}
use mtk_t7xx_fix.Prelude.{
  ℕ, Bool, true, false, not, ◌&&◌, ◌||◌, Option, none, some, List, [], ◌∷◌, ◌++◌, map, get_elem?,
  if◌then◌else◌, test_bit, clear_bit, Ret, ok, fail,
}
use mtk_t7xx_fix.Fsm.State.{
  Ctl, Event, EventId, md_hs2, ap_hs2, md_hs2_exit, ap_hs2_exit, MdState, md_invalid,
  waiting_for_hs1, waiting_for_hs2, md_ready, FsmState, init, pre_start, stopped, irq_ccif_ex,
  irq_port_enum, SysInfo,
}
use mtk_t7xx_fix.Fsm.Queues.{same_event, clr_event}
use mtk_t7xx_fix.Fsm.Notify.{broadcast_state}
use mtk_t7xx_fix.Fsm.Thread.{recv_md_intr}
use mtk_t7xx_fix.Cldma.State.{Ctrl}
use mtk_t7xx_fix.Cldma.Setup.{RxAlloc}
use mtk_t7xx_fix.Cldma.Ctrl.{start, stop, switch_cfg}
use mtk_t7xx_fix.Modem.Features.{Memory, RtFeature, prepare_device_rt_data, parse_host_rt_data}

-- What the handshakes and the interrupts call.
pub data HkCall : Type 0 where
  send_hs1 wake_async_hk : HkCall
  send_hs3 : ℕ → List RtFeature → HkCall
  port_enum : ℕ → HkCall
  handshake_work ap_handshake_work : HkCall
  sw_int_ack mask_set mask_clr : ℕ → HkCall

-- A round of the wait: the events that arrived before it, kthread_should_stop(), and `exp_flg` as it is
-- in the round.
pub record HkRound : Type 0 where
  pub arrived : List Event
  pub should_stop : Bool
  pub exp_flg : Bool

-- What a handshake is told: its rounds, whether its two messages can be allocated, the memory behind
-- the event's data, and `exp_flg` when it is read again.
pub record HkEnv : Type 0 where
  pub rounds : List HkRound
  pub alloc_hs1 : Bool
  pub alloc_hs3 : Bool
  pub beyond : Memory
  pub exp_later : Bool

-- The first event of either kind, and the others.
unfoldable pub take_hs : EventId → EventId → List Event → Option (Event × List Event)
take_hs event_id err_detect [] = none
take_hs event_id err_detect (e ∷ rest) =
    let later = take_hs event_id err_detect rest in
    if same_event e.event_id err_detect || same_event e.event_id event_id
    then some (e, rest)
    else elim later [ none ↦ none | some r ↦ some (r.0, e ∷ r.1) ]

-- The loop, until the rounds listed are over; without an event when the work has to stop.
unfoldable pub hk_wait : List HkRound → EventId → EventId → Ctl → Option (Option Event × Ctl)
unfolding take_hs
hk_wait [] event_id err_detect ctl = none
hk_wait (r ∷ rest) event_id err_detect ctl =
    let ctl₁ = record ctl { event_queue = ctl.event_queue ++ r.arrived; exp_flg = r.exp_flg } in
    let later = hk_wait rest event_id err_detect ctl₁ in
    if r.should_stop
    then some (none, ctl₁)
    else elim (take_hs event_id err_detect ctl₁.event_queue) [
      | none ↦ later
      | some (e, kept) ↦ some (some e, record ctl₁ { event_queue = kept })
    ]

-- The data of an event.
abbrev pub event_data : Memory → Event → Memory
event_data beyond e o = elim (get_elem? e.bytes o) [ none ↦ beyond o | some b ↦ b ]

-- What is done with an HS2 event.
unfoldable pub answer_hs2 : HkEnv → Memory → Event → Bool → SysInfo → SysInfo × List HkCall
answer_hs2 env host e exp_flg core =
    let msg = event_data env.beyond e in
    let (parsed, ports) = parse_host_rt_data host msg e.length in
    let enums = map (λ (o : ℕ). port_enum o) ports in
    let (prepared, hs3) = prepare_device_rt_data env.alloc_hs3 msg in
    let sent = elim hs3 as (λ _. List HkCall) [
      | none ↦ []
      | some (size, fs) ↦ send_hs3 size fs ∷ []
    ] in
    let done = record core { ready = true; handshake_ongoing = false } in
    if exp_flg then (core, []) else elim parsed [
      | fail x ↦ (core, enums)
      | ok ↦ if env.exp_later then (core, enums) else elim prepared [
        | fail x ↦ (core, enums)
        | ok ↦ (done, enums ++ sent ++ (wake_async_hk ∷ []))
      ]
    ]

-- The result, once the wait is over: the core, the state machine and the calls, the first one first.
abbrev pub hs_result :
    HkEnv → Memory → EventId → SysInfo → Option Event × Ctl → SysInfo × Ctl × List HkCall
hs_result env host err_detect core (none, ctl) = (core, ctl, [])
hs_result env host err_detect core (some e, ctl) =
    let (core₁, calls) = answer_hs2 env host e ctl.exp_flg core in
    if same_event e.event_id err_detect then (core, ctl, []) else (core₁, ctl, calls)

unfoldable pub core_hk_handler :
    HkEnv → Memory → EventId → EventId → Ctl → SysInfo → Option (SysInfo × Ctl × List HkCall)
unfolding hk_wait answer_hs2
core_hk_handler env host event_id err_detect ctl core =
    let hs1 = if env.alloc_hs1 then send_hs1 ∷ [] else [] in
    elim (hk_wait env.rounds event_id err_detect ctl) [
      | none ↦ none
      | some w ↦
          let (core₁, ctl₁, calls) = hs_result env host err_detect core w in
          some (core₁, ctl₁, hs1 ++ calls)
    ]

-- What rebuilding a controller's rings is told.
pub record Rebuild : Type 0 where
  pub pool : Bool
  pub tx_answers : List (List (Option ℕ))
  pub rx_answers : List (List RxAlloc)

abbrev pub rebuilt : Rebuild → Ctrl → Ctrl
unfolding switch_cfg start
rebuilt b c = start (switch_cfg b.pool b.tx_answers b.rx_answers false c)

-- The two works, with the controller they rebuild.
unfoldable pub md_hk_wq : HkEnv → Rebuild → Memory → Ctl → Ctrl → Option (Ctl × Ctrl × List HkCall)
unfolding core_hk_handler clr_event broadcast_state rebuilt
md_hk_wq env b host ctl c =
    let ctl₁ = broadcast_state waiting_for_hs2 (clr_event md_hs2_exit ctl) in
    elim (core_hk_handler env host md_hs2 md_hs2_exit ctl₁
      (record (ctl₁.core_md) { handshake_ongoing = true })) [
        | none ↦ none
        | some (core, ctl₂, calls) ↦ some (record ctl₂ { core_md = core }, rebuilt b c, calls)
      ]

-- `polled` is the result of stopping the controller.
unfoldable pub ap_hk_wq :
    HkEnv → Ret → Rebuild → Memory → Ctl → Ctrl → Option (Ctl × Ctrl × List HkCall)
unfolding core_hk_handler clr_event rebuilt stop
ap_hk_wq env polled b host ctl c =
    let ctl₁ = clr_event ap_hs2_exit ctl in
    elim (core_hk_handler env host ap_hs2 ap_hs2_exit ctl₁
      (record (ctl₁.core_ap) { handshake_ongoing = true })) [
        | none ↦ none
        | some (core, ctl₂, calls) ↦
            some (record ctl₂ { core_ap = core }, rebuilt b (stop polled c).1, calls)
      ]

-- The bits of `exp_id`.
abbrev pub int_exception_init : ℕ
int_exception_init = 1

abbrev pub int_port_enum : ℕ
int_port_enum = 5

abbrev pub int_async_ap_hk : ℕ
int_async_ap_hk = 15

abbrev pub int_async_md_hk : ℕ
int_async_md_hk = 16

abbrev pub expects_exception : MdState → Bool
expects_exception md_invalid = true
expects_exception waiting_for_hs1 = true
expects_exception waiting_for_hs2 = true
expects_exception md_ready = true
expects_exception _ = false

abbrev pub expects_port_enum : FsmState → Bool
expects_port_enum init = true
expects_port_enum pre_start = true
expects_port_enum stopped = true
expects_port_enum _ = false

abbrev pub is_waiting_for_hs1 : MdState → Bool
is_waiting_for_hs1 waiting_for_hs1 = true
is_waiting_for_hs1 _ = false

-- `alloc` tells whether a command can be allocated, `int_sta` and `mask` are the interrupt status and
-- mask. A NULL state machine is `none`.
unfoldable pub mhccif_isr : Bool → ℕ → ℕ → Ctl → Ret × Ctl × List HkCall
unfolding recv_md_intr
mhccif_isr alloc int_sta mask ctl =
    let c = record ctl { exp_id = bit_or ctl.exp_id int_sta } in
    let clear = λ (bit : ℕ). record c { exp_id = clear_bit bit c.exp_id } in
    let (ex_ret, ex) = recv_md_intr alloc irq_ccif_ex (clear int_exception_init) in
    let (en_ret, en) = recv_md_intr alloc irq_port_enum (clear int_port_enum) in
    if test_bit int_exception_init c.exp_id
    then if expects_exception ctl.md_state then (ex_ret, ex, []) else (ok, c, [])
    else if test_bit int_port_enum c.exp_id
    then if expects_port_enum ctl.curr_state
      then (en_ret, en, [])
      else (ok, clear int_port_enum, [])
    else if is_waiting_for_hs1 ctl.md_state
    then if test_bit int_async_md_hk c.exp_id && not (test_bit int_async_md_hk mask)
      then (ok, clear int_async_md_hk, handshake_work ∷ [])
      else (ok, c, [])
    else (ok, c, [])

-- `enum md_event_id`.
pub data MdEventId : Type 0 where
  fsm_pre_start fsm_start fsm_ready : MdEventId

-- A handshake that has been asked for is started, and its interrupt is masked.
abbrev pub start_hk : ℕ → HkCall → Ctl × List HkCall → Ctl × List HkCall
start_hk bit work (ctl, calls) =
    if test_bit bit ctl.exp_id
    then (
      record ctl { exp_id = clear_bit bit ctl.exp_id },
      calls ++ (work ∷ sw_int_ack bit ∷ mask_set bit ∷ []),
    )
    else (ctl, calls)

abbrev pub forget_hk : Ctl → Ctl
forget_hk ctl = record ctl {
  exp_id = clear_bit int_async_ap_hk (clear_bit int_async_md_hk ctl.exp_id);
}

-- The interrupt bits 1 to 4 are those of an exception.
unfoldable pub md_event_notify : MdEventId → ℕ → Ctl → Ctl × List HkCall
md_event_notify fsm_pre_start int_sta ctl =
    (ctl, mask_clr int_port_enum ∷ mask_clr int_async_md_hk ∷ mask_clr int_async_ap_hk ∷ [])
md_event_notify fsm_start int_sta ctl =
    let c = record ctl { exp_id = bit_or ctl.exp_id int_sta } in
    let excepted = record c { exp_flg = true; exp_id = clear_bit int_exception_init c.exp_id } in
    let (d, calls) =
      if test_bit int_exception_init c.exp_id
      then (forget_hk excepted, [])
      else if ctl.exp_flg
      then (forget_hk c, [])
      else start_hk int_async_ap_hk ap_handshake_work
          (start_hk int_async_md_hk handshake_work (c, [])) in
    (
      d,
      (mask_set int_port_enum ∷ calls) ++ (mask_clr 1 ∷ mask_clr 2 ∷ mask_clr 3 ∷ mask_clr 4 ∷ []),
    )
md_event_notify fsm_ready int_sta ctl =
    (ctl, mask_set int_async_md_hk ∷ mask_set int_async_ap_hk ∷ [])
