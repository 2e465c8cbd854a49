-- ===== src/Fsm/State.antt =====
-- The structures of src/t7xx_state_monitor.h, with the fields of src/t7xx_modem_ops.h and
-- src/t7xx_pci.h that the state machine uses.
use mtk_t7xx_fix.Prelude.{ℕ, Bool, true, false, List, [], ◌∷◌, get_or, set, Ret, ok}

-- `enum t7xx_fsm_state`
pub data FsmState : Type 0 where
  init pre_start starting ready exception stopping stopped : FsmState

-- `enum t7xx_fsm_event_state`
pub data EventId : Type 0 where
  invalid md_hs2 ap_hs2 md_ex md_ex_rec_ok md_ex_pass md_hs2_exit ap_hs2_exit max : EventId

-- `enum t7xx_fsm_cmd_state`
pub data CmdId : Type 0 where
  cmd_invalid cmd_start cmd_exception cmd_pre_stop cmd_stop : CmdId

-- `enum md_state`
pub data MdState : Type 0 where
  md_invalid waiting_for_hs1 waiting_for_hs2 md_ready md_exception waiting_to_stop md_stopped :
      MdState

-- `enum t7xx_mode`
pub data Mode : Type 0 where
  unknown mode_ready reset fastboot_switching fastboot_download fastboot_dump mode_last : Mode

-- `enum t7xx_md_irq_type`
pub data MdIrqType : Type 0 where
  irq_wdt irq_ccif_ex irq_port_enum : MdIrqType

unfoldable pub EventId-discrete : Discrete EventId
EventId-discrete = hlevel

pub MdState-discrete : Discrete MdState
MdState-discrete = hlevel

-- `struct t7xx_fsm_event`
pub record Event : Type 0 where
  pub event_id : EventId
  pub length : ℕ
  pub bytes : List ℕ

-- `struct t7xx_fsm_command`; `done` is the completion, and `freed` is set by the release function.
pub record Command : Type 0 where
  pub cmd_id : CmdId
  pub flag : ℕ
  pub done : Bool
  pub result : Ret
  pub refcnt : ℕ
  pub freed : Bool

-- The parts of `struct t7xx_sys_info` that the handshake sets.
pub record SysInfo : Type 0 where
  pub ready : Bool
  pub handshake_ongoing : Bool

-- Calls that leave the state machine.
pub data Call : Type 0 where
  port_status_notify : MdState → Call
  notifier_fn : ℕ → MdState → Call
  mode_update : Mode → Call
  event_notify_pre_start event_notify_start event_notify_ready : Call
  cldma_stop_md cldma_reset_md cldma_reset_ap port_proxy_reset : Call
  trigger_drm_disable : Call
  pm_exp_detected exception_handshake pm_init_late : Call
  set_cfg_early set_cfg_normal : Call
  cldma_hw_init_ap cldma_hw_init_md cldma_stop_ap cldma_switch_dedicated cldma_start_ap : Call
  enable_port_0 : Call
  mask_clr_handshake : Call

-- `struct t7xx_fsm_ctl` with the modem's and the device's fields. A command is named by its place in
-- `commands`, where it was allocated; `calls` lists the calls made, the latest first.
pub record Ctl : Type 0 where
  pub md_state : MdState
  pub curr_state : FsmState
  pub command_queue : List ℕ
  pub event_queue : List Event
  pub exp_flg : Bool
  pub notifier_list : List ℕ
  pub status : ℕ
  pub commands : List Command
  pub core_md : SysInfo
  pub core_ap : SysInfo
  pub md_init_finish : Bool
  pub exp_id : ℕ
  pub mode : Mode
  pub calls : List Call

-- What a stray pointer reads as.
abbrev pub no_command : Command
no_command = record {
  cmd_id = cmd_invalid;
  flag = 0;
  done = false;
  result = ok;
  refcnt = 0;
  freed = true;
}

abbrev pub cmd_at : Ctl → ℕ → Command
cmd_at ctl p = get_or ctl.commands p no_command

abbrev pub set_cmd : Ctl → ℕ → Command → Ctl
set_cmd ctl p c = record ctl { commands = set ctl.commands p c }

abbrev pub call : Ctl → Call → Ctl
call ctl c = record ctl { calls = c ∷ ctl.calls }

-- t7xx_fsm_init, where the allocation succeeds.
unfoldable pub fsm_init : Ctl
fsm_init = record {
  md_state = md_invalid;
  curr_state = init;
  command_queue = [];
  event_queue = [];
  exp_flg = false;
  notifier_list = [];
  status = 0;
  commands = [];
  core_md = record { ready = false; handshake_ongoing = false };
  core_ap = record { ready = false; handshake_ongoing = false };
  md_init_finish = false;
  exp_id = 0;
  mode = unknown;
  calls = [];
}
