-- ===== src/Pm/State.antt =====
-- The parts of `struct t7xx_pci_dev` that power management uses, src/t7xx_pci.c and src/t7xx_pci.h.
use mtk_t7xx_fix.Prelude.{
  ℕ, Bool, true, false, List, [], ◌∷◌, ◌++◌, ◌==◌, if◌then◌else◌, Ret, ok, fail, eexist, enxio,
}
use mtk_t7xx_fix.Fsm.State.{Mode}

-- `enum t7xx_pm_state`, in its order.
pub data PmState : Type 0 where
  pm_exception pm_init pm_suspended pm_resumed : PmState

-- `struct md_pm_entity`, with which of its callbacks are set.
pub record Entity : Type 0 where
  pub id : ℕ
  pub has_suspend : Bool
  pub has_suspend_late : Bool
  pub has_resume_early : Bool
  pub has_resume : Bool

-- What power management calls; the callbacks with the entity's id and their result.
pub data PmCall : Type 0 where
  entity_suspend entity_resume : ℕ → Ret → PmCall
  entity_suspend_late entity_resume_early : ℕ → PmCall
  aspm_disable aspm_enable : PmCall
  rgu_int_set rgu_int_clear rgu_int_clear_status : PmCall
  set_sleep_capability : Bool → PmCall
  swint_ds_lock : PmCall
  pm_request : ℕ → PmCall
  interrupts_en pcim_enable_device mac_reinit mhccif_init : PmCall
  runtime_get_noresume runtime_put_noidle : PmCall
  fsm_stop fsm_start clear_rgu_irq mask_clr_exception : PmCall

-- `sleep_lock` is the completion `sleep_lock_acquire`; `calls` lists the calls made, the latest first.
pub record Dev : Type 0 where
  pub entities : List Entity
  pub pm_state : PmState
  pub mode : Mode
  pub rgu_pci_irq_en : Bool
  pub sleep_disable_count : ℕ
  pub sleep_lock : Bool
  pub resume_reprobe_count : ℕ
  pub calls : List PmCall

abbrev pub call : PmCall → Dev → Dev
call c d = record d { calls = c ∷ d.calls }

-- `md_pm_state < MTK_PM_RESUMED` and `md_pm_state <= MTK_PM_INIT`.
abbrev pub before_resumed : PmState → Bool
before_resumed pm_resumed = false
before_resumed _ = true

abbrev pub up_to_init : PmState → Bool
up_to_init pm_exception = true
up_to_init pm_init = true
up_to_init _ = false

abbrev pub has_id : ℕ → List Entity → Bool
has_id i [] = false
has_id i (e ∷ es) = if e.id == i then true else has_id i es

-- An entity is named by its id, which no other one has.
abbrev pub remove_id : ℕ → List Entity → List Entity
remove_id i [] = []
remove_id i (e ∷ es) = if e.id == i then es else e ∷ remove_id i es

unfoldable pub entity_register : Entity → Dev → Ret × Dev
entity_register e d =
    if has_id e.id d.entities
    then (fail eexist, d)
    else (ok, record d { entities = d.entities ++ (e ∷ []) })

unfoldable pub entity_unregister : Entity → Dev → Ret × Dev
entity_unregister e d =
    if has_id e.id d.entities
    then (ok, record d { entities = remove_id e.id d.entities })
    else (fail enxio, d)
