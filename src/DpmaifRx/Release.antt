-- ===== src/DpmaifRx/Release.antt =====
-- Taking back the entries that the modem has used: t7xx_dpmaif_release_bat_entry of
-- src/t7xx_hif_dpmaif_rx.c, and its flow check against the entries that the modem has read.
use mtk_t7xx_fix.Prelude.{
  ℕ, zero, suc, ◌+◌, ◌-◌, Bool, false, not, ◌&&◌, ◌||◌, set, u32, leb, ltb, ◌==◌, Errno, einval,
  if◌then◌else◌,
}
use mtk_t7xx_fix.Ring.{read, rd_wr_count}
use mtk_t7xx_fix.DpmaifRx.State.{BatRequest}
use mtk_t7xx_fix.DpmaifRx.Bat.{bat_idx}

-- The `int` that the function returns: a count of entries or an error.
pub data Released : Type 0 where
  released : ℕ → Released
  rel_fail : Errno → Released

-- The loop that clears the bits of the released entries, `left` rounds before its end.
unfoldable pub clear_from : ℕ → ℕ → BatRequest → BatRequest
clear_from zero i bat = bat
clear_from (suc left) i bat = clear_from left (suc i) (record bat {
  bat_bitmap = set bat.bat_bitmap (bat_idx bat.bat_size_cnt bat.bat_release_rd_idx i) false;
})

abbrev pub release : ℕ → ℕ → BatRequest → Released × BatRequest
release rel_entry_num new_rel_idx bat = (
  released rel_entry_num,
  record (clear_from rel_entry_num 0 bat) { bat_release_rd_idx = new_rel_idx },
)

-- `hw_rd_idx` is the read index of the hardware.
unfoldable pub release_bat_entry : Bool → ℕ → ℕ → BatRequest → Released × BatRequest
unfolding clear_from
release_bat_entry que_started hw_rd_idx rel_entry_num bat =
    let old_rel_idx = bat.bat_release_rd_idx in
    let new_rel_idx = u32 (old_rel_idx + rel_entry_num) in
    let wrapped = new_rel_idx - bat.bat_size_cnt in
    if not que_started || rel_entry_num == 0
    then (rel_fail einval, bat)
    else if leb bat.bat_size_cnt rel_entry_num
    then (rel_fail einval, bat)
    else if bat.bat_wr_idx == old_rel_idx
    then (released 0, bat)
    else if leb old_rel_idx hw_rd_idx && ltb hw_rd_idx new_rel_idx
    then (rel_fail einval, bat)
    else if leb bat.bat_size_cnt new_rel_idx
    then (if ltb hw_rd_idx wrapped
        then (rel_fail einval, bat)
        else release rel_entry_num wrapped bat)
    else release rel_entry_num new_rel_idx bat

-- How far an entry is behind the release index.
abbrev behind : BatRequest → ℕ → ℕ
behind bat k = rd_wr_count bat.bat_size_cnt bat.bat_release_rd_idx k read
