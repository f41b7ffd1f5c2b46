-- ===== src/UsbHost.antt =====
-- drivers/aic8800/aic8800_fdrv/usb_host.c: the ring of the frames that wait for a confirmation of the
-- firmware. The driver uses its queue 0 only, so the arrays over queues are one entry here. A frame is
-- the address of its buffer, and 0 is an empty slot.
pub mod Ring
mod Tests
use aic8800_linux_driver.Common.{
  ℕ, ◌+◌, ◌%◌, Bool, true, false, Option, none, some, List, get_or, set, replicate, ◌==◌,
  if◌then◌else◌,
}

abbrev pub usb_txdesc_cnt : ℕ
usb_txdesc_cnt = 64

abbrev pub idx_limit : ℕ
idx_limit = 0x40000000

pub record UsbHostEnv : Type 0 where
  pub txdesc_free_idx : ℕ
  pub txdesc_used_idx : ℕ
  pub tx_host_id : List ℕ

pub aicwf_usb_host_init : UsbHostEnv
aicwf_usb_host_init = record {
  txdesc_free_idx = 0;
  txdesc_used_idx = 0;
  tx_host_id = replicate usb_txdesc_cnt 0;
}

abbrev pub next_idx : ℕ → ℕ
next_idx i = if i + 1 == idx_limit then 0 else i + 1

pub aicwf_usb_host_txdesc_push : UsbHostEnv → ℕ → UsbHostEnv
aicwf_usb_host_txdesc_push env host_id = record env {
  tx_host_id = set env.tx_host_id (env.txdesc_free_idx % usb_txdesc_cnt) host_id;
  txdesc_free_idx = next_idx env.txdesc_free_idx;
}

-- `used_idx` comes from the firmware. The result is the frame that rwnx_txdatacfm is called for, which
-- always returns 0; `none` when the slot is empty.
pub aicwf_usb_host_tx_cfm_handler : UsbHostEnv → ℕ → Option ℕ × UsbHostEnv
aicwf_usb_host_tx_cfm_handler env used_idx =
    let slot = used_idx % usb_txdesc_cnt in
    let host_id = get_or env.tx_host_id slot 0 in
    let cleared = record env { tx_host_id = set env.tx_host_id slot 0 } in
    if host_id == 0
    then (none, record cleared { txdesc_used_idx = used_idx })
    else (some host_id, cleared)
