-- ===== src/UsbHost/Tests.antt =====
-- The theorems of the ring at concrete inputs.
use aic8800_linux_driver.Common.{ℕ, ◌≡◌, [], ◌∷◌, ◌++◌, some, replicate, arith}
use aic8800_linux_driver.UsbHost.{
  aicwf_usb_host_init, aicwf_usb_host_txdesc_push, aicwf_usb_host_tx_cfm_handler,
}
use aic8800_linux_driver.UsbHost.Ring.{
  init-IsValid, pushes, cfm_handler-push, cfm_handler-overwritten,
}

abbrev first_idx : ℕ
first_idx = aicwf_usb_host_init.txdesc_free_idx

cfm_handler-push_example :
    (aicwf_usb_host_tx_cfm_handler
      (pushes (aicwf_usb_host_txdesc_push aicwf_usb_host_init 7) (8 ∷ 9 ∷ []))
      first_idx).0
    ≡ some 7
cfm_handler-push_example =
    cfm_handler-push aicwf_usb_host_init 7 (8 ∷ 9 ∷ []) init-IsValid
      (λ e. absurd (omega (arith, e))) (omega arith)

cfm_handler-overwritten_example :
    (aicwf_usb_host_tx_cfm_handler
      (pushes (aicwf_usb_host_txdesc_push aicwf_usb_host_init 7) (replicate 63 8 ++ (9 ∷ [])))
      first_idx).0
    ≡ some 9
cfm_handler-overwritten_example =
    cfm_handler-overwritten aicwf_usb_host_init 7 (replicate 63 8) 9 init-IsValid
      (λ e. absurd (omega (arith, e))) (omega arith)
