-- ===== src/Client/Matched.antt =====
-- WaitForDevice of drivers/storage/libstorage/libstorage_client_xcli.go never tells that the device is there.
use libstorage.Base.{
  Bool, false, Option, none, Text, Result, ok, err, ◌≡◌, continue-keeps, arith, codes,
}
use libstorage.Types.LocalDevices
use libstorage.Types.LocalDevices.{LocalDevices, invalid_local_devices}
use libstorage.Client.{
  Fault, timed_out, failed, ServiceInfo, Context, Host, Platform, Settings, run_executor,
}
use libstorage.Client.Xcli.{
  DeviceScanType, wait_for_device, wait_args, after_wait, ready, lsx_sop_wait_for_device,
  unmarshal_local_devices,
}

abbrev NeverMatched : Result Fault (Bool × Option LocalDevices) → Type 0
NeverMatched r =
    (matched : Bool) (found : Option LocalDevices)
    → r ≡ ok (matched, found)
    → (matched ≡ false) × (found ≡ none)

after_wait-NeverMatched : (r : Result Fault Text) → NeverMatched (after_wait r)
unfolding unmarshal_local_devices LocalDevices.unmarshal_text
after_wait-NeverMatched (ok out) m ld e = ground arith
after_wait-NeverMatched (err timed_out) m ld e = cc
after_wait-NeverMatched (err x) m ld e = cc

module _ {S : Type 0} (c : Settings) (p : Platform S) where
  -- Whatever the executor and the operating system do: where WaitForDevice gives no error, it says
  -- that the device has not been found, and gives no local devices.
  pub wait_for_device_never_matches :
      (ctx : Context) (scan : DeviceScanType) (token timeout : Text) (h : Host S) (matched : Bool)
      (found : Option LocalDevices)
      → (wait_for_device c p ctx scan token timeout h).0 ≡ ok (matched, found)
      → (matched ≡ false) × (found ≡ none)
  unfolding wait_for_device
  wait_for_device_never_matches ctx scan token timeout h =
      continue-keeps NeverMatched (λ e m ld x. cc)
        (ready c p (codes "WaitForDevice") lsx_sop_wait_for_device ctx h) _
        (λ found s.
          after_wait-NeverMatched (run_executor c p (wait_args found.1 scan token timeout) s).0)

  -- Where the executor times out in WaitForDevice, the caller does not learn of it: the error is that of the
  -- text of local devices.
  pub wait_for_device_hides_timeout :
      (ctx : Context) (scan : DeviceScanType) (token timeout : Text) (h h1 h2 : Host S)
      (service : Text) (si : ServiceInfo)
      → ready c p (codes "WaitForDevice") lsx_sop_wait_for_device ctx h ≡ (ok (service, si), h1)
      → run_executor c p (wait_args si scan token timeout) h1 ≡ (err timed_out, h2)
      → wait_for_device c p ctx scan token timeout h ≡ (err (failed invalid_local_devices), h2)
  unfolding wait_for_device LocalDevices.unmarshal_text
  wait_for_device_hides_timeout ctx scan token timeout h h1 h2 service si e1 e2 = rw (e1, e2)
