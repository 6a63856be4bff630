-- ===== src/Client/Xcli.antt =====
-- The operations of drivers/storage/libstorage/libstorage_client_xcli.go that run the executor. Those
-- whose answers come as JSON are left out, and so are their bits.
use libstorage.Base.{
  ℕ, ◌+◌, List, [], ◌∷◌, ◌++◌, Bool, true, false, Option, none, some, Text, codes, Result, ok, err,
  Exec, pure, raise, ◌>>=◌, ◌>>◌, if◌then◌else◌, nat_eq, text_eq, to_lower,
}
use libstorage.Base.Dict.{Dict, get, put}
use libstorage.Base.Int.{ℤ, parse_int}
use libstorage.Base.Split.{is_space}
use libstorage.Types.Attachments.{bit_set}
use libstorage.Types.Errors.{Error, goof, panicked, endless}
use libstorage.Types.Values.{to_word}
use libstorage.Types.LocalDevices
use libstorage.Types.LocalDevices.{LocalDevices}
use libstorage.Client.{
  Fault, not_implemented, timed_out, executor_not_supported, unsupported_for_client_type, failed,
  ServiceInfo, Context, Host, Platform, Settings, must_service, get_service_info, not_controller,
  run_executor,
}

abbrev pub lsx_sop_instance_id : ℕ
lsx_sop_instance_id = 1

abbrev pub lsx_sop_next_device : ℕ
lsx_sop_next_device = 2

abbrev pub lsx_sop_local_devices : ℕ
lsx_sop_local_devices = 4

abbrev pub lsx_sop_wait_for_device : ℕ
lsx_sop_wait_for_device = 8

abbrev pub lsx_sop_mount : ℕ
lsx_sop_mount = 16

abbrev pub lsx_sop_umount : ℕ
lsx_sop_umount = 32

abbrev pub lsx_op_all_no_mount : ℕ
lsx_op_all_no_mount =
    lsx_sop_instance_id + lsx_sop_next_device + lsx_sop_local_devices + lsx_sop_wait_for_device

pub data DeviceScanType : Type 0 where
  device_scan_quick device_scan_deep : DeviceScanType

abbrev pub scan_text : DeviceScanType → Text
scan_text device_scan_quick = codes "quick"
scan_text device_scan_deep = codes "deep"

-- bytes.TrimSpace
unfoldable pub trim_left : Text → Text
trim_left [] = []
trim_left (c ∷ s) = let rest = trim_left s in if is_space c then rest else c ∷ s

abbrev kept_byte : ℕ → Text → Text
kept_byte c [] = if is_space c then [] else c ∷ []
kept_byte c (d ∷ s) = c ∷ d ∷ s

unfoldable pub trim_right : Text → Text
trim_right [] = []
trim_right (c ∷ s) = kept_byte c (trim_right s)

unfoldable pub trim_space : Text → Text
unfolding trim_left trim_right
trim_space s = trim_right (trim_left s)

-- The local devices without those that have no volume.
unfoldable pub with_volumes : Dict Text Text → Dict Text Text
with_volumes [] = []
with_volumes ((k, []) ∷ m) = with_volumes m
with_volumes ((k, c ∷ v) ∷ m) = (k, c ∷ v) ∷ with_volumes m

abbrev mapped : Result Error LocalDevices → Result Fault LocalDevices
unfolding with_volumes
mapped (err e) = err (failed e)
mapped (ok ld) = ok (record ld { device_map = with_volumes ld.device_map })

unfoldable pub unmarshal_local_devices : Text → Result Fault LocalDevices
unfolding with_volumes LocalDevices.unmarshal_text
unmarshal_local_devices out = mapped (LocalDevices.unmarshal_text out)

abbrev pub returned : {S A : Type 0} → Result Fault A → Exec (Host S) Fault A
returned r h = (r, h)

abbrev matched_devices :
    Bool → Result Fault LocalDevices → Result Fault (Bool × Option LocalDevices)
matched_devices matched (err e) = err e
matched_devices matched (ok ld) = ok (matched, some ld)

-- Behind the run: only a time-out goes on, and there is no output then.
abbrev pub after_wait : Result Fault Text → Result Fault (Bool × Option LocalDevices)
unfolding unmarshal_local_devices
after_wait (ok out) = ok (false, none)
after_wait (err timed_out) = matched_devices false (unmarshal_local_devices [])
after_wait (err e) = err e

abbrev pub wait_args : ServiceInfo → DeviceScanType → Text → Text → List Text
wait_args si scan token timeout =
    si.driver_name ∷ codes "wait" ∷ scan_text scan ∷ token ∷ timeout ∷ []

module _ {S : Type 0} (c : Settings) (p : Platform S) where
  abbrev pub cache_supported : Text → ℕ → Exec (Host S) Fault ℕ
  unfolding put
  cache_supported driver v h = (ok v, record h { supported_cache = put driver v h.supported_cache })

  abbrev pub parsed_supported : Text → Option ℤ → Exec (Host S) Fault ℕ
  unfolding to_word put
  parsed_supported driver none = raise (failed (goof (codes "invalid syntax")))
  parsed_supported driver (some i) = cache_supported driver (to_word i)

  abbrev pub asked_supported : Text → Result Fault Text → Exec (Host S) Fault ℕ
  unfolding to_word put trim_space parse_int
  asked_supported driver (err not_implemented) = cache_supported driver lsx_op_all_no_mount
  asked_supported driver (err timed_out) = raise timed_out
  asked_supported driver (err executor_not_supported) = raise executor_not_supported
  asked_supported driver (err (unsupported_for_client_type op)) =
      raise (unsupported_for_client_type op)
  asked_supported driver (err (failed e)) = raise (failed e)
  asked_supported driver (ok []) = pure 0
  asked_supported driver (ok (b ∷ out)) = parsed_supported driver (parse_int (trim_space (b ∷ out)))

  unfoldable pub ask_supported : Text → Exec (Host S) Fault ℕ
  unfolding to_word put trim_space parse_int
  ask_supported driver h =
      asked_supported driver (run_executor c p (driver ∷ codes "supported" ∷ []) h).0
        (run_executor c p (driver ∷ codes "supported" ∷ []) h).1

  unfoldable pub supported_by : Text → Exec (Host S) Fault ℕ
  unfolding ask_supported get
  supported_by driver h = elim (get h.supported_cache driver) [
    | some v ↦ (ok v, h)
    | none ↦ ask_supported driver h
  ]

  -- Supported
  unfoldable pub supported : Context → Exec (Host S) Fault ℕ
  unfolding run_executor supported_by get_service_info to_lower
  supported ctx = do
    not_controller c p (codes "Supported")
    service ← must_service ctx.service
    si ← get_service_info service
    supported_by (to_lower si.driver_name)

  -- An error of Supported is dropped, and leaves no bit; a panic is none.
  abbrev bits : Result Fault ℕ → Exec (Host S) Fault ℕ
  bits (ok v) = pure v
  bits (err (failed panicked)) = raise (failed panicked)
  bits (err (failed endless)) = raise (failed endless)
  bits (err e) = pure 0

  abbrev need : Bool → Exec (Host S) Fault (Unit {0})
  need true = pure tt
  need false = raise executor_not_supported

  unfoldable pub permitted : ℕ → Context → Result Fault ℕ → Exec (Host S) Fault (Text × ServiceInfo)
  unfolding get_service_info bit_set
  permitted bit ctx answer = do
    v ← bits answer
    need (bit_set v bit)
    service ← must_service ctx.service
    si ← get_service_info service
    pure (service, si)

  -- What each operation does before it runs the executor.
  unfoldable pub ready : Text → ℕ → Context → Exec (Host S) Fault (Text × ServiceInfo)
  unfolding supported permitted
  ready op bit ctx = do
    not_controller c p op
    (λ h. permitted bit ctx (supported ctx h).0 (supported ctx h).1)

  unfoldable pub next_device : Context → Exec (Host S) Fault Text
  unfolding ready run_executor
  next_device ctx = do
    found ← ready (codes "NextDevice") lsx_sop_next_device ctx
    out ← run_executor c p (found.1.driver_name ∷ codes "nextDevice" ∷ [])
    pure (p.trim out)

  unfoldable pub local_devices : Context → DeviceScanType → Exec (Host S) Fault LocalDevices
  unfolding ready run_executor unmarshal_local_devices
  local_devices ctx scan = do
    found ← ready (codes "LocalDevices") lsx_sop_local_devices ctx
    out ← run_executor c p (found.1.driver_name ∷ codes "localDevices" ∷ scan_text scan ∷ [])
    returned (unmarshal_local_devices out)

  unfoldable pub wait_for_device :
      Context → DeviceScanType → Text → Text → Exec (Host S) Fault (Bool × Option LocalDevices)
  unfolding ready run_executor unmarshal_local_devices
  wait_for_device ctx scan token timeout = do
    found ← ready (codes "WaitForDevice") lsx_sop_wait_for_device ctx
    (λ h. (
      after_wait (run_executor c p (wait_args found.1 scan token timeout) h).0,
      (run_executor c p (wait_args found.1 scan token timeout) h).1,
    ))

  abbrev flag : Text → Text → List Text
  flag name [] = []
  flag name (b ∷ value) = name ∷ (b ∷ value) ∷ []

  unfoldable pub mount : Context → Text → Text → Text → Text → Exec (Host S) Fault (Unit {0})
  unfolding ready run_executor
  mount ctx device_name mount_point mount_label mount_options = do
    found ← ready (codes "Mount") lsx_sop_mount ctx
    run_executor c p (
        found.1.driver_name
          ∷ codes "mount"
          ∷ device_name
          ∷ mount_point
          ∷ flag (codes "-l") mount_label
        ++ flag (codes "-o") mount_options)
    pure tt

  unfoldable pub unmount : Context → Text → Exec (Host S) Fault (Unit {0})
  unfolding ready run_executor
  unmount ctx mount_point = do
    found ← ready (codes "Unmount") lsx_sop_umount ctx
    run_executor c p (found.1.driver_name ∷ codes "umount" ∷ mount_point ∷ [])
    pure tt
