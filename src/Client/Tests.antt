-- ===== src/Client/Tests.antt =====
-- The client's driver at concrete inputs: an executor that supports all but mounts, knows the instance,
-- and times out in its wait for a device. The world counts the runs.
use libstorage.Base.{
  ℕ, suc, List, [], ◌∷◌, Bool, true, false, Option, none, some, Text, codes, ok, err, Exec, pure,
  raise, ◌≡◌, refl, arith, if◌then◌else◌, ◌==◌, text_eq, text_beq,
}
use libstorage.Types.Errors.{Error, goof}
use libstorage.Types.Models.{InstanceId}
use libstorage.Types.InstanceIds.{Base64}
use libstorage.Types.LocalDevices.{LocalDevices, invalid_local_devices}
use libstorage.Client.{
  failed, integration_client, ServiceInfo, Context, Host, Outcome, printed, exited, Platform,
  Settings, executed, run_executor,
}
use libstorage.Client.Api.{Api}
use libstorage.Client.Xcli.{wait_for_device, device_scan_quick}
use libstorage.Client.Contexts.{instance_id}
use libstorage.Client.Locked.{run_executor_unlocks, told}
use libstorage.Client.Matched.{wait_for_device_never_matches}
use libstorage.Client.Cached.InstanceIds.{instance_id_asked_once}

abbrev answer : List Text → Outcome
answer (driver ∷ command ∷ args) =
    if command == codes "supported"
    then printed (codes " 15 ")
    else if command == codes "instanceID"
    then printed (codes "ebs=i-1")
    else exited 255
answer args = exited 1

abbrev platform : Platform ℕ
platform = record {
  open_lock = λ s. (true, s);
  close_lock = pure tt;
  remove_lock = pure tt;
  sleep = λ s. s;
  output = λ args s. (answer args, suc s);
  trim = λ s. s;
}

abbrev settings : Settings
settings = record { client_type = integration_client; no_download = true; rounds = 1 }

abbrev unavailable : {A : Type 0} → Exec ℕ Error A
unavailable = raise (goof (codes "unavailable"))

abbrev api : Api ℕ
api = record {
  root = λ x. unavailable;
  instances = λ x. unavailable;
  instance_inspect = λ x s. unavailable;
  services = λ x. unavailable;
  service_inspect = λ x s. unavailable;
  volumes = λ x a. unavailable;
  volumes_by_service = λ x s a. unavailable;
  volume_inspect = λ x s v a. unavailable;
  volume_create = λ x s r. unavailable;
  volume_create_from_snapshot = λ x s i r. unavailable;
  volume_copy = λ x s v r. unavailable;
  volume_remove = λ x s v f. unavailable;
  volume_attach = λ x s v r. unavailable;
  volume_detach = λ x s v r. unavailable;
  volume_detach_all = λ x r. unavailable;
  volume_detach_all_for_service = λ x s r. unavailable;
  volume_snapshot = λ x s v r. unavailable;
  snapshots = λ x. unavailable;
  snapshots_by_service = λ x s. unavailable;
  snapshot_inspect = λ x s i. unavailable;
  snapshot_remove = λ x s i. unavailable;
  snapshot_copy = λ x s i r. unavailable;
  executors = λ x. unavailable;
  executor_head = λ x n. unavailable;
  executor_get = λ x n. unavailable;
}

abbrev b64 : Base64
b64 = record { encode = λ m. m; read = λ t. some t }

abbrev ebs_service : ServiceInfo
ebs_service = record {
  name = codes "Ebs-1";
  driver_name = codes "EBS";
  driver_type = codes "block";
  next_device = none;
}

abbrev ctx : Context
ctx = record {
  service = some (codes "Ebs-1");
  instance_id = none;
  instance_ids = none;
  local_devices = none;
}

abbrev host : Host ℕ
host = record {
  lsx_cache = [];
  service_cache = (codes "ebs-1", ebs_service) ∷ [];
  supported_cache = [];
  instance_id_cache = [];
  world = 0;
}

abbrev iid : InstanceId
iid = record { id = codes "i-1"; driver = codes "ebs"; service = []; fields = []; metadata = [] }

-- Two runs: one for what is supported, one for the instance ID.
abbrev asked : Host ℕ
asked = record host {
  supported_cache = (codes "ebs", 15) ∷ [];
  instance_id_cache = (codes "ebs-1", iid) ∷ [];
  world = 2;
}

instance_id_first : instance_id settings platform api b64 ctx host ≡ (ok iid, asked)
unfolding instance_id text_beq
instance_id_first = refl

instance_id_asked_once_example : instance_id settings platform api b64 ctx asked ≡ (ok iid, asked)
instance_id_asked_once_example =
    instance_id_asked_once settings platform api b64 ctx host asked iid refl instance_id_first

wait_times_out : platform.output (codes "ebs" ∷ codes "wait" ∷ []) 0 ≡ (exited 255, 1)
unfolding text_beq
wait_times_out = refl

run_executor_unlocks_example :
    run_executor settings platform (codes "ebs" ∷ codes "wait" ∷ []) host
    ≡ (told (ok tt) (executed (exited 255)), record host { world = 1 })
run_executor_unlocks_example =
    run_executor_unlocks settings platform (codes "ebs" ∷ codes "wait" ∷ []) 0 host 0 0 1 1
      (exited 255) (ok tt) refl refl (omega arith) refl wait_times_out refl

-- A time-out is told as a text that cannot be read.
waited_out :
    (wait_for_device settings platform ctx device_scan_quick
      (codes "/dev/xvdf")
      (codes "1m")
      asked).0
    ≡ err (failed invalid_local_devices)
unfolding wait_for_device text_beq
waited_out = refl

-- The executor finds the device.
abbrev present : Platform ℕ
present = record platform { output = λ args s. (printed (codes "ebs=vol-1::/dev/xvdf"), suc s) }

found_it :
    (wait_for_device settings present ctx device_scan_quick
      (codes "/dev/xvdf")
      (codes "1m")
      asked).0
    ≡ ok (false, none)
unfolding wait_for_device text_beq
found_it = refl

wait_for_device_never_matches_example :
    (◌≡◌ {A = Bool} false false) × (◌≡◌ {A = Option LocalDevices} none none)
wait_for_device_never_matches_example =
    wait_for_device_never_matches settings present ctx device_scan_quick (codes "/dev/xvdf")
      (codes "1m") asked false none found_it
