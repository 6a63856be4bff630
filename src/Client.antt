-- ===== src/Client.antt =====
-- The client's storage driver of drivers/storage/libstorage: the caches of libstorage_client.go and
-- libstorage_store.go, and the run of an executor under its lock, of libstorage_client_xcli.go. The
-- caches are stores without a time to live, that is dictionaries from names in lower case. Joining the
-- driver's own context and requiring a transaction changes nothing that is modelled. Logging is left out.
pub mod Xcli
pub mod Api
pub mod Contexts
pub mod Calls
pub mod Driver
pub mod Dial
pub mod Headers
pub mod Matched
pub mod Locked
pub mod Cached
mod Tests
use libstorage.Base.{
  ℕ, zero, suc, ◌+◌, List, [], ◌∷◌, Bool, true, false, not, Option, none, some, Text, codes, Result,
  ok, err, Exec, pure, raise, continue, ◌>>=◌, ◌>>◌, if◌then◌else◌, ◌==◌, nat_eq, text_eq, to_lower,
}
use libstorage.Base.Dict.{Dict, get, put}
use libstorage.Types.Errors.{Error, goof, wrap, panicked, endless}
use libstorage.Types.Models.{InstanceId}
use libstorage.Types.LocalDevices.{LocalDevices}

-- The errors that the driver makes itself are told apart by their pointers.
pub data Fault : Type 0 where
  not_implemented timed_out executor_not_supported : Fault
  unsupported_for_client_type : Text → Fault
  failed : Error → Fault

abbrev pub error_of : Fault → Error
error_of not_implemented = goof (codes "not implemented")
error_of timed_out = goof (codes "timed out")
error_of executor_not_supported = goof (codes "executor not supported")
error_of (unsupported_for_client_type op) = goof (codes "unsupported op for client type")
error_of (failed e) = e

pub data ClientType : Type 0 where
  integration_client controller_client : ClientType

pub record NextDeviceInfo : Type 0 where
  pub ignore : Bool
  pub prefix : Text
  pub pattern : Text

pub record ServiceInfo : Type 0 where
  pub name : Text
  pub driver_name : Text
  pub driver_type : Text
  pub next_device : Option NextDeviceInfo

pub record ExecutorInfo : Type 0 where
  pub name : Text
  pub md5_checksum : Text

-- What the driver reads from a context, and puts into it.
pub record Context : Type 0 where
  pub service : Option Text
  pub instance_id : Option InstanceId
  pub instance_ids : Option (Dict Text InstanceId)
  pub local_devices : Option (Dict Text LocalDevices)

-- The driver's caches, and the world beside it.
pub record Host (S : Type 0) : Type 0 where
  pub lsx_cache : Dict Text ExecutorInfo
  pub service_cache : Dict Text ServiceInfo
  pub supported_cache : Dict Text ℕ
  pub instance_id_cache : Dict Text InstanceId
  pub world : S

-- How a run of the executor ends: with its output, with an exit code that is not 0, or not at all.
pub data Outcome : Type 0 where
  printed : Text → Outcome
  exited : ℕ → Outcome
  not_run : Error → Outcome

-- The operating system under the driver. `open_lock` creates the lock file, and fails if it is there.
pub record Platform (S : Type 0) : Type 0 where
  pub open_lock : S → Bool × S
  pub close_lock : Exec S Error (Unit {0})
  pub remove_lock : Exec S Error (Unit {0})
  pub sleep : S → S
  pub output : List Text → S → Outcome × S
  pub trim : Text → Text

-- `rounds` bounds the loop that waits for the lock.
pub record Settings : Type 0 where
  pub client_type : ClientType
  pub no_download : Bool
  pub rounds : ℕ

abbrev pub run_of : {S A : Type 0} → Host S → Result Error A × S → Result Fault A × Host S
run_of h (ok a, s) = (ok a, record h { world = s })
run_of h (err e, s) = (err (failed e), record h { world = s })

-- What acts on the world leaves the caches alone.
abbrev pub on_world : {S A : Type 0} → Exec S Error A → Exec (Host S) Fault A
on_world m h = run_of h (m h.world)

abbrev pub missing_service_name : Fault
missing_service_name = failed (goof (codes "missing service name"))

abbrev pub unknown_service : Fault
unknown_service = failed (goof (codes "unknown service"))

abbrev pub must_service : {S : Type 0} → Option Text → Exec (Host S) Fault Text
must_service none = raise missing_service_name
must_service (some service) = pure service

abbrev known : {S : Type 0} → Option ServiceInfo → Exec (Host S) Fault ServiceInfo
known none = raise unknown_service
known (some si) = pure si

-- getServiceInfo
unfoldable pub get_service_info : {S : Type 0} → Text → Exec (Host S) Fault ServiceInfo
unfolding get to_lower
get_service_info service h = known (get h.service_cache (to_lower service)) h

abbrev pub lsx_exit_code_not_implemented : ℕ
lsx_exit_code_not_implemented = 2

abbrev pub lsx_exit_code_timed_out : ℕ
lsx_exit_code_timed_out = 255

abbrev pub executed : Outcome → Result Fault Text
executed (printed out) = ok out
executed (exited code) =
    if code == lsx_exit_code_not_implemented
    then err not_implemented
    else if code == lsx_exit_code_timed_out
    then err timed_out
    else err (failed (goof (codes "error executing xcli")))
executed (not_run e) = err (failed e)

module _ {S : Type 0} (c : Settings) (p : Platform S) where
  abbrev pub not_controller : Text → Exec (Host S) Fault (Unit {0})
  not_controller op = elim c.client_type [
    | integration_client ↦ pure tt
    | controller_client ↦ raise (unsupported_for_client_type op)
  ]

  abbrev opened : Bool × S → (S → Result Error (Unit {0}) × S) → Result Error (Unit {0}) × S
  opened (true, s) again = p.close_lock s
  opened (false, s) again = again (p.sleep s)

  -- The loop of lsxMutexWait.
  unfoldable pub wait_lock : ℕ → Exec S Error (Unit {0})
  wait_lock zero s = (err endless, s)
  wait_lock (suc n) s = opened (p.open_lock s) (wait_lock n)

  unfoldable pub lsx_mutex_wait : Exec (Host S) Fault (Unit {0})
  unfolding wait_lock
  lsx_mutex_wait = do not_controller (codes "lsxMutexWait"); on_world (wait_lock c.rounds)

  unfoldable pub lsx_mutex_signal : Exec (Host S) Fault (Unit {0})
  lsx_mutex_signal = do not_controller (codes "lsxMutexSignal"); on_world p.remove_lock

  -- The deferred signal, which panics if it fails.
  abbrev pub after_signal :
      {A : Type 0} → Result Fault A → Result Fault (Unit {0}) × Host S → Result Fault A × Host S
  after_signal r (ok u, h) = (r, h)
  after_signal r (err e, h) = (err (failed panicked), h)

  abbrev pub signalled : {A : Type 0} → Exec (Host S) Fault A → Exec (Host S) Fault A
  unfolding lsx_mutex_signal
  signalled m h = after_signal (m h).0 (lsx_mutex_signal (m h).1)

  abbrev pub execute : List Text → Exec (Host S) Fault Text
  execute args h =
      (executed (p.output args h.world).0, record h { world = (p.output args h.world).1 })

  unfoldable pub run_executor : List Text → Exec (Host S) Fault Text
  unfolding lsx_mutex_wait lsx_mutex_signal
  run_executor args = do
    not_controller (codes "runExecutor")
    lsx_mutex_wait
    signalled (execute args)
