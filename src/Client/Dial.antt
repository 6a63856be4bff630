-- ===== src/Client/Dial.antt =====
-- The start of the client's driver: dial and updateExecutor of drivers/storage/libstorage/libstorage_client.go.
-- The reads and writes of the executor's file are each one step.
use libstorage.Base.{
  [], ◌∷◌, Bool, Option, none, some, Text, codes, Result, ok, err, Exec, pure, raise, ◌>>=◌, ◌>>◌,
  if◌then◌else◌, ◌==◌, nat_eq, text_eq, to_lower,
}
use libstorage.Base.Dict.{Dict, get}
use libstorage.Types.Errors.{Error, goof, wrap}
use libstorage.Types.Models.{InstanceId}
use libstorage.Types.InstanceIds.{Base64}
use libstorage.Client.{
  Fault, not_implemented, failed, error_of, integration_client, controller_client, ServiceInfo,
  ExecutorInfo, Context, Host, Platform, Settings, on_world, not_controller, lsx_mutex_wait,
  signalled,
}
use libstorage.Client.Api.{Api}
use libstorage.Client.Xcli.{supported}
use libstorage.Client.Contexts.{instance_id}
use libstorage.Client.Calls.{services, executors}

-- The executor's file, and the digest of a content.
pub record ExecutorFile (S : Type 0) : Type 0 where
  pub name : Text
  pub exists : S → Bool
  pub read : Exec S Error Text
  pub truncate : Exec S Error (Unit {0})
  pub write : Text → Exec S Error (Unit {0})
  pub md5 : Text → Text

abbrev explained : {S A : Type 0} → Text → Result Fault A × S → Result Fault A × S
explained t (ok a, s) = (ok a, s)
explained t (err f, s) = (err (failed (wrap t (error_of f))), s)

module _ {S : Type 0} (c : Settings) (p : Platform S) (api : Api S) (f : ExecutorFile S) where
  unfoldable pub get_executor_checksum : Exec (Host S) Fault Text
  get_executor_checksum = do
    not_controller c p (codes "getExecutorChecksum")
    content ← on_world f.read
    pure (f.md5 content)

  unfoldable pub download_executor : Context → Exec (Host S) Fault (Unit {0})
  download_executor ctx = do
    not_controller c p (codes "downloadExecutor")
    on_world f.truncate
    content ← on_world (api.executor_get ctx f.name)
    on_world (f.write content)

  abbrev compared : Context → ExecutorInfo → Text → Exec (Host S) Fault (Unit {0})
  unfolding download_executor
  compared ctx lsxi checksum =
      if lsxi.md5_checksum == checksum then pure tt else download_executor ctx

  abbrev brought_up_to_date : Context → ExecutorInfo → Exec (Host S) Fault (Unit {0})
  unfolding download_executor get_executor_checksum
  brought_up_to_date ctx lsxi h =
      (if f.exists h.world
          then (do checksum ← get_executor_checksum; compared ctx lsxi checksum)
          else download_executor ctx)
        h

  abbrev update_known : Context → Option ExecutorInfo → Exec (Host S) Fault (Unit {0})
  unfolding download_executor get_executor_checksum lsx_mutex_wait
  update_known ctx none = raise (failed (goof (codes "unknown executor")))
  update_known ctx (some lsxi) = do lsx_mutex_wait c p; signalled c p (brought_up_to_date ctx lsxi)

  unfoldable pub update_executor : Context → Exec (Host S) Fault (Unit {0})
  unfolding download_executor get_executor_checksum lsx_mutex_wait get to_lower
  update_executor ctx = do
    not_controller c p (codes "updateExecutor")
    (λ h. update_known ctx (get h.lsx_cache (to_lower f.name)) h)

  abbrev initialized : Result Fault InstanceId → Exec (Host S) Fault (Unit {0})
  initialized (ok iid) = pure tt
  initialized (err not_implemented) = pure tt
  initialized (err e) =
      raise (failed (wrap (codes "error initializing instance ID cache") (error_of e)))

  -- One round of the loop over the services.
  unfoldable pub dial_service : Base64 → Context → Text → Exec (Host S) Fault (Unit {0})
  unfolding supported instance_id
  dial_service b64 ctx service = do
    let ctx' = record ctx { service = some service }
    v ← (λ h. explained (codes "error initializing supported cache") (supported c p ctx' h))
    if v == 0 then pure tt else (λ h.
        initialized (instance_id c p api b64 ctx' h).0 (instance_id c p api b64 ctx' h).1)

  unfoldable pub dial_services :
      Base64 → Context → Dict Text ServiceInfo → Exec (Host S) Fault (Unit {0})
  unfolding dial_service
  dial_services b64 ctx [] = pure tt
  dial_services b64 ctx ((service, si) ∷ infos) = do
    dial_service b64 ctx service
    dial_services b64 ctx infos

  abbrev prepared : Context → Exec (Host S) Fault (Unit {0})
  unfolding executors update_executor
  prepared ctx = if c.no_download then pure tt else (do executors c p api ctx; update_executor ctx)

  -- `own` is the context of the driver itself.
  unfoldable pub dial : Base64 → Context → Context → Exec (Host S) Fault (Unit {0})
  unfolding services executors update_executor dial_services
  dial b64 own ctx = do
    infos ← services c p api ctx
    elim c.client_type [
      | controller_client ↦ pure tt
      | integration_client ↦ do prepared ctx; dial_services b64 own infos
    ]
