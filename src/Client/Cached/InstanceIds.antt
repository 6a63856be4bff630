-- ===== src/Client/Cached/InstanceIds.antt =====
-- The cache of the instance IDs, of drivers/storage/libstorage/libstorage_client_xcli.go.
use libstorage.Base.{
  [], ◌∷◌, Option, none, some, Text, codes, Result, ok, err, ◌≡◌, refl, sym, ap, ◌∙◌, text_eq,
  to_lower, continue,
}
use libstorage.Base.Dict.{get, get-put}
use libstorage.Types.Models.{InstanceId}
use libstorage.Types.InstanceIds
use libstorage.Types.InstanceIds.{Base64}
use libstorage.Client.{
  Fault, integration_client, Host, Platform, Settings, Context, run_executor, ServiceInfo,
  not_controller,
}
use libstorage.Client.Api.{Api}
use libstorage.Client.Xcli.{ready, lsx_sop_instance_id, returned}
use libstorage.Client.Contexts.{
  instance_inspect, completed, identified, cache_instance_id, ask_instance_id, cached_or_asked,
  instance_id, or_failed, with_instance_id,
}
use libstorage.Client.Cached.{
  KeepsCaches, run_of-KeepsCaches, continue-KeepsCaches, run_executor-KeepsCaches, IsReady,
  ready-IsReady, IsReady-ready,
}

module _ {S : Type 0} (c : Settings) (p : Platform S) (api : Api S) where
  -- An instance ID that is given is in the cache, and the other caches are kept.
  abbrev Stored : Text → Host S → Result Fault InstanceId × Host S → Type 0
  Stored service h r =
      (iid : InstanceId) (h' : Host S)
      → r ≡ (ok iid, h')
      → (h'.service_cache ≡ h.service_cache)
        × (h'.supported_cache ≡ h.supported_cache)
        × (get h'.instance_id_cache (to_lower service) ≡ some iid)

  continue-Stored :
      {A : Type 0} (service : Text) (h : Host S) (q : Result Fault A × Host S)
      (f : A → Host S → Result Fault InstanceId × Host S)
      → KeepsCaches h q
      → ((a : A) (h' : Host S) → Stored service h' (f a h'))
      → Stored service h (continue q.0 f q.1)
  continue-Stored service h (err e, h1) f k kf iid h' eq = cc
  continue-Stored service h (ok a, h1) f k kf iid h' eq =
      let (services, supported, stored) = kf a h1 iid h' eq in
      (services ∙ ap (λ x. x.service_cache) k, supported ∙ ap (λ x. x.supported_cache) k, stored)

  identified-KeepsCaches :
      (service driver : Text) (iid : InstanceId) (found : Option InstanceId) (h : Host S)
      → KeepsCaches h (identified c p api service driver iid found h)
  identified-KeepsCaches service driver iid none h = refl
  identified-KeepsCaches service driver iid (some x) h = refl

  instance_inspect-KeepsCaches :
      (ctx : Context) (service : Text) (h : Host S)
      → c.client_type ≡ integration_client
      → KeepsCaches h (instance_inspect c p api ctx service h)
  unfolding instance_inspect
  instance_inspect-KeepsCaches ctx service h i =
      continue-KeepsCaches h (not_controller c p (codes "InstanceInspect") h) _ (rw i refl) (λ u h'.
        run_of-KeepsCaches h'
          (api.instance_inspect (with_instance_id c p ctx service h') service h'.world))

  completed-KeepsCaches :
      (ctx : Context) (service driver : Text) (iid : InstanceId) (metadata : Text) (h : Host S)
      → c.client_type ≡ integration_client
      → KeepsCaches h (completed c p api ctx service driver iid metadata h)
  completed-KeepsCaches ctx service driver iid [] h i = refl
  completed-KeepsCaches ctx service driver iid (b ∷ m) h i =
      continue-KeepsCaches h
        (instance_inspect c p api (record ctx { instance_id = some iid }) service h) _
        (instance_inspect-KeepsCaches (record ctx { instance_id = some iid }) service h i)
        (λ x h'. identified-KeepsCaches service driver iid x.instance_id h')

  cache_instance_id-Stored :
      (service : Text) (iid : InstanceId) (h : Host S)
      → Stored service h (cache_instance_id c p api service iid h)
  cache_instance_id-Stored service iid h iid' h' e =
      let k = to_lower service in
      let same : some iid ≡ some iid' = cc e in
      (
        ap (λ r. r.1.service_cache) (sym e),
        ap (λ r. r.1.supported_cache) (sym e),
        ap (λ r. get r.1.instance_id_cache k) (sym e)
            ∙ get-put h.instance_id_cache k k iid
            ∙ rw ((text_eq.exact k k).1 refl) same,
      )

  ask_instance_id-Stored :
      (b64 : Base64) (ctx : Context) (service driver : Text) (h : Host S)
      → c.client_type ≡ integration_client
      → Stored service h (ask_instance_id c p api b64 ctx service driver h)
  ask_instance_id-Stored b64 ctx service driver h i =
      continue-Stored service h (run_executor c p (driver ∷ codes "instanceID" ∷ []) h) _
        (run_executor-KeepsCaches c p (driver ∷ codes "instanceID" ∷ []) h i)
        (λ out h1.
          continue-Stored service h1 (returned (or_failed (InstanceIds.unmarshal_text b64 out)) h1)
            _ refl
            (λ read h2.
              continue-Stored service h2
                (completed c p api ctx service driver (record read { service = [] }) read.metadata
                  h2)
                _
                (completed-KeepsCaches ctx service driver (record read { service = [] })
                  read.metadata h2 i)
                (λ iid h3. cache_instance_id-Stored service iid h3)))

  cached_or_asked-Stored :
      (b64 : Base64) (ctx : Context) (service driver : Text) (o : Option InstanceId) (h : Host S)
      → c.client_type ≡ integration_client
      → get h.instance_id_cache (to_lower service) ≡ o
      → Stored service h (cached_or_asked c p api b64 ctx service driver o h)
  cached_or_asked-Stored b64 ctx service driver none h i there iid h' e =
      ask_instance_id-Stored b64 ctx service driver h i iid h' e
  cached_or_asked-Stored b64 ctx service driver (some x) h i there iid h' e =
      let same : some x ≡ some iid = cc e in
      (
        ap (λ r. r.1.service_cache) (sym e),
        ap (λ r. r.1.supported_cache) (sym e),
        ap (λ r. get r.1.instance_id_cache (to_lower service)) (sym e) ∙ there ∙ same,
      )

  -- InstanceID behind the checks.
  identify : Base64 → Context → Text × ServiceInfo → Host S → Result Fault InstanceId × Host S
  identify b64 ctx found h =
      cached_or_asked c p api b64 ctx found.0 (to_lower found.1.driver_name)
        (get h.instance_id_cache (to_lower found.0)) h

  instance_id_lem :
      (b64 : Base64) (ctx : Context) (h : Host S) (q : Result Fault (Text × ServiceInfo) × Host S)
      → ready c p (codes "InstanceID") lsx_sop_instance_id ctx h ≡ q
      → instance_id c p api b64 ctx h ≡ continue q.0 (identify b64 ctx) q.1
  unfolding instance_id identify
  instance_id_lem b64 ctx h q e = ap (λ r. continue r.0 (identify b64 ctx) r.1) e

  -- A client that is no controller, and that has an answer of InstanceID: asked again for the service, it gives the same
  -- answer and changes nothing. Neither the executor nor the server is asked, nor is the lock taken.
  pub instance_id_asked_once :
      (b64 : Base64) (ctx : Context) (h h' : Host S) (iid : InstanceId)
      → c.client_type ≡ integration_client
      → instance_id c p api b64 ctx h ≡ (ok iid, h')
      → instance_id c p api b64 ctx h' ≡ (ok iid, h')
  instance_id_asked_once b64 ctx h h' iid i e = again (ready c p (codes "InstanceID") 1 ctx h) refl
    where
      again :
          (q : Result Fault (Text × ServiceInfo) × Host S)
          → ready c p (codes "InstanceID") lsx_sop_instance_id ctx h ≡ q
          → instance_id c p api b64 ctx h' ≡ (ok iid, h')
      again (err x, h1) checked = cc (instance_id_lem b64 ctx h (err x, h1) checked)
      again (ok (service, si), h1) checked =
          let first = ready-IsReady c p ctx service si h h1 i checked in
          let given : identify b64 ctx (service, si) h1 ≡ (ok iid, h') =
            sym (instance_id_lem b64 ctx h (ok (service, si), h1) checked) ∙ e in
          let (services, supported, stored) =
            cached_or_asked-Stored b64 ctx service (to_lower si.driver_name)
              (get h1.instance_id_cache (to_lower service)) h1 i refl iid h'
              (unfold identify in given) in
          let second : IsReady c p ctx service si h' = record {
            named = first.named;
            known = ap (λ m. get m (to_lower service)) services ∙ first.known;
            v = first.v;
            cached = ap (λ m. get m (to_lower si.driver_name)) supported ∙ first.cached;
            enough = first.enough;
          } in
          instance_id_lem b64 ctx h' (ok (service, si), h')
            (IsReady-ready c p ctx service si h' i second)
          ∙ unfold identify in (rw stored)
