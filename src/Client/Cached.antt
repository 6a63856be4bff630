-- ===== src/Client/Cached.antt =====
-- The caches of drivers/storage/libstorage: the executor is asked for an instance ID once.
pub mod InstanceIds
use libstorage.Base.{
  ℕ, zero, suc, ◌<◌, List, [], ◌∷◌, Bool, true, false, Option, none, some, Text, codes, Result, ok,
  err, ◌≡◌, ◌≢◌, refl, sym, ap, ◌∙◌, ◌⊎◌, inl, inr, arith, Option-cases, Bool-cases, text_eq,
  to_lower, continue,
}
use libstorage.Base.Dict.{Dict, get, put, get-put}
use libstorage.Base.Int.{ℤ, parse_int}
use libstorage.Types.Values.{to_word}
use libstorage.Types.Attachments.{bit_set}
use libstorage.Types.Errors.{Error, panicked}
use libstorage.Types.Models.{InstanceId}
use libstorage.Types.InstanceIds.{Base64}
use libstorage.Client.{
  Fault, not_implemented, timed_out, executor_not_supported, unsupported_for_client_type, failed,
  integration_client, controller_client, Host, Platform, Settings, Context, executed, run_executor,
  lsx_mutex_wait, lsx_mutex_signal, get_service_info, ServiceInfo, run_of, after_signal,
  unknown_service, wait_lock,
}
use libstorage.Client.Api.{Api, Instance}
use libstorage.Client.Xcli.{
  cache_supported, parsed_supported, asked_supported, ask_supported, supported_by, supported, ready,
  permitted, permitted, lsx_sop_instance_id, trim_space,
}

-- What acts on the world alone leaves the caches.
abbrev pub KeepsCaches : {S A : Type 0} → Host S → Result Fault A × Host S → Type 0
KeepsCaches h r = r.1 ≡ record h { world = r.1.world }

module _ {S : Type 0} where
  pub run_of-KeepsCaches :
      {A : Type 0} (h : Host S) (r : Result Error A × S) → KeepsCaches h (run_of h r)
  run_of-KeepsCaches h (ok a, s) = refl
  run_of-KeepsCaches h (err e, s) = refl

  pub continue-KeepsCaches :
      {A B : Type 0} (h : Host S) (r : Result Fault A × Host S)
      (f : A → Host S → Result Fault B × Host S)
      → KeepsCaches h r
      → ((a : A) (h' : Host S) → KeepsCaches h' (f a h'))
      → KeepsCaches h (continue r.0 f r.1)
  continue-KeepsCaches h (err e, h') f k kf = k
  continue-KeepsCaches h (ok a, h') f k kf = rw k (kf a (record h { world = h'.world }))

  module _ (c : Settings) (p : Platform S) where
    after_signal-KeepsCaches :
        {A : Type 0} (r : Result Fault A) (h : Host S) (t : S) (q : Result Error (Unit {0}) × S)
        → KeepsCaches h (after_signal c p r (run_of (record h { world = t }) q))
    after_signal-KeepsCaches r h t (ok u, s) = refl
    after_signal-KeepsCaches r h t (err e, s) = refl

    pub run_executor-KeepsCaches :
        (args : List Text) (h : Host S)
        → c.client_type ≡ integration_client
        → KeepsCaches h (run_executor c p args h)
    unfolding run_executor lsx_mutex_wait lsx_mutex_signal
    run_executor-KeepsCaches args h i = rw i (
        continue-KeepsCaches h (run_of h (wait_lock c p c.rounds h.world)) _
          (run_of-KeepsCaches h (wait_lock c p c.rounds h.world))
          (λ a h'.
            after_signal-KeepsCaches (executed (p.output args h'.world).0) h'
              (p.output args h'.world).1 (p.remove_lock (p.output args h'.world).1)))

    -- What Supported gives for a driver, if it is not 0, is in the cache afterwards.
    abbrev IsCachedSupported : Text → ℕ → Host S → Host S → Type 0
    IsCachedSupported driver v h h' =
        (get h'.supported_cache driver ≡ some v) × (h'.service_cache ≡ h.service_cache)

    cache_supported_lem :
        (driver : Text) (w v : ℕ) (h h' : Host S)
        → cache_supported c p driver w h ≡ (ok v, h')
        → IsCachedSupported driver v h h'
    unfolding put
    cache_supported_lem driver w v h h' e =
        ground (arith, get-put h.supported_cache driver driver w, text_eq.exact driver driver)

    asked_supported-cached :
        (driver : Text) (r : Result Fault Text) (v : ℕ) (h h' : Host S)
        → 0 < v
        → asked_supported c p driver r h ≡ (ok v, h')
        → IsCachedSupported driver v h h'
    unfolding put to_word trim_space parse_int
    asked_supported-cached driver (err not_implemented) v h h' pos e =
        cache_supported_lem driver _ v h h' e
    asked_supported-cached driver (err timed_out) v h h' pos e = cc
    asked_supported-cached driver (err executor_not_supported) v h h' pos e = cc
    asked_supported-cached driver (err (unsupported_for_client_type op)) v h h' pos e = cc
    asked_supported-cached driver (err (failed x)) v h h' pos e = cc
    asked_supported-cached driver (ok []) v h h' pos e = ground arith
    asked_supported-cached driver (ok (b ∷ out)) v h h' pos e =
        parsed (parse_int (trim_space (b ∷ out))) e
      where
        parsed :
            (i : Option ℤ)
            → parsed_supported c p driver i h ≡ (ok v, h')
            → IsCachedSupported driver v h h'
        parsed none e = cc
        parsed (some i) e = cache_supported_lem driver (to_word i) v h h' e

    supported_by-cached :
        (driver : Text) (v : ℕ) (h h' : Host S)
        → c.client_type ≡ integration_client
        → 0 < v
        → supported_by c p driver h ≡ (ok v, h')
        → IsCachedSupported driver v h h'
    unfolding supported_by
    supported_by-cached driver v h h' i pos e = elim (Option-cases (get h.supported_cache driver)) [
      | inr (w, there) ↦ found w there
      | inl missing ↦ asked missing
    ]
      where
        found : (w : ℕ) → get h.supported_cache driver ≡ some w → IsCachedSupported driver v h h'
        found w there =
            let same : (ok w, h) ≡ (ok v, h') = rw (there, supported_by) at e in
            ground (arith, there, same)

        asked : get h.supported_cache driver ≡ none → IsCachedSupported driver v h h'
        asked missing =
            let r = run_executor c p (driver ∷ codes "supported" ∷ []) h in
            let same : asked_supported c p driver r.0 r.1 ≡ (ok v, h') =
              rw (missing, supported_by, ask_supported) at e in
            let k = asked_supported-cached driver r.0 v r.1 h' pos same in
            (
              k.0,
              k.1
                  ∙ ap (λ x. x.service_cache)
                      (run_executor-KeepsCaches (driver ∷ codes "supported" ∷ []) h i),
            )

    abbrev value : Result Fault ℕ → ℕ
    value (ok v) = v
    value (err e) = 0

    -- The service of the context is known, and its driver's executor can tell the instance ID.
    pub record IsReady (ctx : Context) (service : Text) (si : ServiceInfo) (h : Host S)
        : Type 0 where
      pub named : ctx.service ≡ some service
      pub known : get h.service_cache (to_lower service) ≡ some si
      pub v : ℕ
      pub cached : get h.supported_cache (to_lower si.driver_name) ≡ some v
      pub enough : bit_set v lsx_sop_instance_id ≡ true

    pub IsReady-ready :
        (ctx : Context) (service : Text) (si : ServiceInfo) (h : Host S)
        → c.client_type ≡ integration_client
        → IsReady ctx service si h
        → ready c p (codes "InstanceID") lsx_sop_instance_id ctx h ≡ (ok (service, si), h)
    unfolding ready supported get_service_info supported_by
    IsReady-ready ctx service si h i r = ground (arith, i, r.named, r.known, r.cached, r.enough)

    bits_positive : (v : ℕ) → bit_set v lsx_sop_instance_id ≡ true → 0 < v
    unfolding bit_set
    bits_positive zero e = cc
    bits_positive (suc v) e = omega arith

    -- The service is looked up again behind the question for its executor.
    permitted-ok :
        (ctx : Context) (service : Text) (si : ServiceInfo) (r : Result Fault ℕ) (h h' : Host S)
        → permitted c p lsx_sop_instance_id ctx r h ≡ (ok (service, si), h')
        → (r ≡ ok (value r))
          × (h ≡ h')
          × (bit_set (value r) lsx_sop_instance_id ≡ true)
          × (ctx.service ≡ some service)
          × (get h'.service_cache (to_lower service) ≡ some si)
    unfolding permitted
    permitted-ok ctx service si (ok v) h h' e = ground arith
    permitted-ok ctx service si (err not_implemented) h h' e = ground arith
    permitted-ok ctx service si (err timed_out) h h' e = ground arith
    permitted-ok ctx service si (err executor_not_supported) h h' e = ground arith
    permitted-ok ctx service si (err (unsupported_for_client_type op)) h h' e = ground arith
    permitted-ok ctx service si (err (failed x)) h h' e = ground arith

    supported_known :
        (ctx : Context) (service : Text) (si : ServiceInfo) (h : Host S)
        → c.client_type ≡ integration_client
        → ctx.service ≡ some service
        → get h.service_cache (to_lower service) ≡ some si
        → supported c p ctx h ≡ supported_by c p (to_lower si.driver_name) h
    unfolding supported get_service_info
    supported_known ctx service si h i named known = rw (i, named, known)

    supported_unknown :
        (ctx : Context) (service : Text) (h : Host S)
        → c.client_type ≡ integration_client
        → ctx.service ≡ some service
        → get h.service_cache (to_lower service) ≡ none
        → (supported c p ctx h).0 ≡ err unknown_service
    unfolding supported get_service_info
    supported_unknown ctx service h i named unknown = rw (i, named, unknown)

    ready_lem :
        (ctx : Context) (h : Host S)
        → c.client_type ≡ integration_client
        → ready c p (codes "InstanceID") lsx_sop_instance_id ctx h
          ≡ permitted c p lsx_sop_instance_id ctx (supported c p ctx h).0 (supported c p ctx h).1
    unfolding ready
    ready_lem ctx h i = rw i

    pub ready-IsReady :
        (ctx : Context) (service : Text) (si : ServiceInfo) (h h' : Host S)
        → c.client_type ≡ integration_client
        → ready c p (codes "InstanceID") lsx_sop_instance_id ctx h ≡ (ok (service, si), h')
        → IsReady ctx service si h'
    ready-IsReady ctx service si h h' i e =
        let (asked, same, enough, named, known) =
          permitted-ok ctx service si (supported c p ctx h).0 (supported c p ctx h).1 h'
            (rw (ready_lem ctx h i) at e) in
        elim (Option-cases (get h.service_cache (to_lower service))) [
          | inl none' ↦ cc (supported_unknown ctx service h i named none')
          | inr (first, there) ↦ ready_at first there asked same enough named known
        ]
      where
        ready_at :
            (first : ServiceInfo)
            → get h.service_cache (to_lower service) ≡ some first
            → (supported c p ctx h).0 ≡ ok (value (supported c p ctx h).0)
            → (supported c p ctx h).1 ≡ h'
            → bit_set (value (supported c p ctx h).0) lsx_sop_instance_id ≡ true
            → ctx.service ≡ some service
            → get h'.service_cache (to_lower service) ≡ some si
            → IsReady ctx service si h'
        ready_at first there asked same enough named known =
            let v = value (supported c p ctx h).0 in
            let known_first = supported_known ctx service first h i named there in
            let answered : supported_by c p (to_lower first.driver_name) h ≡ (ok v, h') =
              sym known_first ∙ (λ j. (asked j, same j)) in
            let kept =
              supported_by-cached (to_lower first.driver_name) v h h' i (bits_positive v enough)
                answered in
            let one : first ≡ si = cc (ap (λ m. get m (to_lower service)) kept.1) in
            record {
              named = named;
              known = known;
              v = v;
              cached = rw one at kept.0;
              enough = enough;
            }
