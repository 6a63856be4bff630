-- ===== src/Router/Filtered.antt =====
-- volumesForService of api/server/router/volume/volume_routes.go, with the filter of the request.
use libstorage.Base.{
  Option, none, some, Text, codes, Result, ok, err, Exec, raise, if◌then◌else◌, nat_eq, text_eq,
}
use libstorage.Types.Models.{VolumeMap}
use libstorage.Types.Values.{Value}
use libstorage.Types.Errors.{Error, goof, bad_filter, panicked}
use libstorage.Store.{is_set, set_value}
use libstorage.Store.Typed.{get_string, get_attachments}
use libstorage.Filter.{Filter, Failure, error, panic, out_of_fuel, compile}
use libstorage.Router.{
  VolumesOpts, StorageService, OnVolume, Request, Waited, Response, respond, status_ok,
}
use libstorage.Router.VolumeRoutes.{get_filtered_volumes}

abbrev failure_error : Failure → Error
failure_error (error t) = goof t
failure_error panic = panicked
failure_error out_of_fuel = panicked

abbrev filter_error : Text → Failure → Error
filter_error t (error m) = bad_filter t (goof m)
filter_error t panic = panicked
filter_error t out_of_fuel = panicked

abbrev compiled : Text → Result Failure Filter → Result Error (Option Filter)
compiled t (ok f) = ok (some f)
compiled t (err e) = err (filter_error t e)

unfoldable pub parse_filter : Request → Result Error (Option Filter)
parse_filter rq =
    if (is_set (codes "filter") rq.now rq.store).0
    then (let fsz = get_string (codes "filter") rq.now rq.store in compiled fsz (compile fsz))
    else ok none

-- `store.Set("filter", filter)`; `boxed` is the filter as a value of dynamic type.
abbrev pub with_filter : (Filter → Value) → Request → Option Filter → Request
with_filter boxed rq none = rq
with_filter boxed rq (some f) = record rq {
  store = set_value (codes "filter") (boxed f) rq.now rq.store;
}

abbrev listing_opts : Request → VolumesOpts
listing_opts rq = record { attachments = get_attachments rq.now rq.store; opts = rq.store }

abbrev pub listing :
    {S : Type 0} → OnVolume S → StorageService S → Request → Option Filter → Exec S Error VolumeMap
listing hook svc rq flt = get_filtered_volumes hook svc (listing_opts rq) flt

abbrev list_filtered :
    {S : Type 0}
    → OnVolume S
    → StorageService S
    → (Filter → Value)
    → Request
    → Waited
    → Result Error (Option Filter)
    → Exec S Error (Response VolumeMap)
list_filtered hook svc boxed rq w (err e) = raise e
list_filtered hook svc boxed rq w (ok flt) =
    let rq' = with_filter boxed rq flt in
    respond rq' (λ schemas. schemas.volume_map) w status_ok (listing hook svc rq' flt)

unfoldable pub volumes_for_service :
    {S : Type 0}
    → OnVolume S
    → StorageService S
    → (Filter → Value)
    → Request
    → Waited
    → Exec S Error (Response VolumeMap)
unfolding respond get_filtered_volumes parse_filter
volumes_for_service hook svc boxed rq w = list_filtered hook svc boxed rq w (parse_filter rq)
