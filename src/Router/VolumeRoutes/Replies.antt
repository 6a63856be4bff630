-- ===== src/Router/VolumeRoutes/Replies.antt =====
-- What the tasks of api/server/router/volume/volume_routes.go answer with.
use libstorage.Base.{
  continue-keeps, ◌≡◌, ◌≢◌, refl, true, Option, none, some, Text, Result, ok, err, arith,
}
use libstorage.Types.Models.{Volume, volume_attached, volume_available}
use libstorage.Types.Errors.{Error, missing_instance_id}
use libstorage.Types.Attachments.{requires_instance_id}
use libstorage.Filter.{Filter}
use libstorage.Router.{
  StorageService, OnVolume, Request, Waited, VolumesOpts, default_state, check_volume,
}
use libstorage.Router.VolumeRoutes.{
  create_task, copy_task, attach_task, detach_task, volume_attach, volume_detach,
  get_filtered_volumes, volume_detach_all_for_service, detached,
}

-- An answer, if there is one, tells the attachment state of its volume.
abbrev pub TellsState : Result Error Volume → Type 0
TellsState (ok v) = v.attachment_state ≢ 0
TellsState (err e) = Unit

abbrev pub TokenTellsState : Result Error (Volume × Text) → Type 0
TokenTellsState (ok (v, t)) = v.attachment_state ≢ 0
TokenTellsState (err e) = Unit

abbrev pub OptionTellsState : Result Error (Option Volume) → Type 0
OptionTellsState (ok none) = Unit
OptionTellsState (ok (some v)) = v.attachment_state ≢ 0
OptionTellsState (err e) = Unit

default_available : (v : Volume) → (default_state volume_available v).attachment_state ≢ 0
unfolding default_state
default_available v = ground arith

default_attached : (v : Volume) → (default_state volume_attached v).attachment_state ≢ 0
unfolding default_state
default_attached v = ground arith

module _ {S : Type 0} (hook : OnVolume S) (svc : StorageService S) (rq : Request) (s : S) where
  detached_tells : (o : Option Volume) (s1 : S) → OptionTellsState (detached hook svc o s1).0
  unfolding detach_task
  detached_tells none s1 = tt
  detached_tells (some v) s1 =
      continue-keeps OptionTellsState (λ e. tt) (check_volume hook v s1) _
        (λ u s2. default_available u)

  -- Whatever the driver and the hook do: an answer to a create, a copy, an attach or a detach tells
  -- the attachment state of its volume.
  pub tasks_tell_state :
      TellsState (create_task hook svc rq s).0
      × TellsState (copy_task hook svc rq s).0
      × TokenTellsState (attach_task hook svc rq s).0
      × OptionTellsState (detach_task hook svc rq s).0
  unfolding create_task copy_task attach_task detach_task
  tasks_tell_state = (
    continue-keeps TellsState (λ e. tt) _ _
        (λ v s1.
          continue-keeps TellsState (λ e. tt) (check_volume hook v s1) _
            (λ u s2. default_available u)),
    continue-keeps TellsState (λ e. tt) _ _
        (λ v s1.
          continue-keeps TellsState (λ e. tt) (check_volume hook v s1) _
            (λ u s2. default_available u)),
    continue-keeps TokenTellsState (λ e. tt) _ _
        (λ (v, t) s1.
          continue-keeps TokenTellsState (λ e. tt) (check_volume hook v s1) _
            (λ u s2. default_attached u)),
    continue-keeps OptionTellsState (λ e. tt) _ _ detached_tells,
  )

  -- Without an instance ID the attach, the detach and the detach of all volumes of a service, and a
  -- listing whose mask needs one, fail with the service's name, and the driver is not called.
  missing_instance_id_first :
      (w : Waited) (opts : VolumesOpts) (flt : Option Filter)
      → svc.instance_id ≡ none
      → requires_instance_id opts.attachments ≡ true
      → (volume_attach hook svc rq w s ≡ (err (missing_instance_id svc.name), s))
        × (volume_detach hook svc rq w s ≡ (err (missing_instance_id svc.name), s))
        × (volume_detach_all_for_service hook svc rq w s ≡ (err (missing_instance_id svc.name), s))
        × (get_filtered_volumes hook svc opts flt s ≡ (err (missing_instance_id svc.name), s))
  missing_instance_id_first w opts flt absent needed = (
    unfold volume_attach in rw (absent, volume_attach) refl,
    unfold volume_detach in ground arith,
    unfold volume_detach_all_for_service in ground arith,
    unfold get_filtered_volumes in ground arith,
  )
