-- ===== src/Router/VolumeRoutes/Listing.antt =====
-- getFilteredVolumes of api/server/router/volume/volume_routes.go against a description of the answer.
use libstorage.Base.{
  ℕ, ◌≡◌, refl, ◌∙◌, ap, [], ◌∷◌, Bool, true, false, ◌&&◌, Option, none, some, List, Text, ok,
  arith, if◌then◌else◌, ◌==◌, text_eq, not, continue, equal_fold, Bool-cases, inl, inr,
}
use libstorage.Base.Dict.{get, put, get-put}
use libstorage.Types.Attachments.{requires_instance_id}
use libstorage.Types.Models.{InstanceId, Volume, VolumeMap}
use libstorage.Filter.{Filter}
use libstorage.Router.{VolumesOpts, StorageService}
use libstorage.Router.Included.{handle_vol_attachments, name_filter, name_matches}
use libstorage.Router.VolumeRoutes.{
  filter_volume, filter_volumes, get_filtered_volumes, has_instance_id,
}

module _ (iid : Option InstanceId) (attachments : ℕ) (name : Option Text) where
  abbrev keeps : Volume → Bool
  keeps v = name_matches name v && (handle_vol_attachments iid v attachments).0

  abbrev as_shown : Volume → Volume
  as_shown v = (handle_vol_attachments iid v attachments).1

  -- The volume that the answer should have under an ID: the last one in the driver's list that has
  -- the ID, passes the name filter and is included by the mask; `found` is the one so far.
  abbrev pub answer : Text → List Volume → Option Volume → Option Volume
  answer id [] found = found
  answer id (v ∷ vs) found =
      answer id vs (if keeps v && ((as_shown v).id == id) then some (as_shown v) else found)

  abbrev kept : List Volume → VolumeMap → VolumeMap
  kept [] m = m
  kept (v ∷ vs) m = kept vs (if keeps v then put (as_shown v).id (as_shown v) m else m)

  filter_one :
      {S : Type 0} (v : Volume) (m : VolumeMap) (s : S)
      → filter_volume none iid attachments name v m s
        ≡ (ok (if keeps v then put (as_shown v).id (as_shown v) m else m), s)
  unfolding filter_volume
  filter_one v m s = ground arith

  filter-kept :
      {S : Type 0} (vs : List Volume) (m : VolumeMap) (s : S)
      → filter_volumes none iid attachments name vs m s ≡ (ok (kept vs m), s)
  unfolding filter_volumes
  filter-kept [] m s = refl
  filter-kept (v ∷ vs) m s =
      ap (λ r. continue r.0 (filter_volumes none iid attachments name vs) r.1) (filter_one v m s)
      ∙ filter-kept vs _ s

  get-kept-one :
      (id : Text) (v : Volume) (m : VolumeMap)
      → get (if keeps v then put (as_shown v).id (as_shown v) m else m) id
        ≡ (if keeps v && ((as_shown v).id == id) then some (as_shown v) else get m id)
  get-kept-one id v m = ground (arith, get-put m (as_shown v).id id (as_shown v))

  get-kept :
      (id : Text) (vs : List Volume) (m : VolumeMap) → get (kept vs m) id ≡ answer id vs (get m id)
  get-kept id [] m = refl
  get-kept id (v ∷ vs) m = get-kept id vs _ ∙ ap (answer id vs) (get-kept-one id v m)

module _ {S : Type 0} (svc : StorageService S) (opts : VolumesOpts) (flt : Option Filter)
    (s : S) where
  -- The listing of a service with no OnVolume hook, where an instance ID is there if the mask needs
  -- one, and where the driver gives its volumes `objs`: it ends in the driver's state with a map
  -- that has, under each ID, the last of `objs` that has the ID, passes the name filter and is
  -- included by the mask, as handleVolAttachments leaves it, and nothing else.
  pub get_filtered_volumes-answer :
      (id : Text) (objs : List Volume) (s' : S)
      → requires_instance_id opts.attachments && not (has_instance_id none svc) ≡ false
      → svc.driver.volumes opts s ≡ (ok objs, s')
      → (m : VolumeMap) × (get_filtered_volumes none svc opts flt s ≡ (ok m, s'))
        × (get m id ≡ answer svc.instance_id opts.attachments (name_filter flt) id objs none)
  unfolding get_filtered_volumes get
  get_filtered_volumes-answer id objs s' present listed = (
    kept svc.instance_id opts.attachments (name_filter flt) objs [],
    rw (present, listed)
        (filter-kept svc.instance_id opts.attachments (name_filter flt) objs [] s'),
    get-kept svc.instance_id opts.attachments (name_filter flt) id objs [],
  )

-- A volume that has been found has the name `n`, but for case.
abbrev pub IsNamed : Text → Option Volume → Type 0
IsNamed n none = Unit
IsNamed n (some v) = equal_fold v.name n ≡ true

module _ (iid : Option InstanceId) (attachments : ℕ) (n : Text) where
  name-shown : (v : Volume) → (as_shown iid attachments (some n) v).name ≡ v.name
  unfolding handle_vol_attachments
  name-shown v = ground arith

  found-IsNamed :
      (id : Text) (v : Volume) (found : Option Volume)
      → IsNamed n found
      → IsNamed n (
          if keeps iid attachments (some n) v && ((as_shown iid attachments (some n) v).id == id)
          then some (as_shown iid attachments (some n) v)
          else found)
  found-IsNamed id v found h =
      elim (Bool-cases
        (keeps iid attachments (some n) v && ((as_shown iid attachments (some n) v).id == id))) [
          | inl e ↦ rw e (rw name-shown (unfold name_matches in ground arith))
          | inr e ↦ rw e h
        ]

  pub answer-IsNamed :
      (id : Text) (vs : List Volume) (found : Option Volume)
      → IsNamed n found
      → IsNamed n (answer iid attachments (some n) id vs found)
  answer-IsNamed id [] found h = h
  answer-IsNamed id (v ∷ vs) found h = answer-IsNamed id vs _ (found-IsNamed id v found h)
