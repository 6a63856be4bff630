-- ===== src/Router/Tests.antt =====
-- Runs of the routes of api/server/router with a driver that has two volumes and counts its calls.
use libstorage.Base.{
  ℕ, suc, ◌≡◌, ◌≢◌, refl, [], ◌∷◌, true, false, not, ◌&&◌, Option, none, some, List, Text, codes,
  Result, ok, err, Exec, raise, ◌==◌, text_eq, nat_eq, text_beq, arith, equal_fold, to_lower,
}
use libstorage.Base.Dict.{Dict, get, put, Distinct}
use libstorage.Base.Int.{pos}
use libstorage.Types.Attachments.{
  mine, attached, unattached, requires_instance_id, bit_set, vol_att_req_true,
  vol_att_req_only_attached_vols, vol_att_req_only_unattached_vols,
  vol_att_req_only_vols_attached_to_instance, vol_att_req_attached_to_instance_or_unattached,
  vol_att_req_for_instance, mine, devices,
}
use libstorage.Types.Models.{InstanceId, Volume, VolumeAttachment, VolumeMap}
use libstorage.Types.Errors.{Error, goof, batch_process, Completed, service_volumes}
use libstorage.Filter.{Filter, filter, nil, filter_equality_match}
use libstorage.Store.{new_store}
use libstorage.Router.{VolumesOpts, StorageDriver, StorageService, OnVolume, Request}
use libstorage.Router.Included.{
  handle_vol_attachments, name_filter, name_matches, includes, ascertained_state,
}
use libstorage.Router.VolumeRoutes.{
  get_filtered_volumes, create_task, copy_task, attach_task, detach_task, has_instance_id,
  filter_volume,
}
use libstorage.Router.VolumeRoutes.Attachments.{
  relation, wanted, state_of, handle-wanted, is_ours, is_free, is_others, handle_named_masks,
}
use libstorage.Router.VolumeRoutes.Listing.{answer, get_filtered_volumes-answer}
use libstorage.Router.VolumeRoutes.Named.{get_filtered_volumes_named}
use libstorage.Router.VolumeRoutes.Replies.{
  TellsState, TokenTellsState, OptionTellsState, tasks_tell_state,
}
use libstorage.Router.Batch.{collect}
use libstorage.Router.Batch.Replies.{contribution, collect-all_ok, collect_failed}
use libstorage.Router.DetachAll.{detach_services, detach_service}
use libstorage.Router.DetachAll.Captured.{entry, detach_services_captured, detach_services_own}

abbrev this_instance : InstanceId
this_instance = record {
  id = codes "i-1";
  driver = codes "d";
  service = codes "s";
  fields = [];
  metadata = [];
}

abbrev here : VolumeAttachment
here = record {
  device_name = codes "/dev/xvda";
  mount_point = [];
  instance_id = some this_instance;
  status = [];
  volume_id = codes "v-1";
  fields = [];
}

abbrev a_volume : Text → Text → List VolumeAttachment → Volume
a_volume id name as' = record {
  attachments = as';
  attachment_state = 0;
  availability_zone = [];
  encrypted = false;
  iops = pos 0;
  name = name;
  network_name = [];
  size = pos 8;
  status = [];
  id = id;
  type = [];
  fields = [];
}

abbrev data_volume : Volume
data_volume = a_volume (codes "v-1") (codes "Data") (here ∷ [])

abbrev spare_volume : Volume
spare_volume = a_volume (codes "v-2") (codes "spare") []

abbrev objects : List Volume
objects = data_volume ∷ spare_volume ∷ []

abbrev unsupported : {A : Type 0} → Exec ℕ Error A
unsupported = raise (goof (codes "unsupported"))

abbrev counting : StorageDriver ℕ
counting = record {
  volumes = λ o s. (ok objects, suc s);
  volume_inspect = λ id o s. (ok data_volume, suc s);
  volume_create = λ n o s. (ok spare_volume, suc s);
  volume_create_from_snapshot = λ i n o. unsupported;
  volume_copy = λ i n o. unsupported;
  volume_snapshot = λ i n o. unsupported;
  volume_attach = λ id o s. (ok (data_volume, codes "token"), suc s);
  volume_detach = λ id o s. (ok (some data_volume), suc s);
  volume_remove = λ id o s. (ok tt, suc s);
  snapshots = λ o. unsupported;
  snapshot_inspect = λ i o. unsupported;
  snapshot_copy = λ i n d o. unsupported;
  snapshot_remove = λ i o. unsupported;
}

abbrev service_named : Text → Option InstanceId → StorageService ℕ
service_named n iid = record {
  name = n;
  driver = counting;
  instance_id = iid;
  session = λ s. (ok tt, s);
}

abbrev known : StorageService ℕ
known = service_named (codes "ebs") (some this_instance)

abbrev other : StorageService ℕ
other = service_named (codes "efs") (some this_instance)

abbrev anonymous : StorageService ℕ
anonymous = service_named (codes "ebs") none

abbrev no_hook : OnVolume ℕ
no_hook = none

abbrev request : Request
request = record { store = new_store; now = 0; schemas = none }

abbrev all_volumes : VolumesOpts
all_volumes = record { attachments = 3; opts = new_store }

-- The filter of `(name=DATA)`.
abbrev by_name : Filter
by_name = filter filter_equality_match nil (codes "name") (codes "DATA")

handle-wanted_example :
    let r = relation (some this_instance) data_volume.attachments in
    handle_vol_attachments (some this_instance) data_volume 9 ≡ (
      wanted (mine 9) (attached 9) (unattached 9) r,
      record data_volume { attachment_state = state_of r },
    )
handle-wanted_example = handle-wanted (some this_instance) data_volume 9 refl (ground arith)

handle_named_masks_example :
    let r = relation (some this_instance) data_volume.attachments in
    ((handle_vol_attachments (some this_instance) data_volume vol_att_req_true).0 ≡ is_ours r)
    × ((handle_vol_attachments
          (some this_instance)
          data_volume
          vol_att_req_only_vols_attached_to_instance).0
        ≡ is_ours r)
    × ((handle_vol_attachments (some this_instance) data_volume vol_att_req_only_attached_vols).0
        ≡ not (is_free r))
    × ((handle_vol_attachments (some this_instance) data_volume vol_att_req_only_unattached_vols).0
        ≡ is_free r)
    × ((handle_vol_attachments
          (some this_instance)
          data_volume
          vol_att_req_attached_to_instance_or_unattached).0
        ≡ not (is_others r))
    × ((handle_vol_attachments (some this_instance) data_volume vol_att_req_for_instance).0 ≡ true)
handle_named_masks_example = handle_named_masks (some this_instance) data_volume refl

mask_allowed :
    requires_instance_id all_volumes.attachments && not (has_instance_id none known) ≡ false
unfolding requires_instance_id mine devices bit_set
mask_allowed = refl

get_filtered_volumes-answer_example :
    (m : VolumeMap) × (get_filtered_volumes none known all_volumes (some by_name) 4 ≡ (ok m, 5))
    × (get m (codes "v-1")
        ≡ answer known.instance_id all_volumes.attachments
            (name_filter (some by_name))
            (codes "v-1")
            objects
            none)
get_filtered_volumes-answer_example =
    get_filtered_volumes-answer known all_volumes (some by_name) 4 (codes "v-1") objects 5
      mask_allowed refl

-- What the listing by name gives.
abbrev listed : VolumeMap
listed = (codes "v-1", record data_volume { attachment_state = 2 }) ∷ []

lists : get_filtered_volumes none known all_volumes (some by_name) 4 ≡ (ok listed, 5)
unfolding get_filtered_volumes requires_instance_id mine bit_set filter_volume name_matches
    name_filter text_beq to_lower equal_fold handle_vol_attachments includes ascertained_state
    attached unattached put
lists = refl

get-listed : get listed (codes "v-1") ≡ some (record data_volume { attachment_state = 2 })
unfolding get text_beq
get-listed = refl

is_by_name : (to_lower (codes "name") == codes "name") ≡ true
unfolding to_lower text_beq
is_by_name = refl

get_filtered_volumes_named_example : equal_fold (codes "Data") (codes "DATA") ≡ true
get_filtered_volumes_named_example =
    get_filtered_volumes_named known all_volumes nil (codes "name") (codes "DATA") objects 4 5
      (codes "v-1") listed (record data_volume { attachment_state = 2 }) is_by_name mask_allowed
      refl lists get-listed

tasks_tell_state_example :
    TellsState (create_task no_hook known request 4).0
    × TellsState (copy_task no_hook known request 4).0
    × TokenTellsState (attach_task no_hook known request 4).0
    × OptionTellsState (detach_task no_hook known request 4).0
tasks_tell_state_example = tasks_tell_state no_hook known request 4

mask_needs : requires_instance_id all_volumes.attachments ≡ true
unfolding requires_instance_id mine devices bit_set
mask_needs = refl

abbrev succeeded : List (Text × Result Error ℕ)
succeeded = (codes "ebs", ok 1) ∷ (codes "efs", ok 2) ∷ []

succeeded-Distinct : Distinct succeeded
unfolding get text_beq
succeeded-Distinct = (refl, (refl, tt))

abbrev no_volumes : Dict Text ℕ → Completed
no_volumes m = service_volumes []

collect-all_ok_example :
    (m : Dict Text ℕ) × (collect no_volumes succeeded [] ≡ ok m)
    × (get m (codes "efs") ≡ contribution (get succeeded (codes "efs")) none)
collect-all_ok_example = collect-all_ok no_volumes succeeded (codes "efs") succeeded-Distinct refl

abbrev broken : List (Text × Result Error ℕ)
broken =
    (codes "ebs", ok 1)
    ∷ (codes "efs", err (goof (codes "down")))
    ∷ (codes "nfs", err (goof (codes "lost")))
    ∷ []

abbrev succeeded_first : List (Text × Result Error ℕ)
succeeded_first = (codes "ebs", ok 1) ∷ []

collect_failed_example :
    (reply : Dict Text ℕ) × (collect no_volumes broken []
      ≡ err (batch_process (no_volumes reply) (goof (codes "down"))))
    × ((k : Text) → get reply k ≡ contribution (get succeeded_first k) none)
collect_failed_example =
    collect_failed no_volumes succeeded_first (codes "efs") (goof (codes "down"))
      ((codes "nfs", err (goof (codes "lost"))) ∷ []) (unfold get in (refl, tt)) refl

differ : codes "efs" ≢ codes "ebs"
differ = ground arith

detach_services_captured_example :
    get
      (detach_services no_hook request ((known, codes "efs") ∷ (other, codes "efs") ∷ []) [] 4).0.1
      (codes "ebs")
    ≡ none
detach_services_captured_example =
    detach_services_captured no_hook request ((known, codes "efs") ∷ (other, codes "efs") ∷ [])
      (codes "efs") (codes "ebs") 4 (refl, (refl, tt)) differ

detach_services_own_example :
    let s' = (detach_services no_hook request ((other, codes "efs") ∷ []) [] 4).1 in
    get
      (detach_services no_hook request ((other, codes "efs") ∷ (known, codes "ebs") ∷ []) [] 4).0.1
      (codes "ebs")
    ≡ entry (detach_service no_hook request known (codes "ebs") s').0.1
detach_services_own_example =
    detach_services_own no_hook request ((other, codes "efs") ∷ []) known [] 4 (refl, tt)
      (differ, tt) tt tt
