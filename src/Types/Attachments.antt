-- ===== src/Types/Attachments.antt =====
-- The attachments bit mask of api/types/types_drivers_storage.go. A mask is a Go int; it is modelled
-- by its 64-bit pattern, so -1 is 2 ^ 64 - 1 and has all bits set.
use libstorage.Base.{ℕ, ◌+◌, Bool, ◌||◌, bit_and, ◌==◌, nat_eq}

-- VolumeAttachmentsRequested, Mine, Devices, Attached and Unattached
abbrev pub volume_attachments_requested : ℕ
volume_attachments_requested = 1

abbrev pub volume_attachments_mine : ℕ
volume_attachments_mine = 2

abbrev pub volume_attachments_devices : ℕ
volume_attachments_devices = 4

abbrev pub volume_attachments_attached : ℕ
volume_attachments_attached = 8

abbrev pub volume_attachments_unattached : ℕ
volume_attachments_unattached = 16

abbrev pub vol_att_none : ℕ
vol_att_none = 0

abbrev pub vol_att_req_for_instance : ℕ
vol_att_req_for_instance = volume_attachments_requested + volume_attachments_mine

abbrev pub vol_att_req_with_dev_map_for_instance : ℕ
vol_att_req_with_dev_map_for_instance = vol_att_req_for_instance + volume_attachments_devices

abbrev pub vol_att_req_only_attached_vols : ℕ
vol_att_req_only_attached_vols = volume_attachments_requested + volume_attachments_attached

abbrev pub vol_att_req_only_unattached_vols : ℕ
vol_att_req_only_unattached_vols = volume_attachments_requested + volume_attachments_unattached

abbrev pub vol_att_req_only_vols_attached_to_instance : ℕ
vol_att_req_only_vols_attached_to_instance = vol_att_req_for_instance + volume_attachments_attached

-- VolAttReqTrue, also VolumeAttachmentsTrue and VolAttReqWithDevMapOnlyVolsAttachedToInstance
abbrev pub vol_att_req_true : ℕ
vol_att_req_true = volume_attachments_devices + vol_att_req_only_vols_attached_to_instance

-- VolAttReqWithDevMapOnlyVolsAttachedToInstanceOrUnattachedVols
abbrev pub vol_att_req_attached_to_instance_or_unattached : ℕ
vol_att_req_attached_to_instance_or_unattached = vol_att_req_true + volume_attachments_unattached

unfoldable pub bit_set : ℕ → ℕ → Bool
bit_set v b = bit_and v b == b

unfoldable pub requested : ℕ → Bool
requested v = bit_set v volume_attachments_requested

unfoldable pub mine : ℕ → Bool
mine v = bit_set v volume_attachments_mine

unfoldable pub devices : ℕ → Bool
devices v = bit_set v volume_attachments_devices

unfoldable pub attached : ℕ → Bool
attached v = bit_set v volume_attachments_attached

unfoldable pub unattached : ℕ → Bool
unattached v = bit_set v volume_attachments_unattached

unfoldable pub requires_instance_id : ℕ → Bool
requires_instance_id v = mine v || devices v
