-- ===== src/Router/Included.antt =====
-- Which volumes a listing includes, by their attachments and their name: handleVolAttachments and
-- the name filter of api/server/router/volume/volume_routes.go.
use libstorage.Base.{
  ℕ, List, [], ◌∷◌, Bool, true, false, ◌&&◌, ◌||◌, not, Option, none, some, Text, codes,
  if◌then◌else◌, ◌==◌, nat_eq, text_eq, ltb, to_lower, equal_fold,
}
use libstorage.Types.Attachments.{mine, attached, unattached}
use libstorage.Types.Models.{
  InstanceId, Volume, VolumeAttachment, volume_attached, volume_available, volume_unavailable,
}
use libstorage.Filter.{Filter, filter, filter_equality_match}

-- The closure `f` of handleVolAttachments: whether a volume in the state `s` is in the answer.
unfoldable pub includes : ℕ → ℕ → Bool
includes attachments s =
    if s == volume_available && (attached attachments && not (unattached attachments))
    then false
    else if (s == volume_attached || s == volume_unavailable)
        && (not (attached attachments) && unattached attachments)
    then false
    else if mine attachments
        && (attached attachments
            && (s == volume_available && not (unattached attachments) || s == volume_unavailable))
    then false
    else true

abbrev pub same_instance : InstanceId → Option InstanceId → Bool
same_instance iid none = false
same_instance iid (some a) = equal_fold iid.id a.id

unfoldable pub attached_to : InstanceId → List VolumeAttachment → Bool
attached_to iid [] = false
attached_to iid (a ∷ as') = same_instance iid a.instance_id || attached_to iid as'

abbrev pub known_instance : Option InstanceId → List VolumeAttachment → ℕ
known_instance none as' = volume_unavailable
known_instance (some iid) as' = if attached_to iid as' then volume_attached else volume_unavailable

-- The attachment state that handleVolAttachments works out.
unfoldable pub ascertained_state : Option InstanceId → List VolumeAttachment → ℕ
unfolding attached_to
ascertained_state iid [] = volume_available
ascertained_state iid (a ∷ as') = known_instance iid (a ∷ as')

unfoldable pub handle_vol_attachments : Option InstanceId → Volume → ℕ → Bool × Volume
handle_vol_attachments iid vol attachments =
    if attachments == 0
    then (true, record vol { attachments = [] })
    else if ltb 0 vol.attachment_state
    then (includes attachments vol.attachment_state, vol)
    else (
      includes attachments (ascertained_state iid vol.attachments),
      record vol { attachment_state = ascertained_state iid vol.attachments },
    )

-- The name that a filter asks for, in lower case; only an equality on the name is looked at.
unfoldable pub name_filter : Option Filter → Option Text
name_filter none = none
name_filter (some (filter filter_equality_match fs l r)) =
    if to_lower l == codes "name" then some (to_lower r) else none
name_filter (some f) = none

unfoldable pub name_matches : Option Text → Volume → Bool
name_matches none v = true
name_matches (some n) v = equal_fold v.name n
