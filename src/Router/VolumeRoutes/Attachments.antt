-- ===== src/Router/VolumeRoutes/Attachments.antt =====
-- handleVolAttachments of api/server/router/volume/volume_routes.go against the masks' meaning, as
-- api/types/types_drivers_storage.go documents it.
use libstorage.Base.{
  ℕ, ◌≡◌, ◌≢◌, refl, ap, ◌∙◌, [], ◌∷◌, Bool, true, false, ◌||◌, not, Option, none, some, List,
  arith,
}
use libstorage.Types.Attachments.{
  mine, attached, unattached, bit_set, vol_att_req_true, vol_att_req_only_attached_vols,
  vol_att_req_only_unattached_vols, vol_att_req_only_vols_attached_to_instance,
  vol_att_req_attached_to_instance_or_unattached, vol_att_req_for_instance,
}
use libstorage.Types.Models.{
  InstanceId, Volume, VolumeAttachment, volume_attached, volume_available, volume_unavailable,
}
use libstorage.Router.Included.{
  handle_vol_attachments, includes, ascertained_state, attached_to, same_instance,
}

-- How a volume stands to the instance that asks for it.
pub data Relation : Type 0 where
  free ours others : Relation

abbrev pub relation_known : Bool → Relation
relation_known true = ours
relation_known false = others

abbrev pub relation : Option InstanceId → List VolumeAttachment → Relation
relation iid [] = free
relation none (a ∷ as') = others
relation (some iid) (a ∷ as') =
    relation_known (same_instance iid a.instance_id || attached_to iid as')

abbrev pub state_of : Relation → ℕ
state_of free = volume_available
state_of ours = volume_attached
state_of others = volume_unavailable

-- Which volumes are asked for, by the bits for mine, attached and unattached. The bit for mine
-- narrows only what the bit for attached admits.
abbrev pub wanted : Bool → Bool → Bool → Relation → Bool
wanted m true false free = false
wanted m true true free = true
wanted m false u free = true
wanted m true u ours = true
wanted m false u ours = not u
wanted m true u others = not m
wanted m false u others = not u

state-relation :
    (iid : Option InstanceId) (as' : List VolumeAttachment)
    → ascertained_state iid as' ≡ state_of (relation iid as')
unfolding ascertained_state
state-relation iid [] = refl
state-relation none (a ∷ as') = refl
state-relation (some iid) (a ∷ as') = ground arith

includes-wanted :
    (attachments : ℕ) (r : Relation)
    → includes attachments (state_of r)
      ≡ wanted (mine attachments) (attached attachments) (unattached attachments) r
unfolding includes
includes-wanted attachments free = ground arith
includes-wanted attachments ours = ground arith
includes-wanted attachments others = ground arith

-- A volume whose state the driver has left open, and for which attachments are asked: it gets the
-- state that tells how it stands to the instance, and it is included exactly if it is wanted.
pub handle-wanted :
    (iid : Option InstanceId) (vol : Volume) (attachments : ℕ)
    → vol.attachment_state ≡ 0
    → attachments ≢ 0
    → let r = relation iid vol.attachments in
      handle_vol_attachments iid vol attachments ≡ (
        wanted (mine attachments) (attached attachments) (unattached attachments) r,
        record vol { attachment_state = state_of r },
      )
unfolding handle_vol_attachments
handle-wanted iid vol attachments open_state asked = ground (
  arith,
  state-relation iid vol.attachments,
  includes-wanted attachments (relation iid vol.attachments),
)

abbrev pub is_free : Relation → Bool
is_free free = true
is_free r = false

abbrev pub is_ours : Relation → Bool
is_ours ours = true
is_ours r = false

abbrev pub is_others : Relation → Bool
is_others others = true
is_others r = false

wanted_mine_attached : (r : Relation) → wanted true true false r ≡ is_ours r
wanted_mine_attached free = refl
wanted_mine_attached ours = refl
wanted_mine_attached others = refl

wanted_attached : (r : Relation) → wanted false true false r ≡ not (is_free r)
wanted_attached free = refl
wanted_attached ours = refl
wanted_attached others = refl

wanted_unattached : (r : Relation) → wanted false false true r ≡ is_free r
wanted_unattached free = refl
wanted_unattached ours = refl
wanted_unattached others = refl

wanted_mine_or_free : (r : Relation) → wanted true true true r ≡ not (is_others r)
wanted_mine_or_free free = refl
wanted_mine_or_free ours = refl
wanted_mine_or_free others = refl

wanted_mine_only : (r : Relation) → wanted true false false r ≡ true
wanted_mine_only free = refl
wanted_mine_only ours = refl
wanted_mine_only others = refl

-- The documented meaning of the named masks, for a volume whose state the driver has left open:
-- VolAttReqTrue and VolAttReqOnlyVolsAttachedToInstance keep the volumes that are attached to the
-- instance, VolAttReqOnlyAttachedVols those that are attached at all,
-- VolAttReqOnlyUnattachedVols those that are not,
-- VolAttReqWithDevMapOnlyVolsAttachedToInstanceOrUnattachedVols those that are not attached to
-- another instance, and VolAttReqForInstance all.
pub handle_named_masks :
    (iid : Option InstanceId) (vol : Volume)
    → vol.attachment_state ≡ 0
    → let r = relation iid vol.attachments in
      ((handle_vol_attachments iid vol vol_att_req_true).0 ≡ is_ours r)
      × ((handle_vol_attachments iid vol vol_att_req_only_vols_attached_to_instance).0 ≡ is_ours r)
      × ((handle_vol_attachments iid vol vol_att_req_only_attached_vols).0 ≡ not (is_free r))
      × ((handle_vol_attachments iid vol vol_att_req_only_unattached_vols).0 ≡ is_free r)
      × ((handle_vol_attachments iid vol vol_att_req_attached_to_instance_or_unattached).0
          ≡ not (is_others r))
      × ((handle_vol_attachments iid vol vol_att_req_for_instance).0 ≡ true)
unfolding mine attached unattached bit_set
handle_named_masks iid vol h =
    let r = relation iid vol.attachments in
    (
      ap (λ x. x.0) (handle-wanted iid vol vol_att_req_true h (omega arith))
          ∙ wanted_mine_attached r,
      ap (λ x. x.0)
            (handle-wanted iid vol vol_att_req_only_vols_attached_to_instance h (omega arith))
          ∙ wanted_mine_attached r,
      ap (λ x. x.0) (handle-wanted iid vol vol_att_req_only_attached_vols h (omega arith))
          ∙ wanted_attached r,
      ap (λ x. x.0) (handle-wanted iid vol vol_att_req_only_unattached_vols h (omega arith))
          ∙ wanted_unattached r,
      ap (λ x. x.0)
            (handle-wanted iid vol vol_att_req_attached_to_instance_or_unattached h (omega arith))
          ∙ wanted_mine_or_free r,
      ap (λ x. x.0) (handle-wanted iid vol vol_att_req_for_instance h (omega arith))
          ∙ wanted_mine_only r,
    )
