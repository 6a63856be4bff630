-- ===== src/Router/VolumeRoutes/Named.antt =====
-- Volumes by their name, in api/server/router/volume/volume_routes.go: the name filter of a listing,
-- and the inspection by name.
use libstorage.Base.{
  ◌≡◌, ◌∙◌, ap, sym, true, false, ◌&&◌, Option, none, some, List, Text, ok, arith, ◌==◌, text_eq,
  text_beq, codes, to_lower, equal_fold, not, to_lower-to_lower,
}
use libstorage.Base.Dict.{get}
use libstorage.Types.Attachments.{requires_instance_id}
use libstorage.Types.Models.{Volume, VolumeMap}
use libstorage.Filter.{Filters, filter, filter_equality_match}
use libstorage.Router.{VolumesOpts, StorageService}
use libstorage.Router.Included.{name_filter}
use libstorage.Router.VolumeRoutes.{get_filtered_volumes, has_instance_id}
use libstorage.Router.VolumeRoutes.Listing.{
  answer, answer-IsNamed, IsNamed, get_filtered_volumes-answer,
}

equal_fold-lower : (s t : Text) → equal_fold s (to_lower t) ≡ equal_fold s t
unfolding equal_fold
equal_fold-lower s t = ap (λ u. text_beq (to_lower s) u) (to_lower-to_lower t)

IsNamed-some :
    (o : Option Volume) (v : Volume) (n : Text)
    → o ≡ some v
    → IsNamed n o
    → equal_fold v.name n ≡ true
IsNamed-some none v n e h = cc
IsNamed-some (some u) v n e h = ground arith

name_filter-lower :
    (fs : Filters) (l r : Text)
    → (to_lower l == codes "name") ≡ true
    → name_filter (some (filter filter_equality_match fs l r)) ≡ some (to_lower r)
unfolding name_filter
name_filter-lower fs l r h = rw h

-- The listing of a service under a filter that is an equality on the name, the word in any case,
-- with no OnVolume hook: each volume in the answer has the name that the filter gives, but for case.
pub get_filtered_volumes_named :
    {S : Type 0} (svc : StorageService S) (opts : VolumesOpts) (fs : Filters) (l r : Text)
    (objs : List Volume) (s s' : S) (id : Text) (m : VolumeMap) (v : Volume)
    → (to_lower l == codes "name") ≡ true
    → requires_instance_id opts.attachments && not (has_instance_id none svc) ≡ false
    → svc.driver.volumes opts s ≡ (ok objs, s')
    → get_filtered_volumes none svc opts (some (filter filter_equality_match fs l r)) s ≡ (ok m, s')
    → get m id ≡ some v
    → equal_fold v.name r ≡ true
get_filtered_volumes_named svc opts fs l r objs s s' id m v by_name present listed result found =
    let (m', result', exact) =
      get_filtered_volumes-answer svc opts (some (filter filter_equality_match fs l r)) s id objs s'
        present listed in
    let same : m ≡ m' = cc in
    let named : answer svc.instance_id opts.attachments (some (to_lower r)) id objs none ≡ some v =
      ap (λ o. answer svc.instance_id opts.attachments o id objs none)
        (sym (name_filter-lower fs l r by_name))
      ∙ sym exact
      ∙ ap (λ k. get k id) (sym same)
      ∙ found in
    sym (equal_fold-lower v.name r)
    ∙ IsNamed-some _ v (to_lower r) named
        (answer-IsNamed svc.instance_id opts.attachments (to_lower r) id objs none tt)
