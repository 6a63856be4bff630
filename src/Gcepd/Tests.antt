-- ===== src/Gcepd/Tests.antt =====
-- The gcepd driver at concrete inputs. The world counts the disks that were made.
use libstorage.Base.{
  arith, text_beq, true, ◌==◌, text_eq, ℕ, suc, [], ◌∷◌, false, none, some, Text, codes, ok, err,
  Exec, ◌≡◌, refl, ◌≢◌,
}
use libstorage.Base.Int.{pos}
use libstorage.Types.Errors.{Error}
use libstorage.Types.Models.{InstanceId}
use libstorage.Router.{VolumeCreateOpts, VolumesOpts, VolumeDetachOpts, VolumeAttachOpts}
use libstorage.Store.{new_store}
use libstorage.Gcepd.{
  Gcepd, Compute, googleapi, Operation, no_access_to_zone, get_client_zone, valid_zone, get_disk,
}
use libstorage.Gcepd.Requests.{is_valid_disk_name}
use libstorage.Gcepd.Volumes.{
  volumes, volume_inspect, volume_create, volume_remove, volume_attach, volume_detach,
  create_volume,
}
use libstorage.Gcepd.Zones.{other_zone_refused}

abbrev finished : Operation
finished = record { name = codes "op-1"; status = codes "DONE"; error = none }

abbrev counted : {A : Type 0} → A → Exec ℕ Error A
counted a s = (ok a, suc s)

abbrev gce : Compute ℕ
gce = record {
  list_disks = λ z t s. (ok [], s);
  aggregated_disks = λ t s. (ok [], s);
  get_disk = λ z n s. (err (googleapi 404), s);
  get_instance = λ z n s. (err (googleapi 404), s);
  insert_disk = λ z n. counted finished;
  delete_disk = λ z n. counted finished;
  set_labels = λ z n l f. counted tt;
  attach_disk = λ z n a. counted finished;
  detach_disk = λ z n a. counted finished;
  get_operation = λ z n s. (ok finished, s);
  sleep = λ s. s;
}

abbrev client : InstanceId
client = record {
  id = codes "host-1";
  driver = codes "gcepd";
  service = [];
  fields = (codes "zone", codes "us-west1-b") ∷ [];
  metadata = [];
}

abbrev restricted : Gcepd
restricted = record {
  zone = codes "us-east1-b";
  default_disk_type = codes "pd-ssd";
  tag = [];
  instance_id = some client;
  local_devices = none;
  rounds = 3;
}

abbrev controller : Gcepd
controller = record restricted { zone = []; instance_id = none }

abbrev opts : VolumeCreateOpts
opts = record {
  availability_zone = some (codes "us-east1-b");
  iops = none;
  size = some (pos 20);
  type = none;
  encrypted = none;
  encryption_key = none;
  opts = new_store;
}

zone_of_client : get_client_zone restricted.instance_id ≡ some (codes "us-west1-b")
unfolding get_client_zone text_beq
zone_of_client = refl

has_zone : restricted.zone ≢ []
has_zone e = ground (arith, e)

not_zone : (codes "us-west1-b" == restricted.zone) ≡ false
unfolding text_beq
not_zone = refl

no_zone : valid_zone controller ≡ ok none
unfolding valid_zone
no_zone = refl

named : is_valid_disk_name (codes "data") ≡ true
unfolding is_valid_disk_name
named = refl

not_there : get_disk controller gce (codes "us-east1-b") (codes "data") 0 ≡ (ok none, 0)
unfolding get_disk
not_there = refl

made : create_volume controller gce (codes "us-east1-b") (codes "data") opts 0 ≡ (ok tt, 1)
unfolding create_volume text_beq
made = refl

other_zone_refused_example :
    ((o : VolumesOpts) → volumes restricted gce o 0 ≡ (err no_access_to_zone, 0))
    × ((id : Text) (o : VolumesOpts)
        → volume_inspect restricted gce id o 0 ≡ (err no_access_to_zone, 0))
    × ((name : Text) (o : VolumeCreateOpts)
        → volume_create restricted gce name o 0 ≡ (err no_access_to_zone, 0))
    × ((id : Text) (o : VolumeDetachOpts)
        → volume_remove restricted gce id o 0 ≡ (err no_access_to_zone, 0))
    × ((id : Text) (o : VolumeAttachOpts)
        → volume_attach restricted gce id o 0 ≡ (err no_access_to_zone, 0))
    × ((id : Text) (o : VolumeDetachOpts)
        → volume_detach restricted gce id o 0 ≡ (err no_access_to_zone, 0))
other_zone_refused_example =
    other_zone_refused restricted gce (codes "us-west1-b") 0 zone_of_client has_zone not_zone
