-- ===== src/Ebs/Tests.antt =====
-- Runs of the ebs driver on a service with one volume; the world counts its calls.
use libstorage.Base.{
  ℕ, suc, ◌≡◌, refl, [], ◌∷◌, true, false, none, some, codes, ok, arith, if◌then◌else◌, ltb,
  text_beq, text_eq, nat_eq,
}
use libstorage.Base.Int.{pos}
use libstorage.Base.Dict.{get}
use libstorage.Base.Split.{index_of, is_prefix}
use libstorage.Types.Attachments.{bit_set}
use libstorage.Types.Models.{Volume, VolumeAttachment}
use libstorage.Store.{new_store}
use libstorage.Router.{VolumeAttachOpts}
use libstorage.Linux.Sample.{this_instance}
use libstorage.Ebs.{
  Ebs, Ec2, Ec2Volume, Ec2Attachment, get_volume, to_types_volume, device_of, local_name,
}
use libstorage.Ebs.Wait.{wait_rounds, wait_volume_complete, wait_detach}
use libstorage.Ebs.Volumes.{review, volume_detach, volume_inspect}
use libstorage.Ebs.Polls.{not_yet, slept, IsComplete, complete, wait_rounds-Ending}

abbrev elsewhere : Ec2Attachment
elsewhere = record {
  device = codes "/dev/sdf";
  volume_id = codes "vol-1";
  instance_id = codes "i-2";
  state = codes "attached";
}

-- The volume loses its attachment with the fourth call.
abbrev vol_1 : ℕ → Ec2Volume
vol_1 s = record {
  volume_id = codes "vol-1";
  availability_zone = codes "us-east-1a";
  encrypted = false;
  state = codes "available";
  volume_type = codes "gp2";
  size = pos 8;
  iops = none;
  attachments = if ltb s 4 then elsewhere ∷ [] else [];
  tags = (codes "Name", codes "data") ∷ [];
}

-- A search by name, which sends no ID, finds nothing.
abbrev service : Ec2 ℕ
service = record {
  describe_volumes =
      λ i s. elim i.volume_ids [ [] ↦ (ok [], suc s) | id ∷ ids ↦ (ok (vol_1 s ∷ []), suc s) ];
  describe_instances = λ id s. (ok ((codes "us-east-1a" ∷ []) ∷ []), suc s);
  create_volume = λ i s. (ok (vol_1 s), suc s);
  create_tags = λ id tags s. (ok tt, suc s);
  delete_volume = λ id s. (ok tt, suc s);
  attach_volume = λ device instance id s. (ok tt, suc s);
  detach_volume = λ id force s. (ok tt, suc s);
  sleep = λ s. s;
}

abbrev driver : Ebs
driver = record {
  name = codes "ebs";
  tag = [];
  kms_key_id = [];
  instance_id = some this_instance;
  local_devices = some [];
  rounds = 9;
}

third_look : get_volume driver service (codes "vol-1") [] 3 ≡ (ok (vol_1 3 ∷ []), 4)
unfolding get_volume
third_look = refl

fourth_look : get_volume driver service (codes "vol-1") [] 4 ≡ (ok (vol_1 4 ∷ []), 5)
unfolding get_volume
fourth_look = refl

still_attached : ¬ IsComplete wait_detach (vol_1 3)
still_attached h = cc h

wait_rounds-Ending_example : wait_rounds driver service 9 (codes "vol-1") wait_detach 3 ≡ (ok tt, 5)
wait_rounds-Ending_example =
    wait_rounds-Ending driver service (codes "vol-1") wait_detach 1 9 3 4 5 (ok (vol_1 4 ∷ []))
      (ok tt) (slept (vol_1 3) [] third_look still_attached not_yet) fourth_look (complete refl)
      (omega arith)

abbrev freed : Volume
freed = record {
  attachments = [];
  attachment_state = 0;
  availability_zone = codes "us-east-1a";
  encrypted = false;
  iops = pos 0;
  name = codes "data";
  network_name = [];
  size = pos 8;
  status = codes "available";
  id = codes "vol-1";
  type = codes "gp2";
  fields = [];
}

abbrev attachment : VolumeAttachment
attachment = record {
  device_name = [];
  mount_point = [];
  instance_id =
      some (record {
        id = codes "i-2";
        driver = codes "ebs";
        service = [];
        fields = [];
        metadata = [];
      });
  status = codes "attached";
  volume_id = codes "vol-1";
  fields = [];
}

abbrev by_force : VolumeAttachOpts
by_force = record { next_device = none; force = true; opts = new_store }

reviewed :
    review driver service (codes "vol-1") 0
    ≡ (ok (record freed { attachments = attachment ∷ [] } ∷ []), 1)
unfolding review get_volume to_types_volume device_of local_name index_of is_prefix get text_beq
    bit_set
reviewed = refl

detached :
    volume_detach driver service (codes "vol-1") (record { force = true; opts = new_store }) 1
    ≡ (ok freed, 6)
unfolding volume_detach review get_volume to_types_volume device_of local_name index_of is_prefix
    get text_beq bit_set wait_volume_complete volume_inspect
detached = refl
