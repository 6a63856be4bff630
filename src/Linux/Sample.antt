-- ===== src/Linux/Sample.antt =====
-- A client for the runs of the integration driver and of its manager: it has one volume, attached and
-- mounted, and counts its calls.
use libstorage.Base.{ℕ, suc, [], ◌∷◌, false, some, codes, ok, raise}
use libstorage.Base.Int.{pos}
use libstorage.Types.Models.{InstanceId, Volume, VolumeAttachment}
use libstorage.Types.Errors.{goof}
use libstorage.Store.{new_store}
use libstorage.Linux.{Client, Config}
use libstorage.Linux.Mounts.{VolumeMountOpts}

abbrev pub this_instance : InstanceId
this_instance = record { id = codes "i-1"; driver = []; service = []; fields = []; metadata = [] }

abbrev pub here : VolumeAttachment
here = record {
  device_name = codes "/dev/xvda";
  mount_point = codes "/mnt";
  instance_id = some this_instance;
  status = [];
  volume_id = codes "v-1";
  fields = [];
}

abbrev pub data_volume : Volume
data_volume = record {
  attachments = here ∷ [];
  attachment_state = 2;
  availability_zone = [];
  encrypted = false;
  iops = pos 0;
  name = codes "Data";
  network_name = [];
  size = pos 8;
  status = [];
  id = codes "v-1";
  type = [];
  fields = [];
}

abbrev pub client : Client ℕ
client = record {
  volumes = λ m o s. (ok (data_volume ∷ []), suc s);
  service_name = some (codes "ebs");
  volume_inspect = λ i m s. (ok (some data_volume), suc s);
  volume_create = λ n o s. (ok (some data_volume), suc s);
  volume_attach = λ i f s. (ok (data_volume, []), suc s);
  volume_detach = λ i f s. (ok (some data_volume), suc s);
  volume_remove = λ i f o s. (ok tt, suc s);
  instance_inspect = λ s. (ok this_instance, suc s);
  wait_for_device = λ t o s. (ok tt, suc s);
  mounts = λ d o s. (ok (codes "/mnt" ∷ []), suc s);
  unmount = λ p o s. (ok tt, suc s);
  format = λ d t o. raise (goof (codes "busy"));
  mkdir_all = λ p s. (ok tt, suc s);
  mount = λ d p s. (ok tt, suc s);
}

abbrev pub config : Config
config = record {
  volume_root_path = codes "/data";
  mount_dir_path = codes "/var/lib/libstorage";
  volume_type = [];
  iops = pos 0;
  size = pos 16;
  availability_zone = [];
  fs_type = codes "ext4";
  volume_create_implicit = false;
}

abbrev pub mount_opts : VolumeMountOpts
mount_opts = record { overwrite_fs = false; new_fs_type = []; preempt = false; opts = new_store }
