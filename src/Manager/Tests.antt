-- ===== src/Manager/Tests.antt =====
-- Runs of the manager of api/registry with the linux driver behind it.
use libstorage.Base.{
  ℕ, suc, ◌≡◌, refl, [], ◌∷◌, true, false, none, some, Text, codes, ok, text_beq, nat_eq, text_eq,
}
use libstorage.Base.Int.{pos}
use libstorage.Base.Dict.{get, put}
use libstorage.Types.Models.{Volume}
use libstorage.Store.{new_store}
use libstorage.Linux.Sample.{client, config, data_volume, mount_opts}
use libstorage.Manager.{IntegrationDriver, ManagerConfig, Managed, mount, counted, add_count}
use libstorage.Manager.Linux.{linux_driver}
use libstorage.Manager.Balance.{unmounts, nil_then, last_unmount_reaches_driver}

abbrev counting : ManagerConfig
counting = record {
  preempt = false;
  disable_create = false;
  disable_remove = false;
  ignore_used_count = false;
  path_cache_enabled = true;
}

abbrev driver : IntegrationDriver ℕ
driver = linux_driver client config 0

abbrev unused : Managed ℕ
unused = record { used = []; world = 4 }

abbrev used_thrice : Managed ℕ
used_thrice = record { used = (codes "data", pos 3) ∷ []; world = 4 }

is_thrice : get used_thrice.used (codes "data") ≡ some (pos 3)
unfolding get text_beq
is_thrice = refl

last_unmount_reaches_driver_example :
    let ends = unmounts counting driver [] (codes "data") new_store 3 used_thrice in
    let last = driver.unmount [] (codes "data") new_store 4 in
    (ends.0 ≡ nil_then counting driver [] (codes "data") new_store 2 last.0)
    × (ends.1.world ≡ last.1)
    × (get ends.1.used (codes "data") ≡ some (pos 0))
last_unmount_reaches_driver_example =
    last_unmount_reaches_driver counting driver [] (codes "data") new_store refl 2 used_thrice
      is_thrice

-- A driver whose mounts succeed, for volumes that are mounted by their IDs.
abbrev plain : IntegrationDriver ℕ
plain = record driver { mount = λ i n o s. (ok (codes "/mnt", data_volume), suc s) }

abbrev seen : Text × Volume
seen = (codes "/mnt", data_volume)

abbrev once : Managed ℕ
once = record { used = ([], pos 1) ∷ []; world = 5 }

abbrev twice : Managed ℕ
twice = record { used = ([], pos 2) ∷ []; world = 6 }

first_mount : mount counting plain (codes "v-1") [] mount_opts unused ≡ (ok seen, once)
unfolding mount counted add_count get put
first_mount = refl

second_mount : mount counting plain (codes "v-2") [] mount_opts once ≡ (ok seen, twice)
unfolding mount counted add_count get put text_beq
second_mount = refl

get-unused : get unused.used [] ≡ none
unfolding get
get-unused = refl
