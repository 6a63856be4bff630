-- ===== src/Handlers/Tests.antt =====
-- Runs of the handlers of api/server/handlers.
use libstorage.Base.{List, ◌≡◌, refl, Text, codes, text_eq, text_beq, equal_fold, to_lower}
use libstorage.Base.Int.{pos, parse_int, parse_bool}
use libstorage.Types.Values.{str, num, int64, nil}
use libstorage.Store.{new_store, get_value}
use libstorage.Base.{◌<◌, [], ◌∷◌, none, some, ok, arith, All}
use libstorage.Base.Dict.{Dict, get}
use libstorage.Types.Models.{InstanceId}
use libstorage.Types.InstanceIds.{Base64}
use libstorage.Types.InstanceIds
use libstorage.Types.InstanceIds.RoundTrip.{IsPrintable}
use libstorage.Types.LocalDevices.{LocalDevices}
use libstorage.Types.LocalDevices.RoundTrip as Devices
use libstorage.Client.Headers.{local_devices_headers}
use libstorage.Handlers.{ApiFunc}
use libstorage.Handlers.Headers.{local_devices}
use libstorage.Handlers.Transport.{Transport, Delivers, size_of}
use libstorage.Types.LocalDevices
use libstorage.Handlers.Devices.{IsFiled, IsProper, local_devices_arrive}
use libstorage.Handlers.{query_value, set_params}
use libstorage.Handlers.Query.{last_value, get_value-set_params}

-- ?force&size=10&Size=big
abbrev params : List (Text × List Text)
params =
    (codes "force", [] ∷ [])
    ∷ (codes "size", codes "10" ∷ [])
    ∷ (codes "Size", codes "big" ∷ [])
    ∷ []

get_value-set_params_example :
    (get_value (codes "SIZE") 3 (set_params 3 params new_store)).0
    ≡ last_value (codes "SIZE") params (get_value (codes "SIZE") 3 new_store).0
get_value-set_params_example = get_value-set_params (codes "SIZE") 3 params new_store refl

-- The parameter that is read last decides.
last_size : last_value (codes "SIZE") params nil ≡ str (codes "big")
unfolding equal_fold query_value parse_int parse_bool text_beq to_lower
last_size = refl

number_kept : query_value (codes "10" ∷ []) ≡ num int64 (pos 10)
unfolding query_value parse_int
number_kept = refl

abbrev b64 : Base64
b64 = record { encode = λ s. s; read = λ s. some s }

abbrev of_host : Text → Text → InstanceId
of_host service host = record {
  id = host;
  driver = codes "vfs";
  service = service;
  fields = [];
  metadata = [];
}

abbrev headers : List Text
headers = codes "vfs=host1" ∷ codes "vfs:Two=host2" ∷ []

abbrev host_ids : List InstanceId
host_ids = of_host [] (codes "host1") ∷ of_host (codes "Two") (codes "host2") ∷ []

abbrev services : List (Text × Text)
services = (codes "one", codes "VFS") ∷ (codes "two", codes "VFS") ∷ []

-- Leaves the map in the world.
abbrev keep : ApiFunc (Dict Text InstanceId) (Dict Text InstanceId)
keep ctx store s = (ok tt, ctx)

-- Two services with the same driver and no name of their own share a header.
abbrev client_ids : Dict Text InstanceId
client_ids =
    (codes "one", of_host [] (codes "host1"))
    ∷ (codes "two", of_host (codes "Two") (codes "host2"))
    ∷ (codes "three", of_host [] (codes "host1"))
    ∷ []

-- What refuses nothing and changes nothing.
abbrev direct : Transport
direct hs = some hs

direct-Delivers : Delivers 1000 direct
direct-Delivers hs proper small = refl

abbrev one_disk : Dict Text LocalDevices
one_disk =
    (
      codes "vfs",
      record { driver = codes "VFS"; device_map = (codes "/dev/xvda", codes "vfs-000") ∷ [] },
    )
    ∷ []

one_disk-IsFiled : All IsFiled one_disk
unfolding to_lower get
one_disk-IsFiled = ((refl, printable), tt)
  where
    xvda : Devices.IsWord (codes "/dev/xvda")
    xvda = record { some_byte = refl; plain = ground arith }

    vfs_0 : Devices.IsWord (codes "vfs-000")
    vfs_0 = record { some_byte = refl; plain = ground arith }

    printable :
        Devices.IsPrintable
          (record { driver = codes "VFS"; device_map = (codes "/dev/xvda", codes "vfs-000") ∷ [] })
    printable = record {
      named = refl;
      driver_bytes = omega arith;
      pairs = ((xvda, vfs_0), tt);
      distinct = (refl, tt);
      ordered = (tt, tt);
    }

abbrev keep_devices : ApiFunc (Dict Text LocalDevices) (Dict Text LocalDevices)
keep_devices ctx store s = (ok tt, ctx)

one_disk-IsProper : All IsProper one_disk
unfolding LocalDevices.marshal_text
one_disk-IsProper = ground arith

one_disk-small : size_of (local_devices_headers none (some one_disk)) < 1000
unfolding local_devices_headers
one_disk-small = omega arith

local_devices_arrive_example :
    (arrived : List Text) × (direct (local_devices_headers none (some one_disk)) ≡ some arrived)
    × (local_devices (λ m ctx. m) arrived keep_devices [] new_store []
        ≡ keep_devices one_disk new_store [])
unfolding get
local_devices_arrive_example =
    local_devices_arrive (λ m ctx. m) 1000 direct direct-Delivers one_disk keep_devices [] new_store
      [] one_disk-IsFiled (refl, tt) one_disk-IsProper one_disk-small
