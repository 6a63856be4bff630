-- ===== src/Types/LocalDevices/Tests.antt =====
-- Local devices at concrete inputs.
use libstorage.Base.{[], ◌∷◌, codes, ok, err, ◌≡◌, refl, arith, text_beq}
use libstorage.Base.Dict.{get}
use libstorage.Base.Order.{text_leb}
use libstorage.Types.LocalDevices.{
  LocalDevices, marshal_text, unmarshal_text, invalid_local_devices,
}
use libstorage.Types.LocalDevices.RoundTrip.{unmarshal_text-marshal_text, IsPrintable, IsWord}

abbrev two_devices : LocalDevices
two_devices = record {
  driver = codes "ebs";
  device_map = (codes "/dev/xvda", codes "vol-000") ∷ (codes "/dev/xvdb", codes "vol-001") ∷ [];
}

two_devices_text : marshal_text two_devices ≡ codes "ebs=/dev/xvda::vol-000,/dev/xvdb::vol-001"
unfolding marshal_text
two_devices_text = refl

no_pair : unmarshal_text (codes "ebs=vol-000") ≡ err invalid_local_devices
unfolding unmarshal_text
no_pair = refl

-- A value that is empty is read behind another pair only.
empty_value_refused : unmarshal_text (codes "ebs=/dev/xvda::") ≡ err invalid_local_devices
unfolding unmarshal_text
empty_value_refused = refl

two_devices-IsPrintable : IsPrintable two_devices
unfolding get text_leb text_beq
two_devices-IsPrintable = record {
  named = refl;
  driver_bytes = omega arith;
  pairs = ((xvda, vol_0), ((xvdb, vol_1), tt));
  distinct = (refl, (refl, tt));
  ordered = (refl, (tt, tt));
}
  where
    xvda : IsWord (codes "/dev/xvda")
    xvda = record { some_byte = refl; plain = ground arith }

    vol_0 : IsWord (codes "vol-000")
    vol_0 = record { some_byte = refl; plain = ground arith }

    xvdb : IsWord (codes "/dev/xvdb")
    xvdb = record { some_byte = refl; plain = ground arith }

    vol_1 : IsWord (codes "vol-001")
    vol_1 = record { some_byte = refl; plain = ground arith }

unmarshal_text-marshal_text_example : unmarshal_text (marshal_text two_devices) ≡ ok two_devices
unmarshal_text-marshal_text_example =
    unmarshal_text-marshal_text two_devices two_devices-IsPrintable
