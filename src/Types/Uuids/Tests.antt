-- ===== src/Types/Uuids/Tests.antt =====
-- The UUID of the comment in api/types/types_uuid.go.
use libstorage.Base.{◌≡◌, refl, nat_eq, codes}
use libstorage.Types.Uuids.{Uuid, marshal_text}

abbrev sample : Uuid
sample = record {
  b0 = 107;
  b1 = 167;
  b2 = 184;
  b3 = 20;
  b4 = 157;
  b5 = 173;
  b6 = 17;
  b7 = 209;
  b8 = 128;
  b9 = 180;
  b10 = 0;
  b11 = 192;
  b12 = 79;
  b13 = 212;
  b14 = 48;
  b15 = 200;
}

sample_text : marshal_text sample ≡ codes "6ba7b814-9dad-11d1-80b4-00c04fd430c8"
unfolding marshal_text
sample_text = refl
