-- ===== src/Types/InstanceIds/Tests.antt =====
-- Instance IDs at concrete inputs.
use libstorage.Base.{[], ◌∷◌, codes, some, ok, err, ◌≡◌, refl, arith, text_beq}
use libstorage.Base.Dict.{get}
use libstorage.Base.Order.{text_leb}
use libstorage.Types.Models.{InstanceId}
use libstorage.Types.InstanceIds.{
  Base64, marshal_text, unmarshal_text, has_line_feed, invalid_instance_id, query_escape,
}
use libstorage.Types.InstanceIds.RoundTrip.{instance_id_read_back, IsPrintable}

abbrev plain_coding : Base64
plain_coding = record { encode = λ s. s; read = λ s. some s }

abbrev two_fields : InstanceId
two_fields = record {
  id = codes "i-7";
  driver = codes "ebs";
  service = codes "two";
  fields = (codes "region", codes "us,east") ∷ (codes "zone", codes "a&b") ∷ [];
  metadata = codes "m,n";
}

two_fields_text :
    marshal_text plain_coding two_fields ≡ codes "ebs:two=i-7,region=us%2Ceast&zone=a%26b,m,n"
unfolding marshal_text query_escape
two_fields_text = refl

no_id : unmarshal_text plain_coding (codes "ebs:two") ≡ err invalid_instance_id
unfolding unmarshal_text
no_id = refl

two_fields-IsPrintable : IsPrintable plain_coding two_fields
unfolding get text_leb text_beq has_line_feed
two_fields-IsPrintable = record {
  named = λ e. cc e;
  driver_bytes = (ground arith, ground arith);
  service_bytes = (ground arith, ground arith);
  id_bytes = ground arith;
  fields_bytes = ground arith;
  distinct = (refl, (refl, tt));
  ordered = (refl, (tt, tt));
  coded = (_, _, refl, refl, refl);
}

instance_id_read_back_example :
    unmarshal_text plain_coding (marshal_text plain_coding two_fields) ≡ ok two_fields
instance_id_read_back_example = instance_id_read_back plain_coding two_fields two_fields-IsPrintable
