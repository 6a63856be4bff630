-- ===== src/Types/Transactions/Tests.antt =====
-- A transaction of api/types/types_tx.go, with the UUID of the comment in types_uuid.go.
use libstorage.Base.{◌≡◌, refl, ok, arith}
use libstorage.Base.Int.{pos}
use libstorage.Types.Uuids.{Uuid}
use libstorage.Types.Uuids.RoundTrip.{IsUuid}
use libstorage.Types.Transactions.{Transaction, marshal_text, unmarshal_text}
use libstorage.Types.Transactions.RoundTrip.{transaction_read_back}

abbrev sample : Uuid
sample = record {
  b0 = 107;
  b1 = 167;
  b2 = 184;
  b3 = 20;
  b4 = 157;
  b5 = 173;
  b6 = 17;
  b7 = 209;
  b8 = 128;
  b9 = 180;
  b10 = 0;
  b11 = 192;
  b12 = 79;
  b13 = 212;
  b14 = 48;
  b15 = 200;
}

abbrev request : Transaction
request = record { id = sample; created = record { unix = pos 1490000000; nanosecond = 5 } }

sample-IsUuid : IsUuid sample
sample-IsUuid = ground arith

transaction_read_back_example :
    unmarshal_text (marshal_text request)
    ≡ ok (record request { created = record request.created { nanosecond = 0 } })
transaction_read_back_example =
    transaction_read_back request 1490000000 sample-IsUuid refl (omega arith)
