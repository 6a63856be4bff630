-- ===== src/Client/Headers.antt =====
-- The headers of a request that tell the server of the client's instance IDs and local devices: httpDo of
-- api/client/client_http.go. `iid` and `iids` are what the context holds under InstanceIDKey and under
-- AllInstanceIDsKey, and likewise for local devices.
pub mod Sent
use libstorage.Base.{List, [], ◌∷◌, Bool, true, Option, none, some, Text, if◌then◌else◌, text_eq}
use libstorage.Base.Dict.{Dict, get, put, is_some}
use libstorage.Types.Models.{InstanceId}
use libstorage.Types.InstanceIds.{Base64}
use libstorage.Types.InstanceIds
use libstorage.Types.LocalDevices.{LocalDevices}
use libstorage.Types.LocalDevices

unfoldable pub note_text : Text → Dict Text Bool → Dict Text Bool
unfolding get put
note_text text hdrs = if is_some (get hdrs text) then hdrs else put text true hdrs

-- The loop over the instance IDs, whose texts are the keys of a map.
unfoldable pub unique_texts : Base64 → Dict Text InstanceId → Dict Text Bool → Dict Text Bool
unfolding get put note_text InstanceIds.marshal_text
unique_texts b64 [] hdrs = hdrs
unique_texts b64 ((service, iid) ∷ iids) hdrs =
    unique_texts b64 iids (note_text (InstanceIds.marshal_text b64 iid) hdrs)

unfoldable pub keys_of : Dict Text Bool → List Text
keys_of [] = []
keys_of ((text, seen) ∷ hdrs) = text ∷ keys_of hdrs

unfoldable pub instance_id_headers :
    Base64 → Option InstanceId → Option (Dict Text InstanceId) → List Text
unfolding unique_texts keys_of InstanceIds.marshal_text
instance_id_headers b64 (some iid) iids = InstanceIds.marshal_text b64 iid ∷ []
instance_id_headers b64 none none = []
instance_id_headers b64 none (some []) = []
instance_id_headers b64 none (some (e ∷ es)) = keys_of (unique_texts b64 (e ∷ es) [])

unfoldable pub texts_of : Dict Text LocalDevices → List Text
unfolding LocalDevices.marshal_text
texts_of [] = []
texts_of ((driver, lds) ∷ ldss) = LocalDevices.marshal_text lds ∷ texts_of ldss

unfoldable pub local_devices_headers :
    Option LocalDevices → Option (Dict Text LocalDevices) → List Text
unfolding texts_of LocalDevices.marshal_text
local_devices_headers (some lds) ldss = LocalDevices.marshal_text lds ∷ []
local_devices_headers none none = []
local_devices_headers none (some []) = []
local_devices_headers none (some (e ∷ es)) = texts_of (e ∷ es)
