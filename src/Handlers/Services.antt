-- ===== src/Handlers/Services.antt =====
-- The instance IDs of a request, of api/server/handlers/handlers_instanceid.go.
use libstorage.Base.{
  List, [], ◌∷◌, Option, none, some, Text, ok, ◌≡◌, to_lower, text_eq, ◌==◌, if◌then◌else◌,
}
use libstorage.Base.Dict.{Dict, get}
use libstorage.Types.Models.{InstanceId}
use libstorage.Types.InstanceIds.{Base64}
use libstorage.Types.InstanceIds
use libstorage.Handlers.Headers.{ById, or_of_driver}

-- The instance IDs that the headers hold.
abbrev pub AreRead : Base64 → List Text → List InstanceId → Type 0
AreRead b64 [] [] = Unit
AreRead b64 [] (i ∷ is) = ⊥
AreRead b64 (h ∷ hs) [] = ⊥
AreRead b64 (h ∷ hs) (i ∷ is) = (InstanceIds.unmarshal_text b64 h ≡ ok i) × AreRead b64 hs is

abbrev pub or_earlier : Option InstanceId → Option InstanceId → Option InstanceId
or_earlier earlier none = earlier
or_earlier earlier (some i) = some i

abbrev pub for_service : Text → InstanceId → Text → Option InstanceId
for_service name i [] = none
for_service name i (c ∷ service) = if to_lower (c ∷ service) == name then some i else none

abbrev pub for_driver : Text → InstanceId → Text → Option InstanceId
for_driver name i [] = if to_lower i.driver == name then some i else none
for_driver name i (c ∷ service) = none

-- The last of some instance IDs that has the name of a service.
abbrev pub last_of_service : Text → Option InstanceId → List InstanceId → Option InstanceId
last_of_service name earlier [] = earlier
last_of_service name earlier (i ∷ is) =
    last_of_service name (or_earlier earlier (for_service name i i.service)) is

-- The last of those without a service that has the name of a driver.
abbrev pub last_of_driver : Text → Option InstanceId → List InstanceId → Option InstanceId
last_of_driver name earlier [] = earlier
last_of_driver name earlier (i ∷ is) =
    last_of_driver name (or_earlier earlier (for_driver name i i.service)) is

abbrev pub wanted_of : List InstanceId → Text → Option Text → Option InstanceId
wanted_of ids service none = none
wanted_of ids service (some driver) =
    or_earlier (last_of_driver driver none ids) (last_of_service service none ids)

-- What the loop over the headers has read.
abbrev Holds : ById → List InstanceId → ById → Type 0
Holds m ids m' =
    ((name : Text) → get m'.s2i name ≡ last_of_service name (get m.s2i name) ids)
    × ((name : Text) → get m'.d2i name ≡ last_of_driver name (get m.d2i name) ids)

abbrev chosen : ById → Text → Option Text → Option InstanceId
chosen m name none = none
chosen m name (some driver) = or_of_driver m driver (get m.s2i name)
