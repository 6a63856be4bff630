-- ===== src/Handlers/Arrived.antt =====
-- What the client's headers, of api/client/client_http.go, give the handlers of api/server/handlers.
use libstorage.Base.{List, [], ◌∷◌, Option, none, some, Text, ok, ◌≡◌, All, In, text_eq}
use libstorage.Base.Dict.{Dict}
use libstorage.Types.Models.{InstanceId}
use libstorage.Types.InstanceIds.{Base64}
use libstorage.Types.InstanceIds
use libstorage.Client.Headers.Sent.{ids_in}
use libstorage.Handlers.Transport.{Transport}

-- The instance IDs that a context holds.
abbrev pub known : Option InstanceId → Option (Dict Text InstanceId) → List InstanceId
known (some iid) iids = iid ∷ []
known none none = []
known none (some iids) = ids_in iids

-- The same instance IDs, in any order and number.
abbrev pub HaveSame : List InstanceId → List InstanceId → Type 0
HaveSame is js = All (λ i. In i js) is × All (λ j. In j is) js

module _ (b64 : Base64) where
  -- A header that one of some instance IDs is read from.
  abbrev Gives : List InstanceId → Text → Type 0
  Gives js t = (i : InstanceId) × In i js × (InstanceIds.unmarshal_text b64 t ≡ ok i)
