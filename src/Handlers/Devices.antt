-- ===== src/Handlers/Devices.antt =====
-- The client's headers of local devices, of api/client/client_http.go, in the handler of
-- api/server/handlers/handlers_local_devices.go.
use libstorage.Base.{
  ℕ, ◌<◌, List, [], ◌∷◌, ◌++◌, append-nil, append_assoc, none, some, Text, ok, ◌≡◌, refl, sym, ap,
  ◌∙◌, All, text_eq, to_lower,
}
use libstorage.Base.Dict.{Dict, Distinct, put_fresh, fresh_of_Distinct}
use libstorage.Store.{KeyValueStore}
use libstorage.Types.LocalDevices.{LocalDevices}
use libstorage.Types.LocalDevices.RoundTrip.{IsPrintable, unmarshal_text-marshal_text}
use libstorage.Client.Headers.{texts_of, local_devices_headers}
use libstorage.Types.LocalDevices
use libstorage.Handlers.Transport.{Transport, IsFieldValue, Delivers, size_of}
use libstorage.Handlers.{ApiFunc}
use libstorage.Handlers.Headers.{read_local_devices, local_devices}

-- Local devices under the name of their driver in lower case.
abbrev pub IsFiled : Text × LocalDevices → Type 0
IsFiled e = (e.0 ≡ to_lower e.1.driver) × IsPrintable e.1

read_texts :
    (val_map ldss : Dict Text LocalDevices)
    → All IsFiled ldss
    → Distinct (val_map ++ ldss)
    → read_local_devices (texts_of ldss) val_map ≡ ok (val_map ++ ldss)
unfolding read_local_devices texts_of
read_texts val_map [] h d = ap ok (sym (append-nil val_map))
read_texts val_map ((driver, lds) ∷ ldss) ((named, p), h) d =
    rw
      (
        read_local_devices,
        unmarshal_text-marshal_text lds p,
        sym named,
        put_fresh val_map driver lds (fresh_of_Distinct val_map driver lds ldss d),
      )
      (read_texts (val_map ++ (driver, lds) ∷ []) ldss h (rw append_assoc d)
        ∙ ap ok (append_assoc val_map _ ldss))

abbrev pub IsProper : Text × LocalDevices → Type 0
IsProper e = IsFieldValue (LocalDevices.marshal_text e.1)

all_field_values :
    (ldss : Dict Text LocalDevices) → All IsProper ldss → All IsFieldValue (texts_of ldss)
unfolding texts_of
all_field_values [] h = tt
all_field_values ((driver, lds) ∷ ldss) (h, hs) = (h, all_field_values ldss hs)

headers_texts :
    (ldss : Dict Text LocalDevices) → local_devices_headers none (some ldss) ≡ texts_of ldss
unfolding local_devices_headers texts_of
headers_texts [] = refl
headers_texts (e ∷ es) = refl

module _ {C S : Type 0} (with_value : Dict Text LocalDevices → C → C) (limit : ℕ)
    (transport : Transport) (delivers : Delivers limit transport) where
  -- A client whose context has no local devices of its own but a map of `IsPrintable` ones, each under the name of its
  -- driver in lower case, whose texts are proper values of a header, sends a request with the headers it makes of
  -- them, which are not too large, over a transport that delivers such headers: the server's handler calls the next one with
  -- the same map.
  pub local_devices_arrive :
      (ldss : Dict Text LocalDevices) (handler : ApiFunc C S) (ctx : C) (store : KeyValueStore)
      (s : S)
      → All IsFiled ldss
      → Distinct ldss
      → All IsProper ldss
      → size_of (local_devices_headers none (some ldss)) < limit
      → (headers : List Text) × (transport (local_devices_headers none (some ldss)) ≡ some headers)
        × (local_devices with_value headers handler ctx store s
            ≡ handler (with_value ldss ctx) store s)
  local_devices_arrive ldss handler ctx store s h d proper small =
      let sent = texts_of ldss in
      rw (headers_texts ldss) (
        sent,
        delivers sent (all_field_values ldss proper) (rw (headers_texts ldss) at small),
        rw (read_texts [] ldss h d),
      )
