-- ===== src/Client/Headers/Sent.antt =====
-- The texts of all instance IDs are among the headers that the client makes in api/client/client_http.go.
use libstorage.Base.{
  Bool, Bool-cases, List, [], ◌∷◌, true, Text, ◌≡◌, refl, inl, inr, ◌⊎◌, arith, All, In, text_eq,
  text_beq_iff,
}
use libstorage.Base.Dict.{is_some, Dict, get, put}
use libstorage.Types.Models.{InstanceId}
use libstorage.Types.InstanceIds.{Base64}
use libstorage.Types.InstanceIds
use libstorage.Client.Headers.{note_text, unique_texts, keys_of}

abbrev pub ids_in : Dict Text InstanceId → List InstanceId
ids_in [] = []
ids_in ((service, iid) ∷ m) = iid ∷ ids_in m

put-All :
    (P : Text → Type 0) (t : Text) (m : Dict Text Bool)
    → P t
    → All P (keys_of m)
    → All P (keys_of (put t true m))
unfolding put keys_of
put-All P t [] h hs = (h, tt)
put-All P t ((s, b) ∷ m) h hs = ground (arith, put-All P t m h)

put-In : (s t : Text) (m : Dict Text Bool) → In s (keys_of m) → In s (keys_of (put t true m))
unfolding put keys_of
put-In s t [] h = absurd h
put-In s t ((u, b) ∷ m) h = ground (arith, put-In s t m, text_beq_iff u t)

put-In_new : (t : Text) (m : Dict Text Bool) → In t (keys_of (put t true m))
unfolding put keys_of
put-In_new t [] = inl refl
put-In_new t ((u, b) ∷ m) = ground (arith, put-In_new t m)

get-In : (t : Text) (m : Dict Text Bool) → is_some (get m t) ≡ true → In t (keys_of m)
unfolding get keys_of
get-In t [] h = cc h
get-In t ((u, b) ∷ m) h = ground (arith, get-In t m, text_beq_iff u t)

-- A text that is there is not put again.
note-cases :
    (t : Text) (m : Dict Text Bool)
    → (In t (keys_of m) × (note_text t m ≡ m)) ⊎ (note_text t m ≡ put t true m)
unfolding note_text
note-cases t m = elim (Bool-cases (is_some (get m t))) [
  | inl there ↦ inl (get-In t m there, rw there)
  | inr absent ↦ inr (rw absent)
]

note-All :
    (P : Text → Type 0) (t : Text) (m : Dict Text Bool)
    → P t
    → All P (keys_of m)
    → All P (keys_of (note_text t m))
note-All P t m h hs = elim (note-cases t m) [
  | inl (there, same) ↦ rw same hs
  | inr e ↦ rw e (put-All P t m h hs)
]

note-In : (s t : Text) (m : Dict Text Bool) → In s (keys_of m) → In s (keys_of (note_text t m))
note-In s t m h = elim (note-cases t m) [
  | inl (there, same) ↦ rw same h
  | inr e ↦ rw e (put-In s t m h)
]

note-In_new : (t : Text) (m : Dict Text Bool) → In t (keys_of (note_text t m))
note-In_new t m = elim (note-cases t m) [
  | inl (there, same) ↦ rw same there
  | inr e ↦ rw e (put-In_new t m)
]

module _ (b64 : Base64) where
  pub unique_texts-All :
      (P : Text → Type 0) (ids : Dict Text InstanceId) (m : Dict Text Bool)
      → All (λ i. P (InstanceIds.marshal_text b64 i)) (ids_in ids)
      → All P (keys_of m)
      → All P (keys_of (unique_texts b64 ids m))
  unfolding unique_texts
  unique_texts-All P [] m h hs = hs
  unique_texts-All P ((service, i) ∷ ids) m (h, h') hs =
      unique_texts-All P ids (note_text (InstanceIds.marshal_text b64 i) m) h'
        (note-All P (InstanceIds.marshal_text b64 i) m h hs)

  unique_texts-In :
      (t : Text) (ids : Dict Text InstanceId) (m : Dict Text Bool)
      → In t (keys_of m)
      → In t (keys_of (unique_texts b64 ids m))
  unfolding unique_texts
  unique_texts-In t [] m h = h
  unique_texts-In t ((service, i) ∷ ids) m h =
      unique_texts-In t ids (note_text (InstanceIds.marshal_text b64 i) m)
        (note-In t (InstanceIds.marshal_text b64 i) m h)

  pub unique_texts-sent :
      (ids : Dict Text InstanceId) (m : Dict Text Bool)
      → All
          (λ i. In (InstanceIds.marshal_text b64 i) (keys_of (unique_texts b64 ids m)))
          (ids_in ids)
  unfolding unique_texts
  unique_texts-sent [] m = tt
  unique_texts-sent ((service, i) ∷ ids) m =
      let t = InstanceIds.marshal_text b64 i in
      (
        unique_texts-In t ids (note_text t m) (note-In_new t m),
        unique_texts-sent ids (note_text t m),
      )
