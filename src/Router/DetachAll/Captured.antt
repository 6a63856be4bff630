-- ===== src/Router/DetachAll/Captured.antt =====
-- volumeDetachAll of api/server/router/volume/volume_routes.go: whose name a reply goes under.
use libstorage.Base.{
  ◌≡◌, ◌≢◌, refl, ◌∙◌, sym, ap, ◌++◌, [], ◌∷◌, Option, none, some, List, Text, arith, text_eq,
  text_beq_iff,
}
use libstorage.Base.Dict.{get, put, get-put}
use libstorage.Types.Models.{VolumeMap}
use libstorage.Router.{StorageService, OnVolume, Request}
use libstorage.Router.DetachAll.{Reply, detach_services, detach_service, note_service}

module _ {S : Type 0} where
  -- All runs see one name.
  abbrev pub AllSee : Text → List (StorageService S × Text) → Type 0
  AllSee n [] = Unit
  AllSee n ((svc, seen) ∷ svcs) = (seen ≡ n) × AllSee n svcs

  -- Each run sees the name of its own service.
  abbrev pub EachSeesOwn : List (StorageService S × Text) → Type 0
  EachSeesOwn [] = Unit
  EachSeesOwn ((svc, seen) ∷ svcs) = (seen ≡ svc.name) × EachSeesOwn svcs

get-note_service :
    (seen : Text) (m : VolumeMap) (reply : Reply) (k : Text)
    → seen ≢ k
    → get (note_service seen m reply) k ≡ get reply k
get-note_service seen [] reply k ne = refl
get-note_service seen (e ∷ m) reply k ne =
    ground (arith, get-put reply seen k (e ∷ m), text_beq_iff seen k)

-- The entry for a map, which only a map with a volume gets.
abbrev pub entry : VolumeMap → Option VolumeMap
entry [] = none
entry (e ∷ m) = some (e ∷ m)

noted :
    (k : Text) (m : VolumeMap) (reply : Reply)
    → get reply k ≡ none
    → get (note_service k m reply) k ≡ entry m
unfolding get put
noted k [] reply h = h
noted k (e ∷ m) reply h = ground (arith, get-put reply k k (e ∷ m), text_beq_iff k k)

module _ {S : Type 0} where
  abbrev Unseen : Text → List (StorageService S × Text) → Type 0
  Unseen k [] = Unit
  Unseen k ((svc, seen) ∷ svcs) = (seen ≢ k) × Unseen k svcs

  AllSee-Unseen :
      (last k : Text) (svcs : List (StorageService S × Text))
      → AllSee last svcs
      → last ≢ k
      → Unseen k svcs
  AllSee-Unseen last k [] h ne = tt
  AllSee-Unseen last k ((svc, seen) ∷ svcs) (e, h) ne =
      ((λ d. ne (sym e ∙ d)), AllSee-Unseen last k svcs h ne)

  -- No service of the list has the name `k`.
  abbrev pub Unnamed : Text → List (StorageService S × Text) → Type 0
  Unnamed k [] = Unit
  Unnamed k ((svc, seen) ∷ svcs) = (svc.name ≢ k) × Unnamed k svcs

  own-Unseen :
      (k : Text) (svcs : List (StorageService S × Text))
      → EachSeesOwn svcs
      → Unnamed k svcs
      → Unseen k svcs
  own-Unseen k [] h n = tt
  own-Unseen k ((svc, seen) ∷ svcs) (e, h) (ne, n) = ((λ d. ne (sym e ∙ d)), own-Unseen k svcs h n)

module _ {S : Type 0} (hook : OnVolume S) (rq : Request) where
  get-Unseen :
      (svcs : List (StorageService S × Text)) (reply : Reply) (k : Text) (s : S)
      → Unseen k svcs
      → get (detach_services hook rq svcs reply s).0.1 k ≡ get reply k
  unfolding detach_services
  get-Unseen [] reply k s h = refl
  get-Unseen ((svc, seen) ∷ svcs) reply k s (ne, h) =
      get-Unseen svcs _ k _ h
      ∙ get-note_service seen (detach_service hook rq svc seen s).0.1 reply k ne

  -- If all runs start after the loop over the services has ended, so that all see the name `last`,
  -- then the reply has no entry under any other name, whatever was detached.
  pub detach_services_captured :
      (svcs : List (StorageService S × Text)) (last k : Text) (s : S)
      → AllSee last svcs
      → last ≢ k
      → get (detach_services hook rq svcs [] s).0.1 k ≡ none
  detach_services_captured svcs last k s h ne =
      get-Unseen svcs [] k s (AllSee-Unseen last k svcs h ne) ∙ (unfold get in refl)

  detach_services-append :
      (before svcs : List (StorageService S × Text)) (reply : Reply) (s : S)
      → (detach_services hook rq (before ++ svcs) reply s).0.1
        ≡ (detach_services hook rq svcs
            (detach_services hook rq before reply s).0.1
            (detach_services hook rq before reply s).1).0.1
  unfolding detach_services
  detach_services-append [] svcs reply s = refl
  detach_services-append ((svc, seen) ∷ before) svcs reply s =
      detach_services-append before svcs _ _

  -- If each run sees the name of its own service, and no other service has the name of the service `svc`, which
  -- stands anywhere among the services: the reply has under this name what the run for `svc` detaches in the
  -- state that the runs before it leave, and no entry if that is nothing.
  pub detach_services_own :
      (before : List (StorageService S × Text)) (svc : StorageService S)
      (behind : List (StorageService S × Text)) (s : S)
      → EachSeesOwn before
      → Unnamed svc.name before
      → EachSeesOwn behind
      → Unnamed svc.name behind
      → let s' = (detach_services hook rq before [] s).1 in
        get (detach_services hook rq (before ++ (svc, svc.name) ∷ behind) [] s).0.1 svc.name
        ≡ entry (detach_service hook rq svc svc.name s').0.1
  unfolding detach_services get
  detach_services_own before svc behind s own unnamed own' unnamed' =
      let run = detach_services hook rq before [] s in
      let absent : get run.0.1 svc.name ≡ none =
        get-Unseen before [] svc.name s (own-Unseen svc.name before own unnamed) in
      ap (λ r. get r svc.name) (detach_services-append before ((svc, svc.name) ∷ behind) [] s)
      ∙ get-Unseen behind _ svc.name _ (own-Unseen svc.name behind own' unnamed')
      ∙ noted svc.name (detach_service hook rq svc svc.name run.1).0.1 run.0.1 absent
