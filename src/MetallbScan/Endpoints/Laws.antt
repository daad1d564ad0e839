-- ===== src/MetallbScan/Endpoints/Laws.antt =====
-- The endpoints of all services.
use monitoring_wo_webhooks.Prelude.{
  ◌≡◌, refl, String, Bool, false, Option, none, some, List, [], ◌∷◌, ◌++◌, ◌==◌, arith,
  if◌then◌else◌, Option-cases, inl, inr,
}
use monitoring_wo_webhooks.Runtime.{Session, ok, err, returned}
use monitoring_wo_webhooks.MetallbScan.Keys.{split-address_key}
use monitoring_wo_webhooks.MetallbScan.Pools.Peers.{Target, IsPlain, entry}
use monitoring_wo_webhooks.MetallbScan.Endpoints.{
  Reference, Address, EndpointApi, Ends, LbService, no_ends, is_pod_running, add_end, add_address,
  add_addresses, add_subsets, add_services, get_svc_end_points,
}

module _ (api : EndpointApi) where
  -- Whether a pod runs, of the pods that can be fetched.
  abbrev pub runs : Reference → Bool
  runs t = elim (api.phase t.namespace t.name) [ err e ↦ false | ok phase ↦ phase == "Running" ]

  abbrev pub IsFetched : Reference → Type 0
  IsFetched t = (phase : String) × (api.phase t.namespace t.name ≡ ok phase)

  -- Every address refers to something, and every pod that one refers to can be fetched.
  abbrev pub AllRefer : List Address → Type 0
  AllRefer [] = Unit {0}
  AllRefer (a ∷ more) = ((t : Reference) × (a.target ≡ some t) × IsFetched t) × AllRefer more

  abbrev pub AllSubsets : List (Option (List Address)) → Type 0
  AllSubsets [] = Unit {0}
  AllSubsets (none ∷ subs) = Unit {0}
  AllSubsets (some addresses ∷ subs) = AllRefer addresses × AllSubsets subs

  -- The endpoints of a list of addresses: one for each pod.
  abbrev pub ends_of : List Address → Ends → Ends
  ends_of [] es = es
  ends_of (a ∷ more) es = ends_of more (elim a.target [
    | none ↦ es
    | some t ↦ if t.kind == "Pod" then add_end a t (runs t) es else es
  ])

  -- Those of the subsets, if each has a list of addresses.
  abbrev pub all_ends : List (Option (List Address)) → Ends → Option Ends
  all_ends [] es = some es
  all_ends (none ∷ subs) es = none
  all_ends (some addresses ∷ subs) es = all_ends subs (ends_of addresses es)

  module _ {St : Type 0} where
    add_addresses_lem :
        (addresses : List Address) (es : Ends) (s : Session St)
        → AllRefer addresses
        → add_addresses api addresses es s ≡ returned (ok (ends_of addresses es)) s
    unfolding add_addresses add_address is_pod_running
    add_addresses_lem [] es s refer = refl
    add_addresses_lem (a ∷ more) es s ((t, to, (phase, fetched)), refer) =
        let next : Ends = if t.kind == "Pod" then add_end a t (runs t) es else es in
        ground (arith, add_addresses_lem more next s refer)

    add_subsets_lem :
        (subs : List (Option (List Address))) (es : Ends) (s : Session St)
        → AllSubsets subs
        → add_subsets api subs es s ≡ returned (ok (all_ends subs es)) s
    unfolding add_subsets
    add_subsets_lem [] es s refer = refl
    add_subsets_lem (none ∷ subs) es s refer = refl
    add_subsets_lem (some addresses ∷ subs) es s (here, refer) = ground (
      arith,
      add_addresses_lem addresses es s here,
      add_subsets_lem subs (ends_of addresses es) s refer,
    )

  -- A service with its address, and the subsets of its endpoints.
  abbrev pub Served : Type 0
  Served = Target × List (Option (List Address))

  abbrev pub AllServed : List Served → Type 0
  AllServed [] = Unit {0}
  AllServed ((t, subs) ∷ more) =
      IsPlain t
      × (api.endpoints t.0.namespace t.0.name ≡ ok subs)
      × AllSubsets subs
      × AllServed more

  abbrev pub keys_of : List Served → List String
  keys_of [] = []
  keys_of ((t, subs) ∷ more) = entry t ∷ keys_of more

  -- The services up to the end, or nothing if a subset has no list of addresses.
  abbrev pub services_of : List Served → List LbService → List LbService
  services_of [] done = done
  services_of (((svc, ip), subs) ∷ more) done = elim (all_ends subs no_ends) [
    | none ↦ []
    | some es ↦
        services_of more
          (done ++ record { name = svc.name; namespace = svc.namespace; lbip = ip; ends = es } ∷ [])
  ]

  module _ {St : Type 0} where
    add_services_lem :
        (served : List Served) (done : List LbService) (s : Session St)
        → AllServed served
        → add_services api (keys_of served) done s ≡ returned (ok (services_of served done)) s
    unfolding add_services
    add_services_lem [] done s all = refl
    add_services_lem (((svc, ip), subs) ∷ more) done s ((h, k, l), there, refer, all) =
        elim (Option-cases (all_ends subs no_ends)) [
          | inl lost ↦
              ground
                (arith, split-address_key svc ip h k l, there, add_subsets_lem subs no_ends s refer)
          | inr (es, kept) ↦
              let next : List LbService =
                done
                ++ record { name = svc.name; namespace = svc.namespace; lbip = ip; ends = es }
                  ∷ [] in
              ground (
                arith,
                split-address_key svc ip h k l,
                there,
                add_subsets_lem subs no_ends s refer,
                add_services_lem more next s all,
              )
        ]

    -- Where the endpoints of each service can be read, every address in them up to the first
    -- missing list refers to something, every pod referred to can be fetched, and no name and no
    -- address has a colon, the function returns without an error. If each subset has a list of
    -- addresses, it gives each service in its order with the name, the address, the node and the
    -- state of each of its pods. If one of them has none, it gives no service at all.
    pub get_svc_end_points_lem :
        (served : List Served) (s : Session St)
        → AllServed served
        → get_svc_end_points api (keys_of served) s ≡ returned (ok (services_of served [])) s
    unfolding get_svc_end_points
    get_svc_end_points_lem served s all = add_services_lem served [] s all
