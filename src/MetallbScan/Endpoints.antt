-- ===== src/MetallbScan/Endpoints.antt =====
-- `isPodRunning` and `GetSvcEndPoints` of internal/controller/metallbscan_controller.go.
pub mod Laws
use monitoring_wo_webhooks.Prelude.{
  String, ◌<>◌, Bool, Option, none, some, List, [], ◌∷◌, ◌++◌, ◌==◌, if◌then◌else◌,
}
use monitoring_wo_webhooks.Prelude.Text.{split}
use monitoring_wo_webhooks.Runtime.{
  Fallible, ok, err, M, returned, panicked, panic, pure, ◌>>=◌, ◌>>◌, at,
}

-- What an address refers to, and an address of a subset of endpoints.
pub record Reference : Type 0 where
  pub kind : String
  pub name : String
  pub namespace : String

pub record Address : Type 0 where
  pub ip : String
  pub node_name : Option String
  pub target : Option Reference

-- The endpoints of a service by namespace and name, as the addresses of their subsets, which may be
-- nil; and the phase of a pod by namespace and name.
pub record EndpointApi : Type 0 where
  pub endpoints : String → String → Fallible (List (Option (List Address)))
  pub phase : String → String → Fallible String

-- The lists `epName`, `epIP`, `epNode` and `epStatus`.
pub record Ends : Type 0 where
  pub names : List String
  pub ips : List String
  pub nodes : List (Option String)
  pub statuses : List Bool

pub record LbService : Type 0 where
  pub name : String
  pub namespace : String
  pub lbip : String
  pub ends : Ends

abbrev pub no_ends : Ends
no_ends = record { names = []; ips = []; nodes = []; statuses = [] }

unfoldable pub is_pod_running : Fallible String → Fallible Bool
is_pod_running (err e) = err e
is_pod_running (ok phase) = ok (phase == "Running")

abbrev pub add_end : Address → Reference → Bool → Ends → Ends
add_end a t running es = record {
  names = es.names ++ t.name ∷ [];
  ips = es.ips ++ a.ip ∷ [];
  nodes = es.nodes ++ a.node_name ∷ [];
  statuses = es.statuses ++ running ∷ [];
}

module _ (api : EndpointApi) {St : Type 0} where
  -- The kind is read through the pointer to the reference.
  unfoldable pub add_address : Address → Ends → M St (Fallible Ends)
  unfolding is_pod_running
  add_address a es = elim a.target [
    | none ↦ panic
    | some t ↦
        if t.kind == "Pod"
        then elim (is_pod_running (api.phase t.namespace t.name)) [
          | err e ↦ pure (err e)
          | ok running ↦ pure (ok (add_end a t running es))
        ]
        else pure (ok es)
  ]

  unfoldable pub add_addresses : List Address → Ends → M St (Fallible Ends)
  unfolding add_address
  add_addresses [] es = pure (ok es)
  add_addresses (a ∷ more) es =
      let rest : Ends → M St (Fallible Ends) = λ l. add_addresses more l in
      do r ← add_address a es; elim r [ err e ↦ pure (err e) | ok l ↦ rest l ]

  -- The loop over the subsets; `none` where one of them has no list of addresses.
  unfoldable pub add_subsets : List (Option (List Address)) → Ends → M St (Fallible (Option Ends))
  unfolding add_addresses
  add_subsets [] es = pure (ok (some es))
  add_subsets (none ∷ subs) es = pure (ok none)
  add_subsets (some addresses ∷ subs) es =
      let rest : Ends → M St (Fallible (Option Ends)) = λ l. add_subsets subs l in
      do r ← add_addresses addresses es; elim r [ err e ↦ pure (err e) | ok l ↦ rest l ]

  -- A subset without addresses ends the whole function, without services and without an error.
  unfoldable pub add_services : List String → List LbService → M St (Fallible (List LbService))
  unfolding add_subsets split
  add_services [] done = pure (ok done)
  add_services (svc ∷ svcs) done =
      let rest : List LbService → M St (Fallible (List LbService)) = λ l. add_services svcs l in
      do
        ns ← at (split b':' svc) 1
        name ← at (split b':' svc) 0
        elim (api.endpoints ns name) [
          | err e ↦ pure (err e)
          | ok subsets ↦ do
            r ← add_subsets subsets no_ends
            elim r [
              | err e ↦ pure (err e)
              | ok none ↦ pure (ok [])
              | ok (some es) ↦ do
                lbip ← at (split b':' svc) 2
                rest (done ++ record { name = name; namespace = ns; lbip = lbip; ends = es } ∷ [])
            ]
        ]

  unfoldable pub get_svc_end_points : List String → M St (Fallible (List LbService))
  unfolding add_services
  get_svc_end_points svcs = add_services svcs []
