-- ===== src/Apiserver/Registrar/Reconcile.antt =====
-- One round of the registrar of pkg/apiserver/apiservices.go: `reconcile` and `sync`.
use spillway.Prelude.{
  Bool, not, Option, none, some, List, [], ◌∷◌, if◌then◌else◌, eqb, length, ok, err,
}
use spillway.Prelude.Text.{Text, bytes, text_key}
use spillway.Prelude.Maps.{Map, insert}
use spillway.Prelude.Sets.{Sets}
use spillway.Kcp.Api.{GroupVersion, group_version_key, ApiResource}
use spillway.Kcp.Metrics.{Metric, observe_api_service_sync}
use spillway.Apiserver.ClusterApis.{
  ServiceReference, ApiServiceSpec, ApiService, service_name, foreign,
}
use spillway.Apiserver.Leader.{leads}
use spillway.Apiserver.Registrar.{
  visit_all, create_all, ApiServiceOptions, WriteAnswer, Write, RegistrarError, Round, Tally,
  ca_bundle, desired, listing, checking_cluster,
}

module _ ⦃S : Sets Text⦄ ⦃G : Sets GroupVersion⦄ where
  pub record Registrar : Type 0 where
    pub options : ApiServiceOptions
    pub cluster : Option ServiceReference
    pub warned : G.Set

  -- The set `present` of the names of the APIServices that exist.
  unfoldable pub present_in : S.Set → List ApiService → S.Set
  present_in present [] = present
  present_in present (current ∷ rest) = present_in (S.insert present current.name) rest

  -- r.warnForeign(gv), without the log line
  abbrev pub warn_foreign : GroupVersion → G.Set → G.Set
  warn_foreign gv warned = if G.has warned gv then warned else G.insert warned gv

  -- The loop over the group versions that the workspaces serve: what is warned of, and what is
  -- wanted.
  unfoldable pub wanted_of :
      ApiServiceOptions
      → (bundle : Option Text) (foreign_ones warned : G.Set) → Map Text ApiService
      → Map GroupVersion (List ApiResource)
      → G.Set × Map Text ApiService
  wanted_of o bundle foreign_ones warned wanted [] = (warned, wanted)
  wanted_of o bundle foreign_ones warned wanted ((gv, _) ∷ rest) =
      if G.has foreign_ones gv
      then wanted_of o bundle foreign_ones (warn_foreign gv warned) wanted rest
      else wanted_of o bundle foreign_ones warned
          (insert (service_name gv) (desired o gv bundle) wanted) rest

  abbrev pub no_tally : Tally
  no_tally = record { mine = 0; errs = []; writes = [] }

  abbrev pub failed : RegistrarError → Tally
  failed e = record { mine = 0; errs = e ∷ []; writes = [] }

  module _ (semantic_equal : ApiServiceSpec → ApiServiceSpec → Bool) where
    -- What `reconcile` does with the list of the APIServices.
    unfoldable pub write_round :
        ApiServiceOptions → (Write → WriteAnswer) → Map Text ApiService → List ApiService → Tally
    unfolding visit_all create_all present_in
    write_round o answer wanted existing =
        create_all semantic_equal o answer (λ name. S.has (present_in S.empty existing) name) wanted
          (visit_all semantic_equal o answer wanted existing no_tally)

    -- r.reconcile(): what it counted, the errors it joins, the writes it sent, and the registrar
    -- after it.
    unfoldable pub reconcile : Registrar → Round → Tally × Registrar
    reconcile r round =
        if not (leads round.leading)
        then (no_tally, r)
        else if not round.synced
        then (no_tally, r)
        else elim (ca_bundle r.options round.ca_file) [
          | err e ↦ (failed e, r)
          | ok bundle ↦ elim (foreign r.cluster round.cluster_groups round.cluster_services) [
            | err e ↦ (failed (checking_cluster e), r)
            | ok foreign_ones ↦
                let (warned, wanted) =
                  wanted_of r.options bundle foreign_ones r.warned [] round.resources in
                let next = record r { warned = warned } in
                elim round.existing [
                  | none ↦ (failed listing, next)
                  | some existing ↦ (write_round r.options round.answer wanted existing, next)
                ]
          ]
        ]

    -- r.sync(), with the metrics it sets
    unfoldable pub sync : Registrar → Round → List RegistrarError × Registrar × List Metric
    unfolding reconcile observe_api_service_sync
    sync r round =
        let (tally, next) = reconcile r round in
        (
          tally.errs,
          next,
          observe_api_service_sync
              (if eqb (length tally.errs) 0 then bytes "success" else bytes "error") tally.mine,
        )
