-- ===== src/Apiserver/Registrar/Tests.antt =====
-- A round of the registrar for one group version that is served and one that the cluster has.
use spillway.Prelude.{
  ◌≡◌, refl, Bool, true, false, none, some, List, [], ◌∷◌, arith, inl, inr, is_some, All, ◌&&◌,
  ==-refl,
}
use spillway.Prelude.Integers.{pos}
use spillway.Prelude.Text.{bytes, text_key, text_eq}
use spillway.Prelude.Maps.{Map, lookup, insert}
use spillway.Prelude.ListSets.{list_sets}
use spillway.Kcp.Api.{GroupVersion, group_version_key, group_version_eq, ApiGroup, ApiResource}
use spillway.Apiserver.Leader.{leads}
use spillway.Apiserver.ClusterApis.{
  ServiceReference, ApiServiceSpec, ApiService, foreign, foreign_groups, foreign_versions,
  routing_of, service_name,
}
use spillway.Apiserver.Registrar.{
  ApiServiceOptions, validate, create, delete, written, Round, merge, desired, ca_bundle, visit,
  visit_all, create_all,
}
use spillway.Apiserver.Registrar.Reconcile.{
  Registrar, reconcile, write_round, wanted_of, present_in,
}
use spillway.Apiserver.Registrar.Writes.{Sent, IsAsked, writes-write_round}
use spillway.Apiserver.Registrar.Options.{merge_converges}
use spillway.Apiserver.Registrar.Rounds.{
  writes-reconcile, lookup-wanted_of, serves_name, IsServedFor,
}

abbrev options : ApiServiceOptions
options = record {
  register = true;
  service_name = bytes "spillway";
  service_namespace = bytes "infra";
  service_port = pos 443;
  ca_bundle_file = [];
  insecure_skip_tls_verify = true;
  group_priority_minimum = 1000;
  version_priority = 15;
}

abbrev widgets : GroupVersion
widgets = record { group = bytes "example.com"; version = bytes "v1" }

abbrev apps : GroupVersion
apps = record { group = bytes "apps"; version = bytes "v1" }

abbrev served : Map GroupVersion (List ApiResource)
served = (widgets, []) ∷ (apps, []) ∷ []

-- Two specs are equal here if they are of the same group and version.
abbrev same_spec : ApiServiceSpec → ApiServiceSpec → Bool
same_spec a b = text_eq a.group b.group && text_eq a.version b.version

same_spec_refl : (s : ApiServiceSpec) → same_spec s s ≡ true
same_spec_refl s = ground (arith, ==-refl s.group, ==-refl s.version)

-- An APIService of an earlier round, whose group version is no longer served.
abbrev old : ApiService
old = desired options (record { group = bytes "gone.io"; version = bytes "v1" }) none

abbrev cluster_groups : List ApiGroup
cluster_groups =
    record {
      name = bytes "apps";
      versions = record { group_version = bytes "apps/v1"; version = bytes "v1" } ∷ [];
    }
    ∷ []

abbrev own : ServiceReference
own = record { name = bytes "spillway"; namespace = bytes "infra"; port = none }

abbrev registrar : Registrar
registrar = record { options = options; cluster = some own; warned = [] }

abbrev round : Round
round = record {
  leading = none;
  synced = true;
  resources = served;
  ca_file = none;
  cluster_groups = some cluster_groups;
  cluster_services = some (old ∷ []);
  existing = some (old ∷ []);
  answer = λ _. written;
}

code : Unit {0}
unfolding reconcile foreign foreign_groups foreign_versions routing_of desired ca_bundle wanted_of
    write_round visit visit_all create_all present_in lookup insert text_eq group_version_eq leads
    merge validate
code = tt

-- The round creates what is missing and withdraws what is not served; apps/v1 stays the cluster's.
sent :
    (reconcile same_spec registrar round).0.writes
    ≡ delete (service_name (record { group = bytes "gone.io"; version = bytes "v1" }))
      ∷ create (desired options widgets none)
      ∷ []
unfolding code
sent = refl

writes-write_round_example :
    IsAsked same_spec options
      ((service_name widgets, desired options widgets none) ∷ [])
      []
      (create (desired options widgets none))
unfolding code
writes-write_round_example =
    (writes-write_round same_spec options (λ _. written)
        ((service_name widgets, desired options widgets none) ∷ []) []
        (create (desired options widgets none))).0
      (inl refl)

writes-reconcile_example :
    Sent (create (desired options widgets none)) (reconcile same_spec registrar round).0.writes
unfolding code
writes-reconcile_example =
    (writes-reconcile same_spec registrar round (create (desired options widgets none))).1
      (refl, refl, (none, apps ∷ [], old ∷ [], refl, refl, refl, inr (inl (refl, refl))))

lookup-wanted_of_example :
    (is_some (lookup (bytes "v1.apps") (wanted_of options none (apps ∷ []) [] [] served).1)
      ≡ serves_name (apps ∷ []) (bytes "v1.apps") served)
    × All
        (IsServedFor options none (apps ∷ []) served)
        (wanted_of options none (apps ∷ []) [] [] served).1
lookup-wanted_of_example = lookup-wanted_of options none (apps ∷ []) [] served (bytes "v1.apps")

merge_converges_example :
    (merge same_spec
        (merge same_spec old (desired options widgets none)).0
        (desired options widgets none)
      ≡ ((merge same_spec old (desired options widgets none)).0, false))
    × ((merge same_spec old (desired options widgets none)).0.annotations ≡ old.annotations)
    × (lookup (bytes "team") (merge same_spec old (desired options widgets none)).0.labels
        ≡ lookup (bytes "team") old.labels)
unfolding text_eq
merge_converges_example =
    merge_converges same_spec old (desired options widgets none) (bytes "team") same_spec_refl refl
