-- ===== src/Apiserver/Registrar.antt =====
-- The registrar of pkg/apiserver/apiservices.go. The cluster, the workspaces and the leader election
-- are arguments: what they answer during one round. equality.Semantic.DeepEqual is one too.
pub mod Reconcile
pub mod Writes
pub mod Options
pub mod Rounds
mod Tests
use spillway.Prelude.{
  ℕ, ◌+◌, ◌++◌, Bool, true, false, ◌&&◌, ◌||◌, not, Option, none, some, List, [], ◌∷◌,
  if◌then◌else◌, eqb, length, is_some, Result, ok, err, Comparable, ◌==◌,
}
use spillway.Prelude.Integers.{ℤ, is_below_one}
use spillway.Prelude.Text.{Text, bytes, text_key}
use spillway.Prelude.Maps.{Map, lookup, insert}
use spillway.Prelude.Sets.{Sets}
use spillway.Kcp.Api.{GroupVersion, group_version_key, ApiGroup, ApiResource}
use spillway.Kcp.Metrics.{Metric, observe_api_service_sync}
use spillway.Apiserver.ClusterApis.{
  ServiceReference, ApiServiceSpec, ApiService, ClusterError, service_name, foreign,
}
use spillway.Apiserver.Leader.{leads}

abbrev pub managed_by_label : Text
managed_by_label = bytes "app.kubernetes.io/managed-by"

abbrev pub managed_by_value : Text
managed_by_value = bytes "spillway"

pub record ApiServiceOptions : Type 0 where
  pub register : Bool
  pub service_name : Text
  pub service_namespace : Text
  pub service_port : ℤ
  pub ca_bundle_file : Text
  pub insecure_skip_tls_verify : Bool
  pub group_priority_minimum : ℕ
  pub version_priority : ℕ

pub data OptionError : Type 0 where
  service_name_required service_namespace_required : OptionError
  port_not_positive : ℤ → OptionError
  trust_required trust_twice : OptionError

-- o.Validate()
unfoldable pub validate : ApiServiceOptions → List OptionError
validate o =
    if not o.register
    then []
    else (if o.service_name == [] then service_name_required ∷ [] else [])
      ++ (if o.service_namespace == [] then service_namespace_required ∷ [] else [])
      ++ (if is_below_one o.service_port then port_not_positive o.service_port ∷ [] else [])
      ++ (if o.ca_bundle_file == [] && not o.insecure_skip_tls_verify
          then trust_required ∷ []
          else [])
      ++ (if not (o.ca_bundle_file == []) && o.insecure_skip_tls_verify
          then trust_twice ∷ []
          else [])

-- The answers of the API server to a write.
pub data WriteAnswer : Type 0 where
  written not_found already_exists refused : WriteAnswer

abbrev pub is_written : WriteAnswer → Bool
is_written written = true
is_written _ = false

abbrev pub is_not_found : WriteAnswer → Bool
is_not_found not_found = true
is_not_found _ = false

abbrev pub is_already_exists : WriteAnswer → Bool
is_already_exists already_exists = true
is_already_exists _ = false

pub data Write : Type 0 where
  update create : ApiService → Write
  delete : (name : Text) → Write

pub data RegistrarError : Type 0 where
  reading_ca_bundle listing : RegistrarError
  checking_cluster : ClusterError → RegistrarError
  updating deleting creating : (name : Text) → RegistrarError

-- What a round finds outside.
pub record Round : Type 0 where
  pub leading : Option Bool
  pub synced : Bool
  pub resources : Map GroupVersion (List ApiResource)
  pub ca_file : Option Text
  pub cluster_groups : Option (List ApiGroup)
  pub cluster_services : Option (List ApiService)
  pub existing : Option (List ApiService)
  pub answer : Write → WriteAnswer

-- The counters and lists that the loops fill: `mine`, `errs`, and the writes that were sent.
pub record Tally : Type 0 where
  pub mine : ℕ
  pub errs : List RegistrarError
  pub writes : List Write

abbrev or_empty : Option Text → Text
or_empty none = []
or_empty (some text) = text

-- current.Labels[managedByLabel] == managedByValue
abbrev pub is_managed : ApiService → Bool
is_managed current = or_empty (lookup managed_by_label current.labels) == managed_by_value

-- r.owns(service)
abbrev pub owns : ApiServiceOptions → ApiService → Bool
owns o service = elim service.spec.service [
  | none ↦ false
  | some reference ↦ reference.name == o.service_name && reference.namespace == o.service_namespace
]

-- r.caBundle()
unfoldable pub ca_bundle :
    ApiServiceOptions → (file : Option Text) → Result RegistrarError (Option Text)
ca_bundle o file =
    if o.ca_bundle_file == []
    then ok none
    else elim file [ none ↦ err reading_ca_bundle | some bundle ↦ ok (some bundle) ]

-- r.desired(gv, caBundle)
unfoldable pub desired : ApiServiceOptions → GroupVersion → Option Text → ApiService
desired o gv bundle = record {
  name = service_name gv;
  labels = (managed_by_label, managed_by_value) ∷ [];
  annotations = [];
  spec = record {
    service = some (record {
      name = o.service_name;
      namespace = o.service_namespace;
      port = some o.service_port;
    });
    group = gv.group;
    version = gv.version;
    insecure_skip_tls_verify = o.insecure_skip_tls_verify;
    ca_bundle = bundle;
    group_priority_minimum = o.group_priority_minimum;
    version_priority = o.version_priority;
  };
}

module _ (semantic_equal : ApiServiceSpec → ApiServiceSpec → Bool) where
  -- merge(current, desired)
  unfoldable pub merge : (current desired : ApiService) → ApiService × Bool
  merge current desired =
      if semantic_equal current.spec desired.spec && is_managed current then (current, false) else (
        record current {
          spec = desired.spec;
          labels = insert managed_by_label managed_by_value current.labels;
        },
        true,
      )

  module _ (o : ApiServiceOptions) (answer : Write → WriteAnswer) where
    abbrev pub update_one : ApiService → Bool → Tally → Tally
    update_one updated false t = record t { mine = t.mine + 1 }
    update_one updated true t = record t {
      mine = t.mine + 1;
      writes = t.writes ++ update updated ∷ [];
      errs =
          if is_written (answer (update updated))
          then t.errs
          else t.errs ++ updating updated.name ∷ [];
    }

    abbrev pub delete_one : Text → Tally → Tally
    delete_one name t = record t {
      writes = t.writes ++ delete name ∷ [];
      errs =
          if is_written (answer (delete name)) || is_not_found (answer (delete name))
          then t.errs
          else t.errs ++ deleting name ∷ [];
    }

    -- The body of the loop over the APIServices that exist.
    unfoldable pub visit : (wanted : Option ApiService) (current : ApiService) → Tally → Tally
    visit none current t =
        if is_managed current && owns o current then delete_one current.name t else t
    visit (some wanted) current t =
        if is_managed current
        then update_one (merge current wanted).0 (merge current wanted).1 t
        else t

    unfoldable pub visit_all : Map Text ApiService → List ApiService → Tally → Tally
    visit_all wanted [] t = t
    visit_all wanted (current ∷ rest) t =
        visit_all wanted rest (visit (lookup current.name wanted) current t)

    abbrev pub create_one : (name : Text) → ApiService → Tally → Tally
    create_one name service t =
        let arrived =
          (is_written (answer (create service)) || is_already_exists (answer (create service))) in
        record t {
          mine = if arrived then t.mine + 1 else t.mine;
          writes = t.writes ++ create service ∷ [];
          errs = if arrived then t.errs else t.errs ++ creating name ∷ [];
        }

    -- The loop over `wanted`, for the names that the loop before did not see.
    unfoldable pub create_all : (present : Text → Bool) → Map Text ApiService → Tally → Tally
    create_all present [] t = t
    create_all present ((name, service) ∷ rest) t =
        create_all present rest (if present name then t else create_one name service t)
