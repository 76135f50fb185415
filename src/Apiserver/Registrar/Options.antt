-- ===== src/Apiserver/Registrar/Options.antt =====
-- The options and the merge of the registrar of pkg/apiserver/apiservices.go.
use spillway.Prelude.{
  ◌≡◌, refl, sym, ◌↔◌, inl, inr, Bool, true, false, ◌&&◌, ◌||◌, not, [], arith, ◌==◌, ==_iff,
  Bool-cases, subst,
}
use spillway.Prelude.Integers.{is_below_one}
use spillway.Prelude.Text.{Text, text_key, text_eq}
use spillway.Prelude.Maps.{Map, lookup, insert, lookup-insert}
use spillway.Kcp.Api.{group_version_key}
use spillway.Apiserver.ClusterApis.{ApiServiceSpec, ApiService}
use spillway.Apiserver.Registrar.{
  ApiServiceOptions, validate, is_managed, merge, managed_by_label, managed_by_value,
}

-- Options for registration pass exactly when the service is named, the port is positive, and one of
-- a CA bundle and skipping the verification is set, not both; without registration they always do.
pub validate_lem :
    (o : ApiServiceOptions)
    → (validate o ≡ []) ↔ (
        (o.register
          && ((o.service_name == [])
              || (o.service_namespace == [])
              || is_below_one o.service_port
              || ((o.ca_bundle_file == []) && not o.insecure_skip_tls_verify)
              || (not (o.ca_bundle_file == []) && o.insecure_skip_tls_verify)))
        ≡ false)
unfolding validate
validate_lem o = ground arith

is_managed_label :
    (labels : Map Text Text) (c : ApiService)
    → is_managed (record c { labels = insert managed_by_label managed_by_value labels }) ≡ true
unfolding text_eq
is_managed_label labels c =
    rw (lookup-insert managed_by_label managed_by_value labels managed_by_label) refl

abbrev labelled : (current wanted : ApiService) → ApiService
labelled current wanted = record current {
  spec = wanted.spec;
  labels = insert managed_by_label managed_by_value current.labels;
}

-- A second merge finds nothing to write: the first wrote the spec that is desired and the label.
-- It left the annotations and every other label as they were.
pub merge_converges :
    (semantic_equal : ApiServiceSpec → ApiServiceSpec → Bool) (current wanted : ApiService)
    (label : Text)
    → ((s : ApiServiceSpec) → semantic_equal s s ≡ true)
    → (label == managed_by_label) ≡ false
    → (merge semantic_equal (merge semantic_equal current wanted).0 wanted
        ≡ ((merge semantic_equal current wanted).0, false))
      × ((merge semantic_equal current wanted).0.annotations ≡ current.annotations)
      × (lookup label (merge semantic_equal current wanted).0.labels ≡ lookup label current.labels)
unfolding merge
merge_converges semantic_equal current wanted label same other =
    let Stays : ApiService × Bool → Type 0 = λ x.
      (merge semantic_equal x.0 wanted ≡ (x.0, false))
      × (x.0.annotations ≡ current.annotations)
      × (lookup label x.0.labels ≡ lookup label current.labels) in
    elim (Bool-cases (semantic_equal current.spec wanted.spec && is_managed current)) [
      | inl done ↦
          let e : merge semantic_equal current wanted ≡ (current, false) = rw done refl in
          subst Stays (sym e) (e, refl, refl)
      | inr todo ↦
          let e : merge semantic_equal current wanted ≡ (labelled current wanted, true) =
            rw todo refl in
          subst Stays (sym e) (
            rw
                (
                  same wanted.spec,
                  is_managed_label current.labels (record current { spec = wanted.spec }),
                )
                refl,
            refl,
            ground (
              arith,
              lookup-insert managed_by_label managed_by_value current.labels label,
              other,
              ==_iff managed_by_label label,
              ==_iff label managed_by_label,
            ),
          )
    ]
