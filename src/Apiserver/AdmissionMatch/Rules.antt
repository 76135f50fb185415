-- ===== src/Apiserver/AdmissionMatch/Rules.antt =====
-- When the matcher of pkg/apiserver/admissionmatch.go answers that nothing acts on a write.
use spillway.Prelude.{
  ℕ, zero, suc, sym, ◌∙◌, ap, eqb, ◌≡◌, ◌↔◌, ◌⊎◌, ◌++◌, refl, true, false, some, List, [], ◌∷◌, all,
  Any, arith, ==_iff,
}
use spillway.Prelude.Text.{Text, bytes, text_key}
use spillway.Apiserver.AdmissionMatch.{
  Operation, OperationType, operation_type, operation_type_eq, type_number, operation_all,
  connect_type, create_type, update_type, delete_type, GroupVersionResource, Rule, Configuration,
  Lister, absent, failing, listing, AdmissionMatcher, contains_operation, contains,
  contains_resource, rule_matches, rules_match, webhooks_match, configurations_match,
  lister_matches, bindings_match, matches_write,
}

abbrev numbered : ℕ → OperationType
numbered zero = create_type
numbered (suc zero) = update_type
numbered (suc (suc zero)) = delete_type
numbered (suc (suc (suc zero))) = connect_type
numbered _ = operation_all

numbered-type_number : (a : OperationType) → numbered (type_number a) ≡ a
numbered-type_number create_type = refl
numbered-type_number update_type = refl
numbered-type_number delete_type = refl
numbered-type_number connect_type = refl
numbered-type_number operation_all = refl

eqb_same : (m n : ℕ) → eqb m n ≡ true → m ≡ n
eqb_same m n h = ground (arith, h)

operation_type_eq_iff : (a b : OperationType) → (operation_type_eq a b ≡ true) ↔ (a ≡ b)
operation_type_eq_iff a b = (
  λ h.
      sym (numbered-type_number a)
      ∙ ap numbered (eqb_same (type_number a) (type_number b) h)
      ∙ numbered-type_number b,
  λ e. rw e (ground arith),
)

-- The specification of a rule: it names the operation, the group, the version and the resource, or
-- has the wildcard in their place.
pub record Covers (gvr : GroupVersionResource) (operation : OperationType) (rule : Rule)
    : Type 0 where
  pub on_operation : Any (λ o. (o ≡ operation_all) ⊎ (o ≡ operation)) rule.operations
  pub on_group : Any (λ v. (v ≡ bytes "*") ⊎ (v ≡ gvr.group)) rule.api_groups
  pub on_version : Any (λ v. (v ≡ bytes "*") ⊎ (v ≡ gvr.version)) rule.api_versions
  pub on_resource :
      Any
        (λ v.
          (v ≡ bytes "*")
          ⊎ (v ≡ bytes "*/*")
          ⊎ (v ≡ gvr.resource)
          ⊎ (v ≡ gvr.resource ++ bytes "/*"))
        rule.resources

contains_operation_lem :
    (os : List OperationType) (wanted : OperationType)
    → (contains_operation os wanted ≡ true) ↔ Any (λ o. (o ≡ operation_all) ⊎ (o ≡ wanted)) os
unfolding contains_operation
contains_operation_lem [] wanted = ground arith
contains_operation_lem (o ∷ os) wanted = ground (
  arith,
  contains_operation_lem os wanted,
  operation_type_eq_iff o operation_all,
  operation_type_eq_iff o wanted,
)

contains_lem :
    (values : List Text) (wanted : Text)
    → (contains values wanted ≡ true) ↔ Any (λ v. (v ≡ bytes "*") ⊎ (v ≡ wanted)) values
unfolding contains
contains_lem [] wanted = ground arith
contains_lem (v ∷ values) wanted =
    ground (arith, contains_lem values wanted, ==_iff v (bytes "*"), ==_iff v wanted)

contains_resource_lem :
    (values : List Text) (wanted : Text)
    → (contains_resource values wanted ≡ true)
      ↔ Any
          (λ v. (v ≡ bytes "*") ⊎ (v ≡ bytes "*/*") ⊎ (v ≡ wanted) ⊎ (v ≡ wanted ++ bytes "/*"))
          values
unfolding contains_resource
contains_resource_lem [] wanted = ground arith
contains_resource_lem (v ∷ values) wanted = ground (
  arith,
  contains_resource_lem values wanted,
  ==_iff v (bytes "*"),
  ==_iff v (bytes "*/*"),
  ==_iff v wanted,
  ==_iff v (wanted ++ bytes "/*"),
)

rule_matches-Covers :
    (rule : Rule) (gvr : GroupVersionResource) (operation : OperationType)
    → (rule_matches rule gvr operation ≡ true) ↔ Covers gvr operation rule
unfolding rule_matches
rule_matches-Covers rule gvr operation =
    let o = contains_operation_lem rule.operations operation in
    let g = contains_lem rule.api_groups gvr.group in
    let v = contains_lem rule.api_versions gvr.version in
    let r = contains_resource_lem rule.resources gvr.resource in
    (
      λ h. record {
        on_operation = o.0 (ground (arith, h));
        on_group = g.0 (ground (arith, h));
        on_version = v.0 (ground (arith, h));
        on_resource = r.0 (ground (arith, h));
      },
      λ c. ground (arith, o.1 c.on_operation, g.1 c.on_group, v.1 c.on_version, r.1 c.on_resource),
    )

-- Some rule of some webhook of some configuration covers the write.
abbrev pub SomeRule : GroupVersionResource → OperationType → List Configuration → Type 0
SomeRule gvr operation configurations = Any (Any (Any (Covers gvr operation))) configurations

rules_match_lem :
    (rules : List Rule) (gvr : GroupVersionResource) (operation : OperationType)
    → (rules_match rules gvr operation ≡ true) ↔ Any (Covers gvr operation) rules
unfolding rules_match
rules_match_lem [] gvr operation = ground arith
rules_match_lem (rule ∷ rest) gvr operation =
    ground (arith, rules_match_lem rest gvr operation, rule_matches-Covers rule gvr operation)

webhooks_match_lem :
    (webhooks : Configuration) (gvr : GroupVersionResource) (operation : OperationType)
    → (webhooks_match webhooks gvr operation ≡ true) ↔ Any (Any (Covers gvr operation)) webhooks
unfolding webhooks_match
webhooks_match_lem [] gvr operation = ground arith
webhooks_match_lem (webhook ∷ rest) gvr operation =
    ground (arith, webhooks_match_lem rest gvr operation, rules_match_lem webhook gvr operation)

configurations_match_lem :
    (cs : List Configuration) (gvr : GroupVersionResource) (operation : OperationType)
    → (configurations_match cs gvr operation ≡ true) ↔ SomeRule gvr operation cs
unfolding configurations_match
configurations_match_lem [] gvr operation = ground arith
configurations_match_lem (c ∷ rest) gvr operation =
    ground (arith, configurations_match_lem rest gvr operation, webhooks_match_lem c gvr operation)

-- What a lister holds back, and that it is nil or lists nothing that covers the write.
abbrev pub Silent : GroupVersionResource → OperationType → Lister Configuration → Type 0
Silent gvr operation absent = Unit
Silent gvr operation failing = ⊥
Silent gvr operation (listing configurations) = SomeRule gvr operation configurations → ⊥

abbrev pub IsUnbound : Lister Text → Type 0
IsUnbound absent = Unit
IsUnbound failing = ⊥
IsUnbound (listing bindings) = bindings ≡ []

lister_matches-Silent :
    (lister : Lister Configuration) (gvr : GroupVersionResource) (operation : OperationType)
    → (lister_matches lister gvr operation ≡ false) ↔ Silent gvr operation lister
unfolding lister_matches
lister_matches-Silent absent gvr operation = ground arith
lister_matches-Silent failing gvr operation = ground arith
lister_matches-Silent (listing cs) gvr operation =
    ground (arith, configurations_match_lem cs gvr operation)

bindings_match-IsUnbound :
    (bindings : Lister Text) → (bindings_match bindings ≡ false) ↔ IsUnbound bindings
bindings_match-IsUnbound absent = ground arith
bindings_match-IsUnbound failing = ground arith
bindings_match-IsUnbound (listing []) = ground arith
bindings_match-IsUnbound (listing (b ∷ bs)) = ground arith

-- The matcher answers that nothing acts on a write exactly when every cache has synced, no policy
-- is bound, and neither the mutating nor the validating webhooks have a rule that covers the write;
-- a lister that is there could be read.
pub matches_write-Silent :
    (m : AdmissionMatcher) (gvr : GroupVersionResource) (operation : Operation)
    → (matches_write (some m) gvr operation ≡ false) ↔ (
        (all (λ synced. synced) m.synced ≡ true)
        × IsUnbound m.bindings
        × Silent gvr (operation_type operation) m.mutating
        × Silent gvr (operation_type operation) m.validating)
unfolding matches_write
matches_write-Silent m gvr operation = ground (
  arith,
  bindings_match-IsUnbound m.bindings,
  lister_matches-Silent m.mutating gvr (operation_type operation),
  lister_matches-Silent m.validating gvr (operation_type operation),
)
