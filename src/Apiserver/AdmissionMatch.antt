-- ===== src/Apiserver/AdmissionMatch.antt =====
-- The matcher of pkg/apiserver/admissionmatch.go. A lister is what it answers at the moment.
pub mod Rules
mod Tests
use spillway.Prelude.{
  ℕ, eqb, Bool, true, false, ◌&&◌, ◌||◌, not, Option, none, some, List, [], ◌∷◌, ◌++◌, any, all,
  if◌then◌else◌, Comparable, ◌==◌,
}
use spillway.Prelude.Text.{Text, bytes, text_key}

-- admission.Operation
pub data Operation : Type 0 where
  create update delete connect : Operation

-- admissionregistrationv1.OperationType
pub data OperationType : Type 0 where
  create_type update_type delete_type connect_type operation_all : OperationType

pub record GroupVersionResource : Type 0 where
  pub group : Text
  pub version : Text
  pub resource : Text

-- The parts of a rule of a webhook that are read.
pub record Rule : Type 0 where
  pub operations : List OperationType
  pub api_groups : List Text
  pub api_versions : List Text
  pub resources : List Text

-- A webhook is its rules, and a configuration its webhooks.
abbrev pub Webhook : Type 0
Webhook = List Rule

abbrev pub Configuration : Type 0
Configuration = List Webhook

-- A lister that is nil, one that fails, and one that lists.
pub data Lister (A : Type 0) : Type 0 where
  absent failing : Lister A
  listing : List A → Lister A

pub record AdmissionMatcher : Type 0 where
  pub validating : Lister Configuration
  pub mutating : Lister Configuration
  pub bindings : Lister Text
  pub synced : List Bool

-- operationType(operation)
abbrev pub operation_type : Operation → OperationType
operation_type create = create_type
operation_type update = update_type
operation_type delete = delete_type
operation_type connect = operation_all

-- The strings of the type are told apart by their numbers here.
abbrev pub type_number : OperationType → ℕ
type_number create_type = 0
type_number update_type = 1
type_number delete_type = 2
type_number connect_type = 3
type_number operation_all = 4

abbrev pub operation_type_eq : OperationType → OperationType → Bool
operation_type_eq a b = eqb (type_number a) (type_number b)

-- containsOperation(operations, wanted)
unfoldable pub contains_operation : List OperationType → OperationType → Bool
contains_operation [] wanted = false
contains_operation (operation ∷ rest) wanted =
    operation_type_eq operation operation_all
    || operation_type_eq operation wanted
    || contains_operation rest wanted

-- contains(values, wanted)
unfoldable pub contains : List Text → Text → Bool
contains [] wanted = false
contains (value ∷ rest) wanted = value == bytes "*" || value == wanted || contains rest wanted

-- containsResource(resources, wanted)
unfoldable pub contains_resource : List Text → Text → Bool
contains_resource [] wanted = false
contains_resource (resource ∷ rest) wanted =
    resource == bytes "*"
    || resource == bytes "*/*"
    || resource == wanted
    || resource == wanted ++ bytes "/*"
    || contains_resource rest wanted

-- ruleMatches(rule, gvr, operation)
unfoldable pub rule_matches : Rule → GroupVersionResource → OperationType → Bool
rule_matches rule gvr operation =
    if not (contains_operation rule.operations operation)
    then false
    else if not (contains rule.api_groups gvr.group)
    then false
    else if not (contains rule.api_versions gvr.version)
    then false
    else contains_resource rule.resources gvr.resource

-- rulesMatch(rules, gvr, operation)
unfoldable pub rules_match : List Rule → GroupVersionResource → OperationType → Bool
rules_match [] gvr operation = false
rules_match (rule ∷ rest) gvr operation =
    rule_matches rule gvr operation || rules_match rest gvr operation

-- The loops of `matches` over the webhooks of a configuration and over the configurations.
unfoldable pub webhooks_match : Configuration → GroupVersionResource → OperationType → Bool
webhooks_match [] gvr operation = false
webhooks_match (webhook ∷ rest) gvr operation =
    rules_match webhook gvr operation || webhooks_match rest gvr operation

unfoldable pub configurations_match :
    List Configuration → GroupVersionResource → OperationType → Bool
configurations_match [] gvr operation = false
configurations_match (configuration ∷ rest) gvr operation =
    webhooks_match configuration gvr operation || configurations_match rest gvr operation

-- The answer for one lister of configurations, which an error decides as a match.
unfoldable pub lister_matches : Lister Configuration → GroupVersionResource → OperationType → Bool
lister_matches absent gvr operation = false
lister_matches failing gvr operation = true
lister_matches (listing configurations) gvr operation =
    configurations_match configurations gvr operation

abbrev pub bindings_match : Lister Text → Bool
bindings_match absent = false
bindings_match failing = true
bindings_match (listing []) = false
bindings_match (listing (_ ∷ _)) = true

-- m.matches(gvr, operation), with none for a nil matcher
unfoldable pub matches_write : Option AdmissionMatcher → GroupVersionResource → Operation → Bool
matches_write none gvr operation = true
matches_write (some m) gvr operation =
    if not (all (λ synced. synced) m.synced)
    then true
    else if bindings_match m.bindings
    then true
    else if lister_matches m.mutating gvr (operation_type operation)
    then true
    else lister_matches m.validating gvr (operation_type operation)
