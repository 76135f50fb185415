-- ===== src/Apiserver/Handler/Tests.antt =====
-- A workspace with one group, and one that has lost it.
use spillway.Prelude.{◌≡◌, refl, true, Option, none, some, List, [], ◌∷◌, map}
use spillway.Prelude.Text.{Text, bytes, text_key, text_eq, has_prefix, contains_byte}
use spillway.Prelude.Maps.{Map, lookup, insert, erase}
use spillway.Prelude.ListSets.{list_sets}
use spillway.Kcp.Api.{GroupVersion, group_version_eq, ApiGroup, ApiResource}
use spillway.Kcp.Discovery.{Snapshot, empty_snapshot}
use spillway.Apiserver.Paths.{split}
use spillway.Apiserver.Handler.{
  cut_slash, trim_prefix, group_document, version_document, not_implemented, DiscoveryHandler,
  serve_group, serve_version, serve_cut, serve_under_group, serve_group_path, serve_path,
}
use spillway.Apiserver.Handler.Proxied.{IsUnder, serve_path-IsUnder}
use spillway.Apiserver.Handler.Publish.{
  gather, gather_all, discovered, aggregated_version, withdraw, add_versions, add_groups_of,
  keys_of, publish,
}
use spillway.Apiserver.Handler.Listed.{list_all, publish_all, IsInStep-publish_all}
use spillway.Apiserver.Handler.Aggregated.{
  parent_names, subresources_of, outline, outline_of, outline-aggregated_version,
}

abbrev resource_named : Text → ApiResource
resource_named name = record {
  name = name;
  singular_name = [];
  namespaced = true;
  group = [];
  version = [];
  kind = bytes "Widget";
  verbs = [];
  short_names = [];
  categories = [];
}

abbrev gv : GroupVersion
gv = record { group = bytes "e.com"; version = bytes "v1" }

abbrev widgets : List ApiResource
widgets = resource_named (bytes "widgets/status") ∷ resource_named (bytes "widgets") ∷ []

abbrev example : ApiGroup
example = record {
  name = bytes "e.com";
  versions = record { group_version = bytes "e.com/v1"; version = bytes "v1" } ∷ [];
}

abbrev snapshot : Snapshot
snapshot = record { groups = (bytes "e.com", example) ∷ []; resources = (gv, widgets) ∷ [] }

abbrev handler : DiscoveryHandler
handler = record { owns = none; snapshot = snapshot; proxy = some (λ group. some 7) }

code : Unit {0}
unfolding text_eq has_prefix contains_byte lookup insert erase group_version_eq split cut_slash
    trim_prefix serve_group serve_version serve_cut serve_under_group serve_group_path serve_path
    gather gather_all discovered aggregated_version withdraw add_versions add_groups_of keys_of
    publish list_all publish_all parent_names subresources_of
code = tt

documents :
    (serve_path handler (bytes "/apis/e.com") ≡ group_document example)
    × (serve_path handler (bytes "/apis/e.com/v1") ≡ version_document gv widgets)
unfolding code
documents = (refl, refl)

refuses :
    serve_path (record handler { proxy = none }) (bytes "/apis/e.com/v1/namespaces/n/widgets/w")
    ≡ not_implemented gv (bytes "widgets")
unfolding code
refuses = refl

serve_path-IsUnder_example : IsUnder handler (bytes "e.com/v1/widgets") (bytes "e.com") 7
unfolding code
serve_path-IsUnder_example =
    serve_path-IsUnder handler (bytes "e.com/v1/widgets") (bytes "e.com") 7 refl

abbrev parse : Text → Option GroupVersion
parse text = some gv

abbrev end : List Text × Map Text ApiGroup
end = publish_all parse true (snapshot ∷ empty_snapshot ∷ snapshot ∷ []) ([], [])

IsInStep-publish_all_example : lookup (bytes "e.com") end.1 ≡ some example
unfolding code
IsInStep-publish_all_example =
    (IsInStep-publish_all parse true (snapshot ∷ empty_snapshot ∷ snapshot ∷ []) empty_snapshot []
      [] (((refl, tt), (refl, tt)), ((tt, tt), (((refl, tt), (refl, tt)), tt))) (λ g. (refl, refl))
      (bytes "e.com")).1

outline-aggregated_version_example :
    map outline (aggregated_version gv widgets).resources
    ≡ map (outline_of (λ name. subresources_of gv name widgets)) (parent_names widgets)
unfolding code
outline-aggregated_version_example = outline-aggregated_version gv widgets
