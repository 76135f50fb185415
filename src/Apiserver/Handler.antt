-- ===== src/Apiserver/Handler.antt =====
-- `discoveryHandler` of pkg/apiserver/discovery.go: which document or handler answers a path under
-- /apis/, and what is published in the server's discovery documents.
pub mod Proxied
pub mod Publish
pub mod Listed
pub mod Aggregated
mod Tests
use spillway.Prelude.{
  ℕ, eqb, ltb, Bool, true, false, ◌&&◌, ◌||◌, not, Option, none, some, List, [], ◌∷◌, ◌++◌,
  if◌then◌else◌, Comparable, ◌==◌, length, drop,
}
use spillway.Prelude.Text.{Text, bytes, text_key, has_prefix}
use spillway.Prelude.Maps.{Map, lookup}
use spillway.Kcp.Api.{GroupVersion, group_version_key, ApiGroup, ApiResource}
use spillway.Kcp.Discovery.{Snapshot}
use spillway.Apiserver.Paths.{split}

-- strings.Cut(s, "/"): what stands before the first slash, what stands after it, and whether there
-- is one.
pub record Cut : Type 0 where
  pub before : Text
  pub after : Text
  pub found : Bool

unfoldable pub cut_slash : Text → Cut
cut_slash [] = record { before = []; after = []; found = false }
cut_slash (c ∷ s) =
    let rest = cut_slash s in
    if eqb c b'/'
    then record { before = []; after = s; found = true }
    else record rest { before = c ∷ rest.before }

-- strings.TrimPrefix(s, p)
unfoldable pub trim_prefix : Text → (prefix : Text) → Text
trim_prefix s prefix = if has_prefix s prefix then drop (length prefix) s else s

-- What answers a request.
pub data Answer : Type 0 where
  group_not_found : (group : Text) → Answer
  group_document : ApiGroup → Answer
  version_document : GroupVersion → List ApiResource → Answer
  not_implemented : GroupVersion → (resource : Text) → Answer
  proxied : (group : Text) → (address : ℕ) → Answer

-- What the handler reads of the server: the function `owns`, if there is one, the snapshot, and the
-- handlers of the proxies, by their addresses.
pub record DiscoveryHandler : Type 0 where
  pub owns : Option (Text → Bool)
  pub snapshot : Snapshot
  pub proxy : Option (Text → Option ℕ)

-- h.proxyTo(group)
abbrev pub proxy_to : DiscoveryHandler → Text → Option ℕ
proxy_to h group = elim h.proxy [ none ↦ none | some proxy ↦ proxy group ]

-- resourceFromPath(path), over the segments
abbrev pub resource_of : List Text → Text
resource_of [] = []
resource_of (first ∷ []) = first
resource_of (first ∷ second ∷ []) = first
resource_of (first ∷ second ∷ third ∷ rest) = if first == bytes "namespaces" then third else first

abbrev pub resource_from_path : Text → Text
resource_from_path path = resource_of (split path)

-- h.serveGroup(group, w, req)
unfoldable pub serve_group : DiscoveryHandler → Text → Answer
serve_group h group = elim (lookup group h.snapshot.groups) [
  | none ↦ group_not_found group
  | some api_group ↦ group_document api_group
]

-- The end of `serveUnderGroup`, for a version that the snapshot has.
unfoldable pub serve_version :
    DiscoveryHandler → GroupVersion → (rest : Text) → List ApiResource → Answer
serve_version h gv rest resources =
    if not (rest == [])
    then elim (proxy_to h gv.group) [
      | none ↦ not_implemented gv (resource_from_path rest)
      | some address ↦ proxied gv.group address
    ]
    else version_document gv resources

-- `serveUnderGroup` from the cut on.
unfoldable pub serve_cut : DiscoveryHandler → (group : Text) → Cut → Answer
serve_cut h group c =
    let gv : GroupVersion = record { group = group; version = c.before } in
    if c.before == [] then serve_group h group else elim (lookup gv h.snapshot.resources) [
      | none ↦ group_not_found group
      | some resources ↦ serve_version h gv c.after resources
    ]

-- h.serveUnderGroup(group, w, req), of the path
unfoldable pub serve_under_group : DiscoveryHandler → (group path : Text) → Answer
serve_under_group h group path =
    serve_cut h group (cut_slash (trim_prefix path (bytes "/apis/" ++ (group ++ bytes "/"))))

abbrev pub is_foreign : Option (Text → Bool) → Text → Bool
is_foreign none group = false
is_foreign (some owns) group = not (owns group)

-- `serve` from the cut on.
unfoldable pub serve_group_path : DiscoveryHandler → (path : Text) → Cut → Answer
serve_group_path h path c =
    if c.before == [] || is_foreign h.owns c.before
    then group_not_found c.before
    else if not c.found
    then serve_group h c.before
    else serve_under_group h c.before path

-- h.serve(w, req), of the path
unfoldable pub serve_path : DiscoveryHandler → (path : Text) → Answer
serve_path h path = serve_group_path h path (cut_slash (trim_prefix path (bytes "/apis/")))
