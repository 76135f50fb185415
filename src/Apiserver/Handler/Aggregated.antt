-- ===== src/Apiserver/Handler/Aggregated.antt =====
-- The aggregated form of a version in pkg/apiserver/discovery.go against a direct description.
use mathlib.Core.List.{append-nil, append_assoc}
use spillway.Prelude.{
  ◌≡◌, ◌∙◌, refl, sym, ap, Bool, true, false, some, List, [], ◌∷◌, ◌++◌, map, if◌then◌else◌, ◌==◌,
  ==_iff, ==-refl, All, All-append, Bool-cases, inl, inr,
}
use spillway.Prelude.Text.{Text, text_key}
use spillway.Prelude.Maps.{Map, lookup, insert, lookup-insert}
use spillway.Kcp.Api.{GroupVersion, ApiResource}
use spillway.Apiserver.Handler.{cut_slash}
use spillway.Apiserver.Handler.Publish.{
  SubresourceDiscovery, ResourceDiscovery, Gathered, parent_of, subresource_of, list_at,
  list_of_missing, gather, gather_all, discovered, aggregated_version,
}

-- The names without a slash, in their order.
unfoldable pub parent_names : List ApiResource → List Text
parent_names [] = []
parent_names (resource ∷ rest) =
    let more = parent_names rest in
    if (cut_slash resource.name).found then more else (cut_slash resource.name).before ∷ more

-- What is listed as a name, a slash and something below, in its order.
unfoldable pub subresources_of :
    GroupVersion → (name : Text) → List ApiResource → List SubresourceDiscovery
subresources_of gv name [] = []
subresources_of gv name (resource ∷ rest) =
    let more = subresources_of gv name rest in
    if (cut_slash resource.name).found
    then if (cut_slash resource.name).before == name
      then subresource_of gv resource ∷ more
      else more
    else more

order-gather_all :
    (gv : GroupVersion) (resources : List ApiResource) (g : Gathered)
    → (gather_all gv resources g).order ≡ g.order ++ parent_names resources
unfolding gather_all gather parent_names
order-gather_all gv [] g = sym (append-nil g.order)
order-gather_all gv (resource ∷ rest) g = elim (Bool-cases (cut_slash resource.name).found) [
  | inl below ↦ rw below (order-gather_all gv rest (gather gv resource g) ∙ rw (below, gather) refl)
  | inr parent ↦ rw parent (
      order-gather_all gv rest (gather gv resource g)
      ∙ rw (parent, gather)
          (append_assoc g.order ((cut_slash resource.name).before ∷ []) (parent_names rest)))
]

list_at-insert :
    (name : Text) (values : List SubresourceDiscovery) (m : Map Text (List SubresourceDiscovery))
    (other : Text)
    → list_at other (insert name values m) ≡ (if name == other then values else list_at other m)
list_at-insert name values m other =
    ap list_of_missing (lookup-insert name values m other) ∙ chosen (name == other)
  where
    chosen :
        (b : Bool)
        → list_of_missing (if b then some values else lookup other m)
          ≡ (if b then values else list_at other m)
    chosen true = refl
    chosen false = refl

subresources-gather :
    (gv : GroupVersion) (resource : ApiResource) (g : Gathered) (name : Text)
    → list_at name (gather gv resource g).subresources
      ≡ list_at name g.subresources ++ subresources_of gv name (resource ∷ [])
unfolding gather subresources_of
subresources-gather gv resource g name = elim (Bool-cases (cut_slash resource.name).found) [
  | inr parent ↦ rw (parent, gather) (sym (append-nil (list_at name g.subresources)))
  | inl below ↦ elim (Bool-cases ((cut_slash resource.name).before == name)) [
    | inl same ↦
        rw
          (
            below,
            gather,
            list_at-insert (cut_slash resource.name).before
                (list_at (cut_slash resource.name).before g.subresources
                  ++ (subresource_of gv resource ∷ []))
                g.subresources name,
            same,
          )
          (ap (λ n. list_at n g.subresources ++ (subresource_of gv resource ∷ []))
            ((==_iff (cut_slash resource.name).before name).0 same))
    | inr apart ↦
        rw
          (
            below,
            gather,
            list_at-insert (cut_slash resource.name).before
                (list_at (cut_slash resource.name).before g.subresources
                  ++ (subresource_of gv resource ∷ []))
                g.subresources name,
            apart,
          )
          (sym (append-nil (list_at name g.subresources)))
  ]
]

subresources_of-cons :
    (gv : GroupVersion) (name : Text) (resource : ApiResource) (rest : List ApiResource)
    → subresources_of gv name (resource ∷ []) ++ subresources_of gv name rest
      ≡ subresources_of gv name (resource ∷ rest)
unfolding subresources_of
subresources_of-cons gv name resource rest = elim (Bool-cases (cut_slash resource.name).found) [
  | inr parent ↦ rw parent refl
  | inl below ↦ elim (Bool-cases ((cut_slash resource.name).before == name)) [
    | inl same ↦ rw (below, same) refl
    | inr apart ↦ rw (below, apart) refl
  ]
]

subresources-gather_all :
    (gv : GroupVersion) (resources : List ApiResource) (g : Gathered) (name : Text)
    → list_at name (gather_all gv resources g).subresources
      ≡ list_at name g.subresources ++ subresources_of gv name resources
unfolding gather_all subresources_of
subresources-gather_all gv [] g name = sym (append-nil (list_at name g.subresources))
subresources-gather_all gv (resource ∷ rest) g name =
    subresources-gather_all gv rest (gather gv resource g) name
    ∙ ap (λ l. l ++ subresources_of gv name rest) (subresources-gather gv resource g name)
    ∙ append_assoc (list_at name g.subresources) (subresources_of gv name (resource ∷ []))
        (subresources_of gv name rest)
    ∙ ap (λ l. list_at name g.subresources ++ l) (subresources_of-cons gv name resource rest)

-- A name that has a parent, which is of that name.
abbrev IsParented : Map Text ResourceDiscovery → Text → Type 0
IsParented parents name =
    (parent : ResourceDiscovery) × (lookup name parents ≡ some parent) × (parent.resource ≡ name)

IsParented-insert :
    (parents : Map Text ResourceDiscovery) (parent : ResourceDiscovery) (name : Text)
    → IsParented parents name
    → IsParented (insert parent.resource parent parents) name
IsParented-insert parents parent name (old, known, same) =
    elim (Bool-cases (parent.resource == name)) [
      | inl replaced ↦ (
        parent,
        lookup-insert parent.resource parent parents name ∙ rw replaced refl,
        (==_iff parent.resource name).0 replaced,
      )
      | inr other ↦ (old, lookup-insert parent.resource parent parents name ∙ rw other known, same)
    ]

IsParented-All :
    (parents : Map Text ResourceDiscovery) (parent : ResourceDiscovery) (names : List Text)
    → All (IsParented parents) names
    → All (IsParented (insert parent.resource parent parents)) names
IsParented-All parents parent [] _ = tt
IsParented-All parents parent (name ∷ rest) (p, more) =
    (IsParented-insert parents parent name p, IsParented-All parents parent rest more)

abbrev IsOrdered : Gathered → Type 0
IsOrdered g = All (IsParented g.parents) g.order

IsOrdered-gather :
    (gv : GroupVersion) (resource : ApiResource) (g : Gathered)
    → IsOrdered g
    → IsOrdered (gather gv resource g)
unfolding gather
IsOrdered-gather gv resource g ordered = elim (Bool-cases (cut_slash resource.name).found) [
  | inl below ↦ rw (below, gather) ordered
  | inr parent ↦
      rw (parent, gather)
        (All-append
          (IsParented (insert (parent_of gv resource).resource (parent_of gv resource) g.parents))
          g.order ((parent_of gv resource).resource ∷ [])
          (IsParented-All g.parents (parent_of gv resource) g.order ordered)
          (
            (
              parent_of gv resource,
              lookup-insert (parent_of gv resource).resource (parent_of gv resource) g.parents
                    (parent_of gv resource).resource
                  ∙ rw (==-refl (parent_of gv resource).resource) refl,
              refl,
            ),
            tt,
          ))
]

IsOrdered-gather_all :
    (gv : GroupVersion) (resources : List ApiResource) (g : Gathered)
    → IsOrdered g
    → IsOrdered (gather_all gv resources g)
unfolding gather_all
IsOrdered-gather_all gv [] g ordered = ordered
IsOrdered-gather_all gv (resource ∷ rest) g ordered =
    IsOrdered-gather_all gv rest (gather gv resource g) (IsOrdered-gather gv resource g ordered)

-- A resource by its name and what is below it.
abbrev pub outline : ResourceDiscovery → Text × List SubresourceDiscovery
outline r = (r.resource, r.subresources)

abbrev pub outline_of : (Text → List SubresourceDiscovery) → Text → Text × List SubresourceDiscovery
outline_of below name = (name, below name)

outline-discovered :
    (g : Gathered) (names : List Text)
    → All (IsParented g.parents) names
    → map outline (discovered g names)
      ≡ map (outline_of (λ name. list_at name g.subresources)) names
unfolding discovered
outline-discovered g [] _ = refl
outline-discovered g (name ∷ rest) ((parent, known, same), more) =
    rw (known, discovered)
      (rw same (ap (λ l. (name, list_at name g.subresources) ∷ l) (outline-discovered g rest more)))

abbrev nothing : Gathered
nothing = record { parents = []; subresources = []; order = [] }

outline-subresources :
    (gv : GroupVersion) (resources : List ApiResource) (names : List Text)
    → map (outline_of (λ name. list_at name (gather_all gv resources nothing).subresources)) names
      ≡ map (outline_of (λ name. subresources_of gv name resources)) names
unfolding lookup
outline-subresources gv resources [] = refl
outline-subresources gv resources (name ∷ rest) =
    cc (subresources-gather_all gv resources nothing name, outline-subresources gv resources rest)

-- The aggregated form of a version lists the names without a slash, in the order of discovery, and
-- under each exactly what discovery lists as that name, a slash and something below, in its order.
pub outline-aggregated_version :
    (gv : GroupVersion) (resources : List ApiResource)
    → map outline (aggregated_version gv resources).resources
      ≡ map (outline_of (λ name. subresources_of gv name resources)) (parent_names resources)
unfolding aggregated_version
outline-aggregated_version gv resources =
    let g = gather_all gv resources nothing in
    outline-discovered g g.order (IsOrdered-gather_all gv resources nothing tt)
    ∙ ap (map (outline_of (λ name. list_at name g.subresources)))
        (order-gather_all gv resources nothing)
    ∙ outline-subresources gv resources (parent_names resources)
