-- ===== src/Apiserver/Handler/Listed.antt =====
-- The document /apis keeps in step with the snapshots that pkg/apiserver/discovery.go publishes.
use spillway.Prelude.{
  ◌≡◌, ◌∙◌, refl, ap, Bool, true, false, ◌&&◌, ◌||◌, not, Option, none, some, List, [], ◌∷◌, ◌++◌,
  any, if◌then◌else◌, ◌==◌, ==_iff, All, Bool-cases, Option-cases, is_some, inl, inr, arith,
}
use spillway.Prelude.Text.{Text, text_key}
use spillway.Prelude.Maps.{Map, lookup, insert, erase, lookup-insert, lookup-erase, IsMap}
use spillway.Prelude.Sets.{Sets}
use spillway.Kcp.Api.{GroupVersion, ApiGroup, ApiResource, VersionInfo}
use spillway.Kcp.Discovery.{Snapshot}
use spillway.Apiserver.Handler.Publish.{
  Call, add_group, remove_group, aggregated_remove_group, add_group_version,
  set_group_version_priority, withdraw, add_versions, add_groups_of, keys_of, publish,
}

-- The document that lists the groups, by name, after a call of its manager.
abbrev pub listed : Call → Map Text ApiGroup → Map Text ApiGroup
listed (add_group api_group) document = insert api_group.name api_group document
listed (remove_group group) document = erase group document
listed (aggregated_remove_group group) document = document
listed (add_group_version group version) document = document
listed (set_group_version_priority gv a b) document = document

unfoldable pub list_all : List Call → Map Text ApiGroup → Map Text ApiGroup
list_all [] document = document
list_all (call ∷ rest) document = list_all rest (listed call document)

abbrev pub or_else : Option ApiGroup → Option ApiGroup → Option ApiGroup
or_else none later = later
or_else (some first) later = some first

-- The groups of a snapshot are kept by their names.
abbrev pub IsNamed : Text × ApiGroup → Type 0
IsNamed entry = entry.1.name ≡ entry.0

list_all-append :
    (xs ys : List Call) (document : Map Text ApiGroup)
    → list_all (xs ++ ys) document ≡ list_all ys (list_all xs document)
unfolding list_all
list_all-append [] ys document = refl
list_all-append (x ∷ xs) ys document = list_all-append xs ys (listed x document)

list_all-withdraw :
    (aggregated : Bool) (gone : List Text) (document : Map Text ApiGroup) (g : Text)
    → lookup g (list_all (withdraw aggregated gone) document)
      ≡ (if any (λ j. j == g) gone then none else lookup g document)
unfolding list_all withdraw
list_all-withdraw aggregated [] document g = refl
list_all-withdraw true (group ∷ rest) document g =
    list_all-withdraw true rest (erase group document) g ∙ erased (any (λ j. j == g) rest)
  where
    erased :
        (b : Bool)
        → (if b then none else lookup g (erase group document))
          ≡ (if group == g || b then none else lookup g document)
    erased b = ground (arith, lookup-erase group document g)
list_all-withdraw false (group ∷ rest) document g =
    list_all-withdraw false rest (erase group document) g ∙ erased (any (λ j. j == g) rest)
  where
    erased :
        (b : Bool)
        → (if b then none else lookup g (erase group document))
          ≡ (if group == g || b then none else lookup g document)
    erased b = ground (arith, lookup-erase group document g)

module _ (parse_group_version : Text → Option GroupVersion)
    (resources : Map GroupVersion (List ApiResource)) where
  list_all-add_versions :
      (group : Text) (versions : List VersionInfo) (document : Map Text ApiGroup)
      → list_all (add_versions parse_group_version resources group versions) document ≡ document
  unfolding list_all add_versions
  list_all-add_versions group [] document = refl
  list_all-add_versions group (version ∷ rest) document =
      elim (Option-cases (parse_group_version version.group_version)) [
        | inl malformed ↦ rw (malformed, add_versions) (list_all-add_versions group rest document)
        | inr (gv, parsed) ↦ rw (parsed, add_versions) (list_all-add_versions group rest document)
      ]

  list_all-versions_if :
      (aggregated : Bool) (group : Text) (versions : List VersionInfo) (more : List Call)
      (document : Map Text ApiGroup)
      → list_all
          ((if aggregated then add_versions parse_group_version resources group versions else [])
            ++ more)
          document
        ≡ list_all more document
  unfolding list_all
  list_all-versions_if true group versions more document =
      list_all-append (add_versions parse_group_version resources group versions) more document
      ∙ ap (list_all more) (list_all-add_versions group versions document)
  list_all-versions_if false group versions more document = refl

  list_all-add_groups_of :
      (aggregated : Bool) (groups : Map Text ApiGroup) (document : Map Text ApiGroup) (g : Text)
      → IsMap groups
      → All IsNamed groups
      → lookup g (list_all (add_groups_of parse_group_version resources aggregated groups) document)
        ≡ or_else (lookup g groups) (lookup g document)
  unfolding list_all add_groups_of lookup
  list_all-add_groups_of aggregated [] document g _ _ = refl
  list_all-add_groups_of aggregated ((group, api_group) ∷ rest) document g (fresh, unique)
        (named, more) =
      ap (lookup g) (
        list_all-versions_if aggregated group api_group.versions
          (add_groups_of parse_group_version resources aggregated rest)
          (insert api_group.name api_group document))
      ∙ list_all-add_groups_of aggregated rest (insert api_group.name api_group document) g unique
          more
      ∙ added
    where
      added :
          or_else (lookup g rest) (lookup g (insert api_group.name api_group document))
          ≡ or_else (if group == g then some api_group else lookup g rest) (lookup g document)
      added =
          let e = lookup-insert api_group.name api_group document g in
          elim (Bool-cases (group == g)) [
            | inl same ↦
                let e1 : (api_group.name == g) ≡ true = rw named same in
                let e2 : lookup g rest ≡ none = rw (← (==_iff group g).0 same) fresh in
                rw (e2, e, e1, same) refl
            | inr other ↦
                let e1 : (api_group.name == g) ≡ false = rw named other in rw (e, e1, other) refl
          ]

module _ ⦃S : Sets Text⦄ (parse_group_version : Text → Option GroupVersion)
    (aggregated : Bool) where
  has-keys_of :
      (groups : Map Text ApiGroup) (g : Text) → S.has (keys_of groups) g ≡ is_some (lookup g groups)
  unfolding keys_of lookup
  has-keys_of [] g = S.has-empty g
  has-keys_of ((group, api_group) ∷ rest) g =
      S.has-insert (keys_of rest) group g
      ∙ ap (λ b. group == g || b) (has-keys_of rest g)
      ∙ split_lem
    where
      split_lem :
          (group == g || is_some (lookup g rest))
          ≡ is_some (if group == g then some api_group else lookup g rest)
      split_lem = elim (Bool-cases (group == g)) [
        | inl same ↦ rw same refl
        | inr other ↦ rw other refl
      ]

  -- What has been published is in the document, and is what the snapshot has.
  abbrev pub IsInStep : (groups : Map Text ApiGroup) → S.Set → Map Text ApiGroup → Type 0
  IsInStep groups published document =
      (g : Text)
      → (S.has published g ≡ is_some (lookup g groups)) × (lookup g document ≡ lookup g groups)

  abbrev pub IsSound : Snapshot → Type 0
  IsSound snapshot = IsMap snapshot.groups × All IsNamed snapshot.groups

  lookup-publish :
      (snapshot : Snapshot) (published : S.Set) (document : Map Text ApiGroup) (g : Text)
      → IsSound snapshot
      → lookup g (list_all (publish parse_group_version aggregated snapshot published).1 document)
        ≡ or_else (lookup g snapshot.groups) (
            if S.has published g && not (is_some (lookup g snapshot.groups))
            then none
            else lookup g document)
  unfolding publish
  lookup-publish snapshot published document g (unique, named) =
      let gone = S.list (S.difference published (keys_of snapshot.groups)) in
      ap (lookup g) (
        list_all-append (withdraw aggregated gone)
          (add_groups_of parse_group_version snapshot.resources aggregated snapshot.groups)
          document)
      ∙ list_all-add_groups_of parse_group_version snapshot.resources aggregated snapshot.groups
          (list_all (withdraw aggregated gone) document) g unique named
      ∙ ap (or_else (lookup g snapshot.groups)) (
          list_all-withdraw aggregated gone document g
          ∙ ap (λ b. if b then none else lookup g document)
              (S.any-list (S.difference published (keys_of snapshot.groups)) g
                ∙ S.has-difference published (keys_of snapshot.groups) g
                ∙ ap (λ b. S.has published g && not b) (has-keys_of snapshot.groups g)))

  -- Publishing one snapshot after the other, from what was published before.
  unfoldable pub publish_all : List Snapshot → S.Set × Map Text ApiGroup → S.Set × Map Text ApiGroup
  publish_all [] state = state
  publish_all (snapshot ∷ rest) (published, document) =
      let (current, calls) = publish parse_group_version aggregated snapshot published in
      publish_all rest (current, list_all calls document)

  IsInStep-publish :
      (before snapshot : Snapshot) (published : S.Set) (document : Map Text ApiGroup)
      → IsSound snapshot
      → IsInStep before.groups published document
      → let r = publish parse_group_version aggregated snapshot published in
        IsInStep snapshot.groups r.0 (list_all r.1 document)
  unfolding publish
  IsInStep-publish before snapshot published document sound step g = (
    has-keys_of snapshot.groups g,
    lookup-publish snapshot published document g sound
        ∙ settled (lookup g snapshot.groups) (lookup g before.groups) (S.has published g)
            (lookup g document) (step g),
  )
    where
      settled :
          (now old : Option ApiGroup) (known : Bool) (there : Option ApiGroup)
          → (known ≡ is_some old) × (there ≡ old)
          → or_else now (if known && not (is_some now) then none else there) ≡ now
      settled (some a) old known there h = refl
      settled none none known there (h, same) = elim (Bool-cases known) [
        | inl k ↦ rw k refl
        | inr k ↦ rw k same
      ]
      settled none (some a) known there (h, same) = rw h refl

  abbrev pub last_of : Snapshot → List Snapshot → Snapshot
  last_of first [] = first
  last_of first (snapshot ∷ rest) = last_of snapshot rest

  -- However often it publishes, and whatever came and went between, the handler keeps the document
  -- that lists the groups in step with the snapshots: from one that is in step with a first
  -- snapshot, it ends with exactly the groups of the last one, and knows that these are published.
  pub IsInStep-publish_all :
      (snapshots : List Snapshot) (first : Snapshot) (published : S.Set)
      (document : Map Text ApiGroup)
      → All IsSound snapshots
      → IsInStep first.groups published document
      → let end = publish_all snapshots (published, document) in
        IsInStep (last_of first snapshots).groups end.0 end.1
  unfolding publish_all
  IsInStep-publish_all [] first published document _ step = step
  IsInStep-publish_all (snapshot ∷ rest) first published document (sound, more) step =
      let r = publish parse_group_version aggregated snapshot published in
      IsInStep-publish_all rest snapshot r.0 (list_all r.1 document) more
        (IsInStep-publish first snapshot published document sound step)
