-- ===== src/Kcp/Discovery/Series.antt =====
-- The group_served series that `Refresh` of pkg/kcp/discovery.go writes.
use spillway.Prelude.{
  ℕ, ◌≡◌, refl, Bool, true, false, not, ◌&&◌, ◌||◌, Option, none, some, List, [], ◌∷◌, ◌++◌, arith,
  ap, is_some, if◌then◌else◌, any, ◌==◌, ==_iff, Bool-cases, inl, inr,
}
use spillway.Prelude.Text.{Text, text_key}
use spillway.Prelude.Maps.{lookup, Map}
use spillway.Prelude.Sets.{Sets}
use spillway.Kcp.Api.{ApiGroup}
use spillway.Kcp.Metrics.{Metric, group_served, group_served_deleted}
use spillway.Kcp.Groups.{GroupMatcher, exact}
use spillway.Kcp.Discovery.{
  Snapshot, ResourceCache, group_names, names_from, named_series, current_series, gone_series,
  names_outright, previous_gone, publish_series,
}

-- The value of a group's series after the writes, from what it was before.
unfoldable pub series : Text → List Metric → Option ℕ → Option ℕ
series group [] before = before
series group (group_served g value ∷ ms) before =
    series group ms (if g == group then some value else before)
series group (group_served_deleted g ∷ ms) before =
    series group ms (if g == group then none else before)
series group (_ ∷ ms) before = series group ms before

series-append :
    (group : Text) (xs ys : List Metric) (before : Option ℕ)
    → series group (xs ++ ys) before ≡ series group ys (series group xs before)
unfolding series
series-append group [] ys before = refl
series-append group (group_served g v ∷ xs) ys before =
    series-append group xs ys (if g == group then some v else before)
series-append group (group_served_deleted g ∷ xs) ys before =
    series-append group xs ys (if g == group then none else before)
series-append group (_ ∷ xs) ys before = series-append group xs ys before

abbrev served : Snapshot → Text → Bool
served snapshot group = is_some (lookup group snapshot.groups)

served_same :
    (snapshot : Snapshot) (g group : Text)
    → (g == group) ≡ true
    → served snapshot g ≡ served snapshot group
served_same snapshot g group h = ap (served snapshot) ((==_iff g group).0 h)

-- What the loop over the groups named outright leaves.
series-named_series :
    (snapshot : Snapshot) (group : Text) (gs : List Text) (before : Option ℕ)
    → series group (named_series snapshot gs) before
      ≡ (if any (λ g. g == group) gs then some (if served snapshot group then 1 else 0) else before)
unfolding series named_series
series-named_series snapshot group [] before = refl
series-named_series snapshot group (g ∷ gs) before = ground (
  arith,
  series-named_series snapshot group gs
      (if g == group then some (if served snapshot g then 1 else 0) else before),
  served_same snapshot g group,
)

series-current_series :
    (group : Text) (gs : List Text) (before : Option ℕ)
    → series group (current_series gs) before
      ≡ (if any (λ g. g == group) gs then some 1 else before)
unfolding series current_series
series-current_series group [] before = refl
series-current_series group (g ∷ gs) before =
    ground (arith, series-current_series group gs (if g == group then some 1 else before))

module _ ⦃S : Sets Text⦄ where
  outright_same :
      (owned : Option GroupMatcher) (g group : Text)
      → (g == group) ≡ true
      → names_outright owned g ≡ names_outright owned group
  outright_same owned g group h = ap (names_outright owned) ((==_iff g group).0 h)

  series-gone_series :
      (owned : Option GroupMatcher) (group : Text) (gs : List Text) (before : Option ℕ)
      → series group (gone_series owned gs) before
        ≡ (if any (λ g. g == group) gs && not (names_outright owned group) then none else before)
  unfolding series gone_series
  series-gone_series owned group [] before = refl
  series-gone_series owned group (g ∷ gs) before = elim (Bool-cases (names_outright owned g)) [
    | inl kept ↦ rw kept (
        ground (arith, series-gone_series owned group gs before, outright_same owned g group, kept))
    | inr dropped ↦ rw dropped (
        ground (
          arith,
          series-gone_series owned group gs (if g == group then none else before),
          outright_same owned g group,
          dropped,
        ))
  ]

  has-names_from :
      (names : S.Set) (groups : Map Text ApiGroup) (group : Text)
      → S.has (names_from names groups) group ≡ (is_some (lookup group groups) || S.has names group)
  unfolding names_from lookup
  has-names_from names [] group = refl
  has-names_from names ((g, _) ∷ rest) group =
      ground (arith, has-names_from (S.insert names g) rest group, S.has-insert names g group)

  pub has-group_names :
      (snapshot : Snapshot) (group : Text)
      → S.has (group_names snapshot) group ≡ is_some (lookup group snapshot.groups)
  unfolding group_names
  has-group_names snapshot group =
      ground (arith, has-names_from S.empty snapshot.groups group, S.has-empty group)

  any-previous_gone :
      (previous : Option S.Set) (current : S.Set) (group : Text)
      → any (λ g. g == group) (previous_gone previous current)
        ≡ (elim previous [ none ↦ false | some p ↦ S.has p group ] && not (S.has current group))
  any-previous_gone none current group = refl
  any-previous_gone (some p) current group =
      ground (arith, S.any-list (S.difference p current) group, S.has-difference p current group)

  -- After a successful refresh the series of a group is 1 if the workspace serves it, 0 if it is
  -- named outright, not excluded and not served, deleted if the refresh before saw it and nothing
  -- names it outright, and otherwise what it was.
  pub series-publish_series :
      (c : ResourceCache) (group : Text) (before : Option ℕ)
      → series group (publish_series c).1 before ≡ (
          if is_some (lookup group c.snapshot.groups)
          then some 1
          else if elim c.matched [ none ↦ false | some p ↦ S.has p group ]
              && not (names_outright c.owned group)
          then none
          else if any (λ g. g == group) (exact c.owned)
          then some 0
          else before)
  unfolding publish_series
  series-publish_series c group before =
      simp
        (
          series-append, series-gone_series, series-current_series, series-named_series,
          any-previous_gone, S.any-list, has-group_names,
        )
        (ground arith)
