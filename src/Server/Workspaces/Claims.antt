-- ===== src/Server/Workspaces/Claims.antt =====
-- What the loops of `loadWorkspaces` of pkg/cmd/server/workspaces.go have found when they pass.
use spillway.Prelude.{
  ◌≡◌, ◌∙◌, refl, sym, none, some, List, [], ◌∷◌, ok, ◌==◌, ==_iff, ==-refl, All, Bool-cases,
  Option-cases, inl, inr,
}
use spillway.Prelude.Text.{Text, text_key}
use spillway.Prelude.Maps.{Map, lookup, insert, lookup-insert}
use spillway.Server.Workspaces.{claim_groups}

lookup-insert_other :
    (group g : Text) (name : Text) (claimed : Map Text Text)
    → lookup group claimed ≡ none
    → (o : Text) → lookup g claimed ≡ some o
    → lookup g (insert group name claimed) ≡ some o
lookup-insert_other group g name claimed free o taken = elim (Bool-cases (group == g)) [
  | inl same ↦ absurd (cc (free, taken, (==_iff group g).0 same))
  | inr other ↦ lookup-insert group name claimed g ∙ rw other taken
]

-- A claim is never lost.
pub kept_claim_groups :
    (name : Text) (groups : List Text) (claimed taken : Map Text Text) (g o : Text)
    → claim_groups name groups claimed ≡ ok taken
    → lookup g claimed ≡ some o
    → lookup g taken ≡ some o
unfolding claim_groups
kept_claim_groups name [] claimed taken g o h known =
    let e : claimed ≡ taken = cc (h) in rw (← e) known
kept_claim_groups name (group ∷ rest) claimed taken g o h known =
    elim (Option-cases (lookup group claimed)) [
      | inr (owner, held) ↦ absurd (cc (rw (held, claim_groups) at h))
      | inl free ↦
          kept_claim_groups name rest (insert group name claimed) taken g o
            (rw (free, claim_groups) at h) (lookup-insert_other group g name claimed free o known)
    ]

free_before :
    (group g : Text) (name : Text) (claimed : Map Text Text)
    → lookup g (insert group name claimed) ≡ none
    → lookup g claimed ≡ none
free_before group g name claimed h = elim (Bool-cases (group == g)) [
  | inl same ↦ let e = sym (lookup-insert group name claimed g) ∙ h in absurd (cc (rw same at e))
  | inr other ↦ let e = sym (lookup-insert group name claimed g) ∙ h in rw other at e
]

abbrev pub IsFree : Map Text Text → Text → Type 0
IsFree claimed g = lookup g claimed ≡ none

abbrev pub IsClaimed : Map Text Text → (name : Text) → Text → Type 0
IsClaimed claimed name g = lookup g claimed ≡ some name

IsFree-All :
    (group name : Text) (claimed : Map Text Text) (groups : List Text)
    → All (IsFree (insert group name claimed)) groups
    → All (IsFree claimed) groups
IsFree-All group name claimed [] _ = tt
IsFree-All group name claimed (g ∷ rest) (free, more) =
    (free_before group g name claimed free, IsFree-All group name claimed rest more)

-- The groups that are claimed were free, and are the workspace's.
pub claim_groups-IsClaimed :
    (name : Text) (groups : List Text) (claimed taken : Map Text Text)
    → claim_groups name groups claimed ≡ ok taken
    → All (IsFree claimed) groups × All (IsClaimed taken name) groups
unfolding claim_groups
claim_groups-IsClaimed name [] claimed taken h = (tt, tt)
claim_groups-IsClaimed name (group ∷ rest) claimed taken h =
    elim (Option-cases (lookup group claimed)) [
      | inr (owner, held) ↦ absurd (cc (rw (held, claim_groups) at h))
      | inl free ↦
          let e : claim_groups name rest (insert group name claimed) ≡ ok taken =
            rw (free, claim_groups) at h in
          let here : lookup group (insert group name claimed) ≡ some name =
            lookup-insert group name claimed group ∙ rw (==-refl group) refl in
          let (before, after) =
            claim_groups-IsClaimed name rest (insert group name claimed) taken e in
          (
            (free, IsFree-All group name claimed rest before),
            (
              kept_claim_groups name rest (insert group name claimed) taken group name e here,
              after,
            ),
          )
    ]
