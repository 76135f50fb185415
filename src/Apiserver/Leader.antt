-- ===== src/Apiserver/Leader.antt =====
-- The options and the state of pkg/apiserver/leader.go. The elector is the library's: what it does
-- is the order of its two callbacks.
use spillway.Prelude.{◌++◌, Bool, true, not, Option, none, some, List, [], ◌∷◌, if◌then◌else◌, ◌==◌}
use spillway.Prelude.Integers.{ℤ, is_at_most}
use spillway.Prelude.Text.{Text, text_key}

pub record LeaderElectionOptions : Type 0 where
  pub enabled : Bool
  pub namespace : Text
  pub name : Text
  pub lease_duration : ℤ
  pub renew_deadline : ℤ
  pub retry_period : ℤ

pub data LeaderElectionError : Type 0 where
  name_required namespace_required : LeaderElectionError
  lease_too_short deadline_too_short : (duration bound : ℤ) → LeaderElectionError

-- o.Validate()
unfoldable pub validate_election : LeaderElectionOptions → List LeaderElectionError
validate_election o =
    if not o.enabled
    then []
    else (if o.name == [] then name_required ∷ [] else [])
      ++ (if o.namespace == [] then namespace_required ∷ [] else [])
      ++ (if is_at_most o.lease_duration o.renew_deadline
          then lease_too_short o.lease_duration o.renew_deadline ∷ []
          else [])
      ++ (if is_at_most o.renew_deadline o.retry_period
          then deadline_too_short o.renew_deadline o.retry_period ∷ []
          else [])

-- l.leads(), with none for a nil leadership and the value that `leading` holds for any other
unfoldable pub leads : Option Bool → Bool
leads none = true
leads (some leading) = leading
