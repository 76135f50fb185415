-- ===== src/Kcp/Metrics.antt =====
-- pkg/kcp/metrics.go: a write to a metric is a value, and an operation returns those that it made.
use spillway.Prelude.{ℕ, List, [], ◌∷◌, if◌then◌else◌, ◌==◌, map}
use spillway.Prelude.Text.{Text, bytes, text_key}

-- The `code` label of proxy/requests_total: a status, or `<error>`.
pub data Code : Type 0 where
  status : ℕ → Code
  no_answer : Code

-- Durations are kept as the two readings of the clock between which they run.
pub data Metric : Type 0 where
  proxy_requests : (workspace verb resource : Text) → Code → Metric
  proxy_duration : (workspace verb resource : Text) → (started ended : ℕ) → Metric
  proxy_errors : (workspace reason verb resource : Text) → Metric
  proxy_retries : (workspace : Text) → Metric
  api_service_syncs : (result : Text) → Metric
  api_services_managed : ℕ → Metric
  credential_reloads : (workspace result : Text) → Metric
  workspace_reloads : (result : Text) → Metric
  refresh_duration : (workspace : Text) → Metric
  refresh_total : (workspace result : Text) → Metric
  last_success_timestamp : (workspace : Text) → Metric
  group_served : (group : Text) → ℕ → Metric
  group_served_deleted : (group : Text) → Metric
  circuit_state : (workspace state : Text) → ℕ → Metric

unfoldable pub observe_proxy_request :
    (workspace verb resource : Text) → Code → (started ended : ℕ) → List Metric
observe_proxy_request workspace verb resource code started ended =
    proxy_requests workspace verb resource code
    ∷ proxy_duration workspace verb resource started ended
    ∷ []

unfoldable pub observe_proxy_error : (workspace reason verb resource : Text) → List Metric
observe_proxy_error workspace reason verb resource =
    proxy_errors workspace reason verb resource ∷ []

unfoldable pub observe_proxy_retry : Text → List Metric
observe_proxy_retry workspace = proxy_retries workspace ∷ []

unfoldable pub observe_api_service_sync : Text → ℕ → List Metric
observe_api_service_sync result managed =
    api_service_syncs result
    ∷ (if result == bytes "success" then api_services_managed managed ∷ [] else [])

unfoldable pub observe_credential_reload : (workspace result : Text) → List Metric
observe_credential_reload workspace result = credential_reloads workspace result ∷ []

unfoldable pub observe_workspace_reload : Text → List Metric
observe_workspace_reload result = workspace_reloads result ∷ []

unfoldable pub set_circuit_state : (workspace state : Text) → List Metric
set_circuit_state workspace state =
    map (λ known. circuit_state workspace known (if known == state then 1 else 0))
      (bytes "closed" ∷ bytes "open" ∷ bytes "half-open" ∷ [])

-- PublishWorkspace(workspace)
unfoldable pub publish_workspace : Text → List Metric
unfolding set_circuit_state
publish_workspace workspace = set_circuit_state workspace (bytes "closed")
