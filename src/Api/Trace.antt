-- ===== src/Api/Trace.antt =====
-- internal/api: what the middleware adds to a request and its answer (RequestID, metricsMiddleware).
use try_it_now.Base.{
  ℕ, ◌≡◌, ◌≢◌, refl, String, Bool, true, false, Option, none, some, List, [], ◌∷◌, str_eq, eq_iff,
  contains, arith, if◌then◌else◌,
}
use try_it_now.Api.Guard.{
  Route, get_health, post_acquire, get_stats, get_instance_route, delete_instance_route, get_status,
  post_extend,
}

-- RequestID: the client's header, or a fresh UUID where that is empty.
unfoldable pub request_id : String → String → String
request_id header fresh = if str_eq header "" then fresh else header

-- GetRequestID, on what the context has under the key.
abbrev pub get_request_id : Option String → String
get_request_id none = ""
get_request_id (some id) = id

-- The paths under which Router registers its routes, as gin's FullPath gives them; it is empty where
-- no route matches.
abbrev pub full_path : Option Route → String
full_path none = ""
full_path (some get_health) = "/health"
full_path (some post_acquire) = "/api/v1/demo/acquire"
full_path (some get_stats) = "/api/v1/pool/stats"
full_path (some (get_instance_route id)) = "/api/v1/demo/:id"
full_path (some (delete_instance_route id)) = "/api/v1/demo/:id"
full_path (some (get_status id)) = "/api/v1/demo/:id/status"
full_path (some (post_extend id minutes)) = "/api/v1/demo/:id/extend"

-- The labels of one observation of the request duration.
pub record Observation : Type 0 where
  pub method : String
  pub path : String
  pub status : ℕ

abbrev pub path_label : String → String
path_label path = if str_eq path "" then "unknown" else path

-- metricsMiddleware, after the handler; without a collector it observes nothing.
unfoldable pub observe : Bool → String → Option Route → ℕ → List Observation
observe false method route status = []
observe true method route status =
    record { method = method; path = path_label (full_path route); status = status } ∷ []

abbrev pub path_labels : List String
path_labels =
    "unknown" ∷ "/health" ∷ "/api/v1/demo/acquire" ∷ "/api/v1/pool/stats" ∷ "/api/v1/demo/:id"
    ∷ "/api/v1/demo/:id/status" ∷ "/api/v1/demo/:id/extend" ∷ []

-- Whatever a client asks for, the path of an observation is one of seven.
path_label-full_path :
    (route : Option Route) → contains str_eq (path_label (full_path route)) path_labels ≡ true
unfolding contains
path_label-full_path none = refl
path_label-full_path (some get_health) = refl
path_label-full_path (some post_acquire) = refl
path_label-full_path (some get_stats) = refl
path_label-full_path (some (get_instance_route id)) = refl
path_label-full_path (some (delete_instance_route id)) = refl
path_label-full_path (some (get_status id)) = refl
path_label-full_path (some (post_extend id minutes)) = refl

-- Every request has an identifier, if UUIDs are not empty.
request_id-ne-empty : (header fresh : String) → fresh ≢ "" → request_id header fresh ≢ ""
unfolding request_id
request_id-ne-empty header fresh h = λ e. ground (arith, h, e, eq_iff header "")
