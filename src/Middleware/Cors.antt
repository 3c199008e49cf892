-- ===== src/Middleware/Cors.antt =====
-- internal/middleware/cors.go. The headers of a response are the list of those that CORS sets on it;
-- a request header that is missing is "".
pub mod Allowed
use crypticquest_backend.Base.{
  ℕ, String, ◌==◌, string_key, Bool, not, ◌&&◌, List, [], ◌∷◌, ◌++◌, has, if◌then◌else◌,
}
use crypticquest_backend.Engine.{pure}
use crypticquest_backend.Http.{Handler, json, no_body}

pub record CorsRequest : Type 0 where
  pub method : String
  pub origin : String
  pub requested_method : String
  pub requested_headers : String

abbrev pub Header : Type 0
Header = String × String

unfoldable pub is_preflight : CorsRequest → Bool
is_preflight r = (r.method == "OPTIONS") && not (r.requested_method == "")

-- `allowed[origin]`
unfoldable pub is_allowed : List String → String → Bool
is_allowed origins origin = not (origin == "") && has (λ o. o == origin) origins

unfoldable pub preflight_headers : CorsRequest → List Header
preflight_headers r =
    ("Access-Control-Allow-Methods", "GET, POST, PUT, DELETE, OPTIONS")
    ∷ (
      "Access-Control-Allow-Headers",
      if r.requested_headers == "" then "Content-Type" else r.requested_headers,
    )
    ∷ ("Access-Control-Max-Age", "86400")
    ∷ []

unfoldable pub allow_headers : CorsRequest → List Header
unfolding preflight_headers
allow_headers r =
    ("Access-Control-Allow-Origin", r.origin)
    ∷ ("Access-Control-Allow-Credentials", "true")
    ∷ (if is_preflight r then preflight_headers r else [])

unfoldable pub cors_headers : List String → CorsRequest → List Header
unfolding allow_headers
cors_headers origins r =
    ("Vary", "Origin") ∷ (if is_allowed origins r.origin then allow_headers r else [])

-- What the request gets: a preflight ends here.
unfoldable pub cors : CorsRequest → Handler → Handler
cors r next = if is_preflight r then pure (json 204 no_body) else next
