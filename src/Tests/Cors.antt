-- ===== src/Tests/Cors.antt =====
-- The theorem on CORS at a preflight of the deployed frontend, and runs of the middleware.
use crypticquest_backend.Base.{◌≡◌, refl, some, [], ◌∷◌}
use crypticquest_backend.Engine.{ok, raise}
use crypticquest_backend.Http.{json, no_body, fail}
use crypticquest_backend.Middleware.Cors.{
  CorsRequest, is_preflight, is_allowed, cors_headers, cors, allow_headers, preflight_headers,
}
use crypticquest_backend.Middleware.Cors.Allowed.{header, cors_headers_exact}
use crypticquest_backend.Tests.{db}

abbrev preflight : CorsRequest
preflight = record {
  method = "OPTIONS";
  origin = "https://a.example";
  requested_method = "PUT";
  requested_headers = "";
}

abbrev stranger : CorsRequest
stranger = record {
  method = "POST";
  origin = "https://b.example";
  requested_method = "";
  requested_headers = "";
}

-- A preflight from the list gets the default headers and ends there; a POST from elsewhere goes on
-- without any.
cors_runs :
    (header "Access-Control-Allow-Headers" (cors_headers ("https://a.example" ∷ []) preflight)
      ≡ some "Content-Type")
    × ((cors preflight (raise (fail 401 "")) db).0 ≡ ok (json 204 no_body))
    × (cors_headers ("https://a.example" ∷ []) stranger ≡ ("Vary", "Origin") ∷ [])
    × (cors stranger (raise (fail 401 "")) db ≡ raise (fail 401 "") db)
unfolding cors_headers allow_headers preflight_headers is_allowed is_preflight cors
cors_runs = (refl, refl, refl, refl)

cors_headers_exact_example :
    (header "Access-Control-Allow-Origin" (cors_headers ("https://a.example" ∷ []) preflight)
      ≡ some "https://a.example")
    × (header "Access-Control-Allow-Credentials" (cors_headers ("https://a.example" ∷ []) preflight)
        ≡ some "true")
    × (header "Access-Control-Allow-Methods" (cors_headers ("https://a.example" ∷ []) preflight)
        ≡ some "GET, POST, PUT, DELETE, OPTIONS")
unfolding is_preflight
cors_headers_exact_example = cors_headers_exact ("https://a.example" ∷ []) preflight
