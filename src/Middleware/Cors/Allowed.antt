-- ===== src/Middleware/Cors/Allowed.antt =====
-- Which origins CORS (internal/middleware/cors.go) lets in.
use crypticquest_backend.Base.{
  ◌≡◌, String, ◌==◌, string_key, not, ◌&&◌, Option, none, some, List, has, first_where,
  if◌then◌else◌, arith,
}
use crypticquest_backend.Middleware.Cors.{
  CorsRequest, Header, is_preflight, is_allowed, cors_headers, allow_headers, preflight_headers,
}

abbrev second : Option Header → Option String
second none = none
second (some (name, value)) = some value

-- The value of a header.
abbrev pub header : String → List Header → Option String
header name hs = second (first_where (λ h. h.0 == name) hs)

-- The response allows an origin, with credentials, exactly if the request names one of the list that
-- is not empty, and then it is that one; it allows methods exactly to the preflight of such a
-- request.
pub cors_headers_exact :
    (origins : List String) (r : CorsRequest)
    → let allowed = not (r.origin == "") && has (λ o. o == r.origin) origins in
      (header "Access-Control-Allow-Origin" (cors_headers origins r)
        ≡ (if allowed then some r.origin else none))
      × (header "Access-Control-Allow-Credentials" (cors_headers origins r)
          ≡ (if allowed then some "true" else none))
      × (header "Access-Control-Allow-Methods" (cors_headers origins r)
          ≡ (if allowed && is_preflight r then some "GET, POST, PUT, DELETE, OPTIONS" else none))
unfolding cors_headers allow_headers preflight_headers is_allowed
cors_headers_exact origins r = ground arith
