-- ===== src/Access/Requests.antt =====
-- The way of a request to its handler: `RequireAuth` of internal/api/middleware.go, the bearer token and the access token of
-- internal/auth/auth.go, and `authzMiddleware` of main.go. The library that parses and checks a signed token is a parameter; the
-- audit record of a denial is left out.
use austro_os.Common.{
  Bool, ◌&&◌, ◌||◌, ◌==◌, if◌then◌else◌, Option, none, some, Result, ok, err, List, [], ◌∷◌, any,
}
use austro_os.Common.Text.{Text, text_eq, is_empty, bytes, trim_space}
use austro_os.Access.Roles.{Claims, ClaimsError, invalid_token, validate_claims_shape}
use austro_os.Access.Implemented.{implemented_rules}
use austro_os.Access.Authorizer.{AccessError, authorize_claims}

-- the method, the path and the `Authorization` header, which is empty where there is none
pub record Request : Type 0 where
  pub method : Text
  pub path : Text
  pub authorization : Text

-- what becomes of a request: it reaches the router with the claims of its token, if it has one, or it is refused
pub data Outcome : Type 0 where
  reached : Option Claims → Outcome
  unauthorized forbidden : Outcome

-- `strings.CutPrefix`
unfoldable pub after_prefix : Text → Text → Option Text
after_prefix [] s = some s
after_prefix (p ∷ ps) [] = none
after_prefix (p ∷ ps) (c ∷ s) = let rest = after_prefix ps s in if p == c then rest else none

-- the paths of `webui.Assets`
abbrev pub asset_paths : List Text
asset_paths = bytes "/" ∷ bytes "/assets/app.js" ∷ bytes "/assets/styles.css" ∷ []

abbrev pub probe_paths : List Text
probe_paths = bytes "/health/live" ∷ bytes "/health/ready" ∷ []

abbrev pub entry_paths : List Text
entry_paths =
    bytes "/api/auth/login"
    ∷ bytes "/api/auth/refresh"
    ∷ bytes "/api/auth/logout"
    ∷ bytes "/api/auth/bootstrap"
    ∷ []

abbrev pub reads : Text → Bool
reads method = text_eq method (bytes "GET") || text_eq method (bytes "HEAD")

-- `isPublicEndpoint`
unfoldable pub is_public_endpoint : Text → Text → Bool
is_public_endpoint method path =
    (reads method && any (text_eq path) probe_paths)
    || (text_eq method (bytes "POST") && any (text_eq path) entry_paths)
    || (reads method && any (text_eq path) asset_paths)

abbrev pub checked : Claims → Option ClaimsError → Result ClaimsError Claims
checked c none = ok c
checked c (some e) = err e

abbrev pub verify_parsed : Option Claims → Result ClaimsError Claims
verify_parsed none = err invalid_token
verify_parsed (some c) = checked c (validate_claims_shape (some c))

abbrev pub verified : Result ClaimsError Claims → Option Claims
verified (ok c) = some c
verified (err e) = none

abbrev pub decided : Option Claims → Option AccessError → Outcome
decided c none = reached c
decided c (some e) = forbidden

-- `authzMiddleware`
unfoldable pub authz_middleware : Option Claims → Request → Outcome
authz_middleware c r =
    if is_public_endpoint r.method r.path
    then reached c
    else decided c (authorize_claims implemented_rules c r.method r.path)

abbrev pub with_claims : Option Claims → Request → Outcome
with_claims none r = unauthorized
with_claims (some c) r = authz_middleware (some c) r

-- `parse` gives the claims of a token whose signature, method, issuer, audience and expiry are good.
module _ (parse : Text → Option Claims) where
  -- `VerifyAccessToken`
  unfoldable pub verify_access_token : Text → Result ClaimsError Claims
  verify_access_token token = verify_parsed (parse token)

  abbrev pub bearer_raw : Text → Option Claims
  bearer_raw raw = if is_empty raw then none else verified (verify_access_token raw)

  abbrev pub bearer_rest : Option Text → Option Claims
  bearer_rest none = none
  bearer_rest (some rest) = bearer_raw (trim_space rest)

  -- `BearerClaims`
  unfoldable pub bearer_claims : Text → Option Claims
  bearer_claims header = bearer_rest (after_prefix (bytes "Bearer ") (trim_space header))

  -- `RequireAuth` before `authzMiddleware`
  unfoldable pub serve : Request → Outcome
  serve r =
      if is_empty r.authorization
      then authz_middleware none r
      else with_claims (bearer_claims r.authorization) r
