-- ===== src/Oauth.antt =====
-- internal/middleware: oauth.go and context.go, which let a request through to the tools with
-- its token. The key set and the JWT library are parameters. A handler ends by calling the next
-- one, by a response of its own, or by a panic, which the HTTP server turns into a closed
-- connection.
pub mod Tokens
pub mod Access
mod Tests
use rancher_ai_mcp.Prelude.{
  ℕ, ◌*◌, String, Bool, true, false, not, ◌&&◌, Option, none, some, List, [], ◌∷◌, Result, ok, err,
  ◌>>=◌, if◌then◌else◌, str_eq, trim_prefix, any,
}
use rancher_ai_mcp.Prelude.Dict
use rancher_ai_mcp.Prelude.Dict.{Dict}

pub record OauthConfig (Jwks : Type 0) : Type 0 where
  pub authorization_server_url : String
  pub jwks_url : String
  pub resource_url : String
  pub supported_scopes : List String
  pub insecure_tls : Bool
  pub jwks : Option Jwks

-- `http.Request`: a header is "" where it is missing
pub record Request : Type 0 where
  pub method : String
  pub header : String → String

pub record Response : Type 0 where
  pub status : ℕ
  pub headers : Dict String
  pub body : String

-- What stands under the key of `WithToken`.
pub record Context : Type 0 where
  pub token : Option String

pub data Outcome : Type 0 where
  next : Context → Outcome
  responded : Response → Outcome
  panicked : Outcome

pub data Refusal : Type 0 where
  invalid_token missing_token : Refusal
  conversion_panic : Refusal

-- An element of a claim that is a list: a string or anything else.
pub data Item : Type 0 where
  text : String → Item
  no_text : Item

-- A claim: a list, or anything else, also where it is missing.
pub data Claim : Type 0 where
  items : List Item → Claim
  no_list : Claim

-- `jwt.Token`; its claims are `none` if they are no `MapClaims`
pub record Token : Type 0 where
  pub valid : Bool
  pub claims : Option (String → Claim)

pub record ParserOptions : Type 0 where
  pub valid_methods : List String
  pub leeway : ℕ
  pub issuer : String

-- Packages that the middleware calls.
pub record Packages (Jwks : Type 0) : Type 0 where
  -- `jwt.Parse` with the key set; `none` where it returns an error
  pub parse : Jwks → ParserOptions → String → Option Token
  -- the key set of a URL, and whether its TLS connection is not validated
  pub new_keyfunc : String → Bool → Option Jwks
  pub trim_suffix : String → String → String
  pub join_path : String → String → Option String
  -- `fmt.Sprintf("Bearer resource_metadata=%q", url)`
  pub challenge : String → String
  -- `json.NewEncoder(w).Encode`: resource, scopes, authorization servers
  pub encode_metadata : String → List String → List String → String

-- 10 seconds
abbrev pub expiration_leeway : ℕ
expiration_leeway = 10 * 1000000000

abbrev pub signing_method : String
signing_method = "RS256"

abbrev pub token_header : String
token_header = "R_token"

-- `WithToken`, on the context of a request
unfoldable pub with_token : String → Context
with_token token = record { token = some token }

-- `Token`
unfoldable pub token_of : Context → String
token_of ctx = elim (ctx.token) [ none ↦ "" | some token ↦ token ]

pub error_response : ℕ → String → Dict String → Response
error_response status body headers = record { status = status; headers = headers; body = body }

pub bearer_token : String → String → Result Refusal String
bearer_token header token =
    if str_eq token header
    then err invalid_token
    else if str_eq token ""
    then err invalid_token
    else ok token

-- `extractToken`
pub extract_token : Request → Result Refusal String
unfolding bearer_token
extract_token r =
    let header = r.header "Authorization" in
    if str_eq header ""
    then err missing_token
    else bearer_token header (trim_prefix header "Bearer ")

-- The conversions of the elements of the scope claim, which panic on one that is no string.
pub token_scopes : List Item → Result Refusal (List String)
token_scopes [] = ok []
token_scopes (no_text ∷ rest) = err conversion_panic
token_scopes (text scope ∷ rest) = do scopes ← token_scopes rest; ok (scope ∷ scopes)

pub all_contained : List String → List String → Bool
all_contained scopes [] = true
all_contained scopes (scope ∷ supported) =
    any (str_eq scope) scopes && all_contained scopes supported

module _ {Jwks : Type 0} (x : Packages Jwks) (c : OauthConfig Jwks) where
  pub check_scopes : Result Refusal (List String) → Result Refusal (Unit {0})
  unfolding all_contained
  check_scopes (err e) = err e
  check_scopes (ok scopes) =
      if all_contained scopes c.supported_scopes then ok tt else err invalid_token

  -- `validateTokenScopes`
  pub validate_token_scopes : Claim → Result Refusal (Unit {0})
  unfolding check_scopes token_scopes
  validate_token_scopes no_list = err invalid_token
  validate_token_scopes (items l) = check_scopes (token_scopes l)

  pub validate_claims : Option (String → Claim) → Result Refusal (Unit {0})
  unfolding validate_token_scopes
  validate_claims none = err invalid_token
  validate_claims (some claims) = validate_token_scopes (claims "scope")

  pub validate_token : Option Token → Result Refusal (Unit {0})
  unfolding validate_claims
  validate_token none = err invalid_token
  validate_token (some token) =
      if not token.valid then err invalid_token else validate_claims token.claims

  pub parser_options : ParserOptions
  parser_options = record {
    valid_methods = signing_method ∷ [];
    leeway = expiration_leeway;
    issuer = x.trim_suffix c.authorization_server_url "/authorize";
  }

  -- `validateJWT`
  pub validate_jwt : Jwks → String → Result Refusal (Unit {0})
  unfolding validate_token parser_options
  validate_jwt jwks token = validate_token (x.parse jwks parser_options token)

  -- `sendUnauthorized`
  pub send_unauthorized : Response
  unfolding error_response
  send_unauthorized = elim (x.join_path c.resource_url "/.well-known/oauth-protected-resource") [
    | none ↦ error_response 500 "Failed to construct metadata URL" []
    | some url ↦ error_response 401 "Unauthorized" (("WWW-Authenticate", x.challenge url) ∷ [])
  ]

  pub after_validation : String → Result Refusal (Unit {0}) → Outcome
  unfolding send_unauthorized with_token
  after_validation token (ok _) = next (with_token token)
  after_validation token (err conversion_panic) = panicked
  after_validation token (err invalid_token) = responded send_unauthorized
  after_validation token (err missing_token) = responded send_unauthorized

  pub after_extraction : Jwks → Result Refusal String → Outcome
  unfolding after_validation validate_jwt
  after_extraction jwks (err e) = responded send_unauthorized
  after_extraction jwks (ok token) = after_validation token (validate_jwt jwks token)

  pub with_jwks : Request → Option Jwks → Outcome
  unfolding after_extraction extract_token error_response
  with_jwks r none = responded (error_response 500 "Internal Server Error" [])
  with_jwks r (some jwks) = after_extraction jwks (extract_token r)

  -- `OAuthMiddleware`
  pub oauth_middleware : Request → Outcome
  unfolding with_jwks with_token
  oauth_middleware r =
      if str_eq c.authorization_server_url ""
      then next (with_token (r.header token_header))
      else with_jwks r c.jwks

  loaded : Option Jwks → Option (OauthConfig Jwks)
  loaded none = none
  loaded (some jwks) = some (record {
    authorization_server_url = c.authorization_server_url;
    jwks_url = c.jwks_url;
    resource_url = c.resource_url;
    supported_scopes = c.supported_scopes;
    insecure_tls = c.insecure_tls;
    jwks = some jwks;
  })

  -- `LoadJWKS`: `none` where it returns an error
  pub load_jwks : Option (OauthConfig Jwks)
  unfolding loaded
  load_jwks =
      if str_eq c.jwks_url "" then some c else loaded (x.new_keyfunc c.jwks_url c.insecure_tls)

  cors_headers : Dict String
  cors_headers =
      ("Access-Control-Allow-Origin", "*")
      ∷ ("Access-Control-Allow-Methods", "GET, OPTIONS")
      ∷ ("Access-Control-Allow-Headers", "Content-Type")
      ∷ []

  -- `HandleProtectedResourceMetadata`
  pub handle_protected_resource_metadata : Request → Response
  unfolding error_response cors_headers
  handle_protected_resource_metadata r =
      if str_eq r.method "OPTIONS"
      then error_response 200 "" cors_headers
      else error_response 200
          (x.encode_metadata c.resource_url c.supported_scopes (c.authorization_server_url ∷ []))
          (("Content-Type", "application/json") ∷ cors_headers)
