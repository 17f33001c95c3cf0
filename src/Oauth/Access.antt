-- ===== src/Oauth/Access.antt =====
-- Which requests reach the tools, and with which token.
use rancher_ai_mcp.Prelude.{String, ◌≡◌, ◌≢◌, Option, none, some, concat}
use rancher_ai_mcp.Oauth.{
  OauthConfig, Request, Outcome, next, responded, panicked, Packages, token_header,
}
use rancher_ai_mcp.Oauth.Tokens.{IsValidToken}

abbrev pub bearer : String
bearer = "Bearer "

module _ {Jwks : Type 0} (x : Packages Jwks) (c : OauthConfig Jwks) where
  -- The two ways in: without an authorization server, the header of the request passes its token
  -- on; with one, the bearer token of the request has to be valid for the loaded key set.
  pub data IsAdmitted (r : Request) (token : String) : Type 0 where
    open_access :
        c.authorization_server_url ≡ "" → token ≡ r.header token_header → IsAdmitted r token
    authorized :
        (jwks : Jwks)
        → c.authorization_server_url ≢ ""
        → c.jwks ≡ some jwks
        → r.header "Authorization" ≡ concat bearer token
        → token ≢ ""
        → IsValidToken x c jwks token
        → IsAdmitted r token

  token_in : Outcome → Option String
  token_in (next ctx) = ctx.token
  token_in (responded r) = none
  token_in panicked = none
