-- ===== src/Oauth/Tests.antt =====
-- A library that accepts one token, whose claims hold one scope.
use rancher_ai_mcp.Prelude.{
  String, ◌≡◌, refl, true, none, some, [], ◌∷◌, if◌then◌else◌, str_eq, trim_prefix,
}
use rancher_ai_mcp.Oauth.{
  OauthConfig, Request, next, panicked, text, no_text, items, no_list, Item, Packages, with_token,
  oauth_middleware,
}

abbrev packages : Item → Packages String
packages extra = record {
  parse = λ jwks options token.
      if str_eq token "abc"
      then some (record {
        valid = true;
        claims =
            some
              (λ key. if str_eq key "scope" then items (text "rancher" ∷ extra ∷ []) else no_list);
      })
      else none;
  new_keyfunc = λ url insecure. some url;
  trim_suffix = λ s suffix. s;
  join_path = λ base path. some base;
  challenge = λ url. url;
  encode_metadata = λ resource scopes servers. resource;
}

abbrev config : OauthConfig String
config = record {
  authorization_server_url = "https://idp";
  jwks_url = "https://idp/keys";
  resource_url = "https://mcp";
  supported_scopes = "rancher" ∷ [];
  insecure_tls = true;
  jwks = some "keys";
}

abbrev request : String → Request
request header = record {
  method = "POST";
  header = λ name. if str_eq name "Authorization" then header else "";
}

admitted :
    oauth_middleware (packages (text "other")) config (request "Bearer abc")
    ≡ next (with_token "abc")
unfolding oauth_middleware with_token trim_prefix
admitted = refl

conversion_panics : oauth_middleware (packages no_text) config (request "Bearer abc") ≡ panicked
unfolding oauth_middleware trim_prefix
conversion_panics = refl
