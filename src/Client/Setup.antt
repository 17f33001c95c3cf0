-- ===== src/Client/Setup.antt =====
-- pkg/client/client.go: how the client finds Rancher's URL and its certificates when the server
-- starts.
use rancher_ai_mcp.Prelude.{
  String, Bool, not, Option, none, some, [], Result, ok, ◌>>=◌, if◌then◌else◌, str_eq,
}
use rancher_ai_mcp.Confirm.{Bytes}
use rancher_ai_mcp.Changes.{Gvr}
use rancher_ai_mcp.Client.{CallError, Client, DynClient}

-- `url.URL`: what the code clears, and the rest
pub record Url : Type 0 where
  pub base : String
  pub path : String
  pub raw_query : String
  pub fragment : String

-- What starting the client reads: the environment, and the cluster that the server runs in.
pub record Environment (RestConfig Object : Type 0) : Type 0 where
  pub parse_url : String → Result CallError Url
  pub show_url : Url → String
  -- `os.Getenv("RANCHER_URL")`
  pub rancher_url : String
  pub in_cluster_config : Result CallError RestConfig
  pub dyn_client : RestConfig → Result CallError (DynClient Object)
  -- `NestedString(o, "value")`: the empty string where it is not found
  pub nested_value : Object → Result CallError (Option String)
  pub trim_space : String → String
  pub bytes : String → Bytes

abbrev pub settings : Gvr
settings = record { group = "management.cattle.io"; version = "v3"; resource = "settings" }

module _ {RestConfig Object : Type 0} (e : Environment RestConfig Object) where
  pub base_of : Url → String
  base_of url = e.show_url (record { base = url.base; path = ""; raw_query = ""; fragment = "" })

  -- `rancherURLFromAuthServerURL`
  pub rancher_url_from_auth_server_url : String → Result CallError String
  unfolding base_of
  rancher_url_from_auth_server_url s =
      if str_eq s "" then ok "" else do url ← e.parse_url s; ok (base_of url)

  -- The value of a setting of Rancher.
  pub fetch_setting : String → Result CallError (Option String)
  fetch_setting name = do
    config ← e.in_cluster_config
    dyn ← e.dyn_client config
    object ← (dyn.resource settings).get name
    e.nested_value object

  or_empty : Option String → String
  or_empty none = ""
  or_empty (some value) = value

  -- `fetchRancherURL`
  pub fetch_rancher_url : Result CallError String
  unfolding fetch_setting or_empty
  fetch_rancher_url = do value ← fetch_setting "internal-server-url"; ok (or_empty value)

  pub bundle_of : Option String → Bytes
  bundle_of none = []
  bundle_of (some value) = if str_eq (e.trim_space value) "" then [] else e.bytes value

  -- `fetchCABundle`
  pub fetch_ca_bundle : Result CallError Bytes
  unfolding fetch_setting bundle_of
  fetch_ca_bundle = do value ← fetch_setting "internal-cacerts"; ok (bundle_of value)

  pub find_rancher_url : String → Result CallError String
  unfolding fetch_rancher_url
  find_rancher_url from_auth =
      if not (str_eq from_auth "")
      then ok from_auth
      else if not (str_eq e.rancher_url "")
      then ok e.rancher_url
      else fetch_rancher_url

  pub find_ca_bundle : Bool → Result CallError Bytes
  unfolding fetch_ca_bundle
  find_ca_bundle insecure = if not insecure then fetch_ca_bundle else ok []

  -- `NewClient`
  pub new_client : Bool → String → Result CallError Client
  unfolding rancher_url_from_auth_server_url find_rancher_url find_ca_bundle
  new_client insecure authz_server_url = do
    from_auth ← rancher_url_from_auth_server_url authz_server_url
    url ← find_rancher_url from_auth
    bundle ← find_ca_bundle insecure
    ok (record { insecure = insecure; rancher_url = url; ca_bundle = bundle })
