-- ===== src/Client/Requests/Listing.antt =====
-- The versions of a resource type that the local cluster serves.
use mathlib.Core.Path.{subst}
use rancher_ai_mcp.Prelude.{
  String, ◌≡◌, refl, sym, ap, ◌∙◌, List, [], ◌∷◌, ◌++◌, Result, ok, err, ok_injective, str_eq,
  if◌then◌else◌, arith,
}
use rancher_ai_mcp.Changes.{Gvr}
use rancher_ai_mcp.Client.{
  CallError, ClientError, Client, ApiGroup, ClientSet, Kube, Caches, Step, local,
  create_rest_config, get_cluster_id,
}
use rancher_ai_mcp.Client.Requests.{
  next, call, call_result, group_versions, create_client_set, get_api_versions_for_gr, ◌>>=◌,
}

-- The versions of the groups of this name.
pub versions_of : String → List ApiGroup → List String
versions_of group [] = []
versions_of group (g ∷ groups) =
    (if str_eq g.name group then g.versions else []) ++ versions_of group groups

group_versions-versions_of :
    (group : String) (groups : List ApiGroup)
    → group_versions group groups ≡ versions_of group groups
unfolding group_versions versions_of
group_versions-versions_of group [] = refl
group_versions-versions_of group (g ∷ groups) =
    ground (arith, group_versions-versions_of group groups)

pub next-inv :
    {A B : Type 0} (r : Caches × Result ClientError A) (f : A → Step B) (last : Caches) (b : B)
    → next r f ≡ (last, ok b)
    → (mid : Caches) × (a : A) × (r ≡ (mid, ok a)) × (f a mid ≡ (last, ok b))
unfolding next
next-inv (caches, err e) f last b h = cc
next-inv (caches, ok a) f last b h = (caches, a, refl, h)

pub call-inv :
    {A : Type 0} (r : Result CallError A) (caches last : Caches) (a : A)
    → call r caches ≡ (last, ok a)
    → (r ≡ ok a) × (caches ≡ last)
unfolding call call_result
call-inv (err e) caches last a h = cc
call-inv (ok b) caches last a h = (cc, cc)

module _ {RestConfig Object : Type 0} (k : Kube RestConfig Object) (c : Client)
    (resolve : String → String → String → String → Step Gvr) where
  -- The local cluster serves these versions of a group.
  pub record IsListed (token group : String) (versions : List String) : Type 0 where
    pub config : RestConfig
    pub client_set : ClientSet
    pub groups : List ApiGroup
    pub configured : create_rest_config k c token local ≡ ok config
    pub connected : k.client_set config ≡ ok client_set
    pub listed : client_set.server_groups ≡ ok groups
    pub served : versions ≡ versions_of group groups

  local_found :
      (token : String) (caches : Caches)
      → get_cluster_id k c token local caches ≡ (caches, ok local)
  unfolding get_cluster_id
  local_found token caches = refl

  pub get_api_versions_for_gr-IsListed :
      (token group : String) (versions : List String) (caches last : Caches)
      → get_api_versions_for_gr k c resolve token local group caches ≡ (last, ok versions)
      → IsListed token group versions × (caches ≡ last)
  unfolding get_api_versions_for_gr create_client_set ◌>>=◌
  get_api_versions_for_gr-IsListed token group versions caches last h =
      let (c1, client_set, made, h1) =
        next-inv (create_client_set k c resolve token local caches)
          (λ (cs : ClientSet).
            call cs.server_groups >>= λ (gs : List ApiGroup). call (ok (group_versions group gs)))
          last versions h in
      let (c2, groups, asked, h2) =
        next-inv (call client_set.server_groups c1)
          (λ (gs : List ApiGroup). call (ok (group_versions group gs))) last versions h1 in
      let (listed, kept) = call-inv client_set.server_groups c1 c2 groups asked in
      let (served, kept') = call-inv (ok (group_versions group groups)) c2 last versions h2 in
      let (c3, id, found, h3) =
        next-inv (get_cluster_id k c token local caches)
          (λ (i : String). call (create_rest_config k c token i) >>= λ (config : RestConfig).
            call (k.client_set config))
          c1 client_set made in
      let (c4, config, h4, h5) =
        next-inv (call (create_rest_config k c token id) c3)
          (λ (config : RestConfig). call (k.client_set config)) c1 client_set h3 in
      let (configured, kept2) = call-inv (create_rest_config k c token id) c3 c4 config h4 in
      let (connected, kept3) = call-inv (k.client_set config) c4 c1 client_set h5 in
      let here_found : (caches, ok local) ≡ (c3, ok id) = sym (local_found token caches) ∙ found in
      let same : local ≡ id =
        ok_injective (ap (λ (r : Caches × Result ClientError String). r.1) here_found) in
      (
        record {
          config = config;
          client_set = client_set;
          groups = groups;
          configured =
              subst (λ (i : String). create_rest_config k c token i ≡ ok config) (sym same)
                configured;
          connected = connected;
          listed = listed;
          served = sym (ok_injective served) ∙ group_versions-versions_of group groups;
        },
        ap (λ (r : Caches × Result ClientError String). r.0) here_found
            ∙ kept2
            ∙ kept3
            ∙ kept
            ∙ kept',
      )

  pub IsListed-get_api_versions_for_gr :
      (token group : String) (versions : List String) (caches : Caches)
      → IsListed token group versions
      → get_api_versions_for_gr k c resolve token local group caches ≡ (caches, ok versions)
  unfolding get_api_versions_for_gr create_client_set ◌>>=◌ next call call_result
  IsListed-get_api_versions_for_gr token group versions caches h =
      rw (h.configured, h.connected, h.listed, h.served, group_versions-versions_of group h.groups)
        refl
