-- ===== src/Client/Lookup/Shadow.antt =====
-- A display name that is another cluster's ID: what a lookup answers depends on earlier lookups.
use rancher_ai_mcp.Prelude.{String, ◌≡◌, refl, false, Option, none, some, [], ok, str_eq, eq_refl}
use rancher_ai_mcp.Prelude.Dict
use rancher_ai_mcp.Prelude.Dict.{get-put, get-empty}
use rancher_ai_mcp.Client.{
  Client, ResourceInterface, Kube, store_id, store_display_name, store_cluster, local, interface_at,
  store_fetched, fetch_by_id, fetch_cluster_id, known_by_name, known_by_id, get_cluster_id,
}
use rancher_ai_mcp.Client.Lookup.{no_caches}

module _ {RestConfig Object : Type 0} (k : Kube RestConfig Object) (c : Client) where
  -- A lookup by ID over caches without the name fetches the cluster, and caches its display name.
  fetched :
      (token id : String) (r : ResourceInterface Object) (cluster : Object) (name : Option String)
      → str_eq id local ≡ false
      → interface_at k c token "" k.managed_clusters local ≡ ok r
      → r.get id ≡ ok cluster
      → k.display_name cluster ≡ ok name
      → get_cluster_id k c token id no_caches ≡ (store_cluster id name no_caches, ok id)
  unfolding get_cluster_id known_by_id known_by_name fetch_cluster_id fetch_by_id store_fetched
  fetched token id r cluster name far reached got named =
      rw (far, get-empty {0} {V = Unit} id, get-empty {0} {V = String} id, reached, got, named) refl

  shadowed :
      (token id name : String)
      → str_eq name local ≡ false
      → str_eq id name ≡ false
      → (get_cluster_id k c token name (store_cluster id (some name) no_caches)).1 ≡ ok id
  unfolding get_cluster_id known_by_id known_by_name store_cluster store_id store_display_name
  shadowed token id name far other =
      let unknown : ◌≡◌ {0} {A = Option (Unit {0})} (Dict.get (Dict.put id tt []) name) none =
        rw (get-put {0} {V = Unit} id name tt [], other, get-empty {0} {V = Unit} name) refl in
      let cached : Dict.get (Dict.put name id []) name ≡ some id =
        rw (get-put {0} {V = String} name name id [], eq_refl name) refl in
      rw (far, unknown, cached) refl

  -- If the display name of one cluster is the ID of another, then the ID of the other stands for
  -- the other in a lookup over empty caches, and for the first cluster in a lookup that follows
  -- one of the first.
  pub display_name_shadows :
      (token id other : String) (r : ResourceInterface Object) (first second : Object)
      (name : Option String)
      → str_eq id local ≡ false
      → str_eq other local ≡ false
      → str_eq id other ≡ false
      → interface_at k c token "" k.managed_clusters local ≡ ok r
      → r.get id ≡ ok first
      → r.get other ≡ ok second
      → k.display_name first ≡ ok (some other)
      → k.display_name second ≡ ok name
      → ((get_cluster_id k c token other no_caches).1 ≡ ok other)
        × ((get_cluster_id k c token other (get_cluster_id k c token id no_caches).0).1 ≡ ok id)
  display_name_shadows token id other r first second name far far' apart reached got got' named
        named' =
      (
        rw (fetched token other r second name far' reached got' named') refl,
        rw (fetched token id r first (some other) far reached got named)
            (shadowed token id other far' apart),
      )
