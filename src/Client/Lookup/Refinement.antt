-- ===== src/Client/Lookup/Refinement.antt =====
-- Over caches that hold nothing but what names stand for, a run of lookups answers as the
-- stateless function does.
use rancher_ai_mcp.Prelude.{
  String, ◌≡◌, refl, ◌⊎◌, inl, inr, Bool-cases, Option, none, some, List, [], ◌∷◌, map, Result, ok,
  err, str_eq,
}
use rancher_ai_mcp.Prelude.Dict
use rancher_ai_mcp.Client.{
  CallError, not_found, ClientError, cluster_not_found, Client, ResourceInterface, Kube, Caches,
  store_cluster, is_named, local, interface_at, no_options, scan, scan_listed, store_fetched,
  fetch_by_id, fetch_cluster_id, known_by_name, known_by_id, get_cluster_id,
}
use rancher_ai_mcp.Client.Lookup.{cluster_of, IsUnambiguous, IsServer, IsSound, Agrees}
use rancher_ai_mcp.Client.Lookup.Steps.{scan-nil, scan-found, scan-next, get_cluster_id-Keeps}

module _ {RestConfig Object : Type 0} (k : Kube RestConfig Object) (c : Client) where
  -- The management API can be reached and answers, and display names are strings.
  pub record IsUp (token : String) : Type 0 where
    pub r : ResourceInterface Object
    pub reached : interface_at k c token "" k.managed_clusters local ≡ ok r
    pub gets :
        (wanted : String)
        → ((cluster : Object) × (r.get wanted ≡ ok cluster))
          ⊎ ((e : String) × (r.get wanted ≡ err (not_found e)))
    pub listed : List Object
    pub lists : r.list no_options ≡ ok listed
    pub names : (cluster : Object) → (name : Option String) × (k.display_name cluster ≡ ok name)

  abbrev IsAnswer : String → Result ClientError String → Type 0
  IsAnswer wanted r = ((id : String) × (r ≡ ok id)) ⊎ (r ≡ err (cluster_not_found wanted))

  scan-IsAnswer :
      (wanted : String) (rest : List Object) (caches : Caches)
      → ((cluster : Object) → (name : Option String) × (k.display_name cluster ≡ ok name))
      → IsAnswer wanted (scan k c wanted rest caches).1
  scan-IsAnswer wanted [] caches names = rw (scan-nil k c [] wanted caches) (inr refl)
  scan-IsAnswer wanted (cluster ∷ rest) caches names =
      let (name, found) = names cluster in
      elim (Bool-cases (is_named wanted name)) [
        | inl here ↦
            rw (scan-found k c [] wanted cluster rest caches name found here)
              (inl (k.get_name cluster, refl))
        | inr other ↦
            rw (scan-next k c [] wanted cluster rest caches name found other)
              (scan-IsAnswer wanted rest (store_cluster (k.get_name cluster) name caches) names)
      ]

  store_fetched-IsAnswer :
      (wanted id : String) (caches : Caches) (answer : Result CallError (Option String))
      (name : Option String)
      → answer ≡ ok name
      → IsAnswer wanted (store_fetched k c id answer caches).1
  unfolding store_fetched
  store_fetched-IsAnswer wanted id caches (err e) name same = cc
  store_fetched-IsAnswer wanted id caches (ok n) name same = inl (id, refl)

  fetch-IsAnswer :
      (token wanted : String) (caches : Caches)
      → IsUp token
      → IsAnswer wanted
          (fetch_cluster_id k c wanted
            (interface_at k c token "" k.managed_clusters local)
            caches).1
  unfolding fetch_cluster_id fetch_by_id scan_listed
  fetch-IsAnswer token wanted caches up = rw up.reached (elim (up.gets wanted) [
    | inl (cluster, got) ↦ rw got (
        let (name, found) = up.names cluster in
        store_fetched-IsAnswer wanted wanted caches (k.display_name cluster) name found)
    | inr (e, missed) ↦ rw (missed, up.lists) (scan-IsAnswer wanted up.listed caches up.names)
  ])

  known_by_name-IsAnswer :
      (token wanted : String) (o : Option String) (caches : Caches)
      → IsUp token
      → IsAnswer wanted (known_by_name k c token wanted o caches).1
  unfolding known_by_name
  known_by_name-IsAnswer token wanted (some id) caches up = inl (id, refl)
  known_by_name-IsAnswer token wanted none caches up = fetch-IsAnswer token wanted caches up

  known_by_id-IsAnswer :
      (token wanted : String) (o : Option (Unit {0})) (caches : Caches)
      → IsUp token
      → IsAnswer wanted (known_by_id k c token wanted o caches).1
  unfolding known_by_id
  known_by_id-IsAnswer token wanted (some _) caches up = inl (wanted, refl)
  known_by_id-IsAnswer token wanted none caches up =
      known_by_name-IsAnswer token wanted (Dict.get caches.display_names wanted) caches up

  get_cluster_id-IsAnswer :
      (token wanted : String) (caches : Caches)
      → IsUp token
      → IsAnswer wanted (get_cluster_id k c token wanted caches).1
  unfolding get_cluster_id
  get_cluster_id-IsAnswer token wanted caches up = elim (Bool-cases (str_eq wanted local)) [
    | inl near ↦ rw near (inl (local, refl))
    | inr far ↦ rw far (known_by_id-IsAnswer token wanted (Dict.get caches.ids wanted) caches up)
  ]

  -- The answers of a run of lookups, each with a token and a name, from some caches on.
  unfoldable pub lookups : List (String × String) → Caches → List (Result ClientError String)
  lookups [] caches = []
  lookups ((token, wanted) ∷ requests) caches =
      let looked_up = get_cluster_id k c token wanted caches in
      looked_up.1 ∷ lookups requests looked_up.0

module _ {RestConfig Object : Type 0} (k : Kube RestConfig Object) (c : Client)
    (clusters : List Object) where
  unfoldable pub answer_of : String → Option String → Result ClientError String
  answer_of wanted (some id) = ok id
  answer_of wanted none = err (cluster_not_found wanted)

  agreed :
      (wanted : String) (r : Result ClientError String)
      → IsAnswer k c wanted r
      → Agrees k c clusters wanted r
      → r ≡ answer_of wanted (cluster_of k c clusters wanted)
  unfolding answer_of
  agreed wanted r (inl (id, e)) h =
      let found : cluster_of k c clusters wanted ≡ some id = rw e at h in rw (e, found) refl
  agreed wanted r (inr e) h =
      let missing : cluster_of k c clusters wanted ≡ none = rw e at h in rw (e, missing) refl

  -- If the display name of each cluster stands for this cluster alone, and the management API is
  -- up and answers from the clusters, then every run of lookups, from the empty caches or from
  -- others that hold nothing but what names stand for, answers each name with the cluster that it
  -- stands for, and with an error exactly where it stands for none: what earlier lookups cached
  -- cannot be told from the answers.
  pub lookups-refine :
      (requests : List (String × String)) (caches : Caches)
      → IsUnambiguous k c clusters
      → IsServer k c clusters
      → ((token : String) → IsUp k c token)
      → IsSound k c clusters caches
      → lookups k c requests caches
        ≡ map
            (λ (request : String × String). answer_of request.1 (cluster_of k c clusters request.1))
            requests
  unfolding lookups
  lookups-refine [] caches unique server up sound = refl
  lookups-refine ((token, wanted) ∷ requests) caches unique server up sound =
      let kept = get_cluster_id-Keeps k c clusters token wanted caches unique server sound in
      rw
        (
          agreed wanted _ (get_cluster_id-IsAnswer k c token wanted caches (up token)) kept.1,
          lookups-refine requests (get_cluster_id k c token wanted caches).0 unique server up
              kept.0,
        )
        refl
