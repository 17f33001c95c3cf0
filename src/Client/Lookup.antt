-- ===== src/Client/Lookup.antt =====
-- What a lookup of a cluster may answer, over the caches that earlier lookups filled: the
-- lookups refine one function of the list of clusters.
pub mod Steps
pub mod Refinement
pub mod Shadow
use mathlib.Core.List.{Memᴰ}
use mathlib.Core.List.Memᴰ.{head, tail}
use rancher_ai_mcp.Prelude.{
  String, ◌≡◌, ◌≢◌, refl, ap, sym, ◌∙◌, inl, inr, Bool, true, false, Bool-cases, ◌||◌, Option, none,
  some, List, [], ◌∷◌, Result, ok, err, Result-cases, if◌then◌else◌, str_eq, eq_iff, eq_refl, All,
  arith,
}
use rancher_ai_mcp.Prelude.Dict
use rancher_ai_mcp.Prelude.Dict.{get-put-inv, get-empty}
use rancher_ai_mcp.Client.{
  CallError, call_failed, not_found, ClientError, call_error, unknown_kind, cluster_not_found,
  Client, ResourceInterface, Kube, Caches, Step, store_id, store_display_name, store_cluster,
  is_named, local, interface_at, no_options, scan, scan_listed, store_fetched, fetch_by_id,
  fetch_cluster_id, known_by_name, known_by_id, get_cluster_id,
}

abbrev pub no_caches : Caches
no_caches = record { ids = []; display_names = [] }

module _ {RestConfig Object : Type 0} (k : Kube RestConfig Object) (c : Client)
    (clusters : List Object) where
  abbrev pub has_id : String → List Object → Bool
  has_id wanted [] = false
  has_id wanted (cluster ∷ rest) = str_eq (k.get_name cluster) wanted || has_id wanted rest

  abbrev pub has_display_name : String → Result CallError (Option String) → Bool
  has_display_name wanted (err e) = false
  has_display_name wanted (ok name) = is_named wanted name

  -- The ID of the first cluster with this display name.
  abbrev pub named : String → List Object → Option String
  named wanted [] = none
  named wanted (cluster ∷ rest) =
      let later = named wanted rest in
      if has_display_name wanted (k.display_name cluster) then some (k.get_name cluster) else later

  -- The cluster that a name stands for: "local", a cluster's ID, or else the display name of the
  -- first cluster that has it.
  unfoldable pub cluster_of : String → Option String
  cluster_of wanted =
      if str_eq wanted local
      then some local
      else if has_id wanted clusters
      then some wanted
      else named wanted clusters

  -- The display name of each cluster stands for this cluster: no two clusters share one, and none
  -- is the ID of another cluster.
  abbrev pub IsUnambiguous : Type 0
  IsUnambiguous =
      (cluster : Object) (name : String)
      → Memᴰ cluster clusters
      → k.display_name cluster ≡ ok (some name)
      → cluster_of name ≡ some (k.get_name cluster)

  -- The management API answers from these clusters, or fails with an error of its own.
  pub record IsFaithful (r : ResourceInterface Object) : Type 0 where
    pub gets :
        (wanted : String) (cluster : Object)
        → r.get wanted ≡ ok cluster
        → Memᴰ cluster clusters × (k.get_name cluster ≡ wanted)
    pub misses :
        (wanted e : String) → r.get wanted ≡ err (not_found e) → has_id wanted clusters ≡ false
    pub lists : (listed : List Object) → r.list no_options ≡ ok listed → listed ≡ clusters

  abbrev pub IsServer : Type 0
  IsServer =
      (token : String) (r : ResourceInterface Object)
      → interface_at k c token "" k.managed_clusters local ≡ ok r
      → IsFaithful r

  -- The caches hold nothing but what names stand for.
  pub record IsSound (caches : Caches) : Type 0 where
    pub ids :
        (wanted : String) → Dict.get caches.ids wanted ≡ some tt → cluster_of wanted ≡ some wanted
    pub names :
        (wanted id : String)
        → Dict.get caches.display_names wanted ≡ some id
        → cluster_of wanted ≡ some id

  -- A cluster's ID is right, and so is the answer that there is none. The error of a call says
  -- nothing.
  abbrev pub Agrees : String → Result ClientError String → Type 0
  Agrees wanted (ok id) = cluster_of wanted ≡ some id
  Agrees wanted (err (cluster_not_found w)) = cluster_of wanted ≡ none
  Agrees wanted (err (call_error e)) = Unit
  Agrees wanted (err (unknown_kind e)) = Unit

  abbrev pub Keeps : String → Caches × Result ClientError String → Type 0
  Keeps wanted r = IsSound r.0 × Agrees wanted r.1

  pub no_caches-IsSound : IsSound no_caches
  no_caches-IsSound = record {
    ids = λ wanted h. cc (get-empty {0} {V = Unit} wanted, h);
    names = λ wanted id h. cc (get-empty {0} {V = String} wanted, h);
  }

  has_id-member :
      (cluster : Object) (rest : List Object)
      → Memᴰ cluster rest
      → has_id (k.get_name cluster) rest ≡ true
  has_id-member cluster [] m = elim m [ ]
  has_id-member cluster (first ∷ rest) (head e) =
      rw (ap k.get_name (sym e), eq_refl (k.get_name cluster)) refl
  has_id-member cluster (first ∷ rest) (tail m) = ground (arith, has_id-member cluster rest m)

  pub cluster_of-member :
      (cluster : Object)
      → Memᴰ cluster clusters
      → cluster_of (k.get_name cluster) ≡ some (k.get_name cluster)
  unfolding cluster_of
  cluster_of-member cluster m = elim (Bool-cases (str_eq (k.get_name cluster) local)) [
    | inl e ↦ rw e (ap some (sym ((eq_iff (k.get_name cluster) local).0 e)))
    | inr e ↦ rw (e, has_id-member cluster clusters m) refl
  ]

  pub store_id-IsSound :
      (id : String) (caches : Caches)
      → cluster_of id ≡ some id
      → IsSound caches
      → IsSound (store_id id caches)
  unfolding store_id
  store_id-IsSound id caches same sound = record {
    ids = λ wanted h. elim (get-put-inv id wanted tt tt caches.ids h) [
      | inl (e, _) ↦ rw e at same
      | inr old ↦ sound.ids wanted old
    ];
    names = sound.names;
  }

  store_display_name-IsSound :
      (name id : String) (caches : Caches)
      → cluster_of name ≡ some id
      → IsSound caches
      → IsSound (store_display_name name id caches)
  unfolding store_display_name
  store_display_name-IsSound name id caches same sound = record {
    ids = sound.ids;
    names = λ wanted id' h. elim (get-put-inv name wanted id id' caches.display_names h) [
      | inl (e, e') ↦ rw (e, e') at same
      | inr old ↦ sound.names wanted id' old
    ];
  }

  pub store_cluster-IsSound :
      (cluster : Object) (name : Option String) (caches : Caches)
      → IsUnambiguous
      → Memᴰ cluster clusters
      → k.display_name cluster ≡ ok name
      → IsSound caches
      → IsSound (store_cluster (k.get_name cluster) name caches)
  unfolding store_cluster
  store_cluster-IsSound cluster none caches unique m e sound =
      store_id-IsSound (k.get_name cluster) caches (cluster_of-member cluster m) sound
  store_cluster-IsSound cluster (some name) caches unique m e sound =
      store_display_name-IsSound name (k.get_name cluster) (store_id (k.get_name cluster) caches)
        (unique cluster name m e)
        (store_id-IsSound (k.get_name cluster) caches (cluster_of-member cluster m) sound)
