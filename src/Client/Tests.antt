-- ===== src/Client/Tests.antt =====
-- Two clusters behind one Rancher: an object is a cluster's ID with its display name.
use mathlib.Core.List.Memᴰ.{head, tail}
use rancher_ai_mcp.Prelude.{
  String, ◌≡◌, refl, ap, sym, ◌∙◌, inl, inr, false, Bool-cases, some, List, [], ◌∷◌, Result, ok,
  err, if◌then◌else◌, str_eq, eq_iff,
}
use rancher_ai_mcp.Prelude.Dict
use rancher_ai_mcp.Changes.{Gvr}
use rancher_ai_mcp.Client.{
  CallError, not_found, cluster_not_found, Client, ResourceInterface, Kube, Step, local,
  interface_at, get_cluster_id,
}
use rancher_ai_mcp.Client.Lookup.{
  cluster_of, IsUnambiguous, IsFaithful, IsServer, no_caches, no_caches-IsSound,
}
use rancher_ai_mcp.Client.Lookup.Refinement.{IsUp, lookups, answer_of, lookups-refine}
use rancher_ai_mcp.Client.Lookup.Shadow.{display_name_shadows}
use rancher_ai_mcp.Client.Requests.{GetParams, ListParams}
use rancher_ai_mcp.Prelude.Int.{pos}

abbrev ManagedCluster : Type 0
ManagedCluster = String × String

abbrev prod : ManagedCluster
prod = ("c-1", "prod")

abbrev dev : ManagedCluster
dev = ("c-2", "dev")

abbrev answer : String → Result CallError ManagedCluster
answer wanted =
    if str_eq "c-1" wanted
    then ok prod
    else if str_eq "c-2" wanted
    then ok dev
    else err (not_found wanted)

abbrev management : ResourceInterface ManagedCluster
management = record { get = answer; list = λ options. ok (prod ∷ dev ∷ []) }

abbrev clusters_gvr : Gvr
clusters_gvr = record { group = "management.cattle.io"; version = "v3"; resource = "clusters" }

abbrev kube_of : ResourceInterface ManagedCluster → Kube String ManagedCluster
kube_of r = record {
  client_config = λ config. ok config.server;
  dyn_client = λ config. ok (record { resource = λ gvr. r; namespaced = λ gvr namespace. r });
  client_set = λ config. ok (record { server_groups = ok [] });
  get_name = λ cluster. cluster.0;
  display_name = λ cluster. ok (some cluster.1);
  managed_clusters = clusters_gvr;
  kinds = [];
  to_lower = λ s. s;
}

abbrev kube : Kube String ManagedCluster
kube = kube_of management

abbrev client : Client
client = record { insecure = false; rancher_url = "https://rancher"; ca_bundle = [] }

abbrev both : List ManagedCluster
both = prod ∷ dev ∷ []

looked_up : Unit {0}
unfolding Dict.get Dict.put Dict.remove get_cluster_id interface_at cluster_of lookups answer_of
looked_up = tt

both-IsUnambiguous : IsUnambiguous kube client both
unfolding looked_up
both-IsUnambiguous cluster name (head e) same =
    let named : "prod" ≡ name = cc (rw e at same) in rw (sym named, e) refl
both-IsUnambiguous cluster name (tail (head e)) same =
    let named : "dev" ≡ name = cc (rw e at same) in rw (sym named, e) refl
both-IsUnambiguous cluster name (tail (tail m)) same = elim m [ ]

management-IsFaithful : IsFaithful kube client both management
management-IsFaithful = record {
  gets = λ wanted cluster got. elim (Bool-cases (str_eq "c-1" wanted)) [
    | inl e ↦
        let same : prod ≡ cluster = cc (rw e at got) in
        (head (sym same), ap (λ (m : ManagedCluster). m.0) (sym same) ∙ (eq_iff "c-1" wanted).0 e)
    | inr e ↦ elim (Bool-cases (str_eq "c-2" wanted)) [
      | inl e' ↦
          let same : dev ≡ cluster = cc (rw (e, e') at got) in
          (
            tail (head (sym same)),
            ap (λ (m : ManagedCluster). m.0) (sym same) ∙ (eq_iff "c-2" wanted).0 e',
          )
      | inr e' ↦ cc (rw (e, e') at got)
    ]
  ];
  misses = λ wanted e missed. elim (Bool-cases (str_eq "c-1" wanted)) [
    | inl h ↦ cc (rw h at missed)
    | inr h ↦ elim (Bool-cases (str_eq "c-2" wanted)) [
      | inl h' ↦ cc (rw (h, h') at missed)
      | inr h' ↦ rw (h, h') refl
    ]
  ];
  lists = λ listed got. cc;
}

reached-IsServer : IsServer kube client both
unfolding interface_at
reached-IsServer token r e = let same : management ≡ r = cc e in rw (sym same) management-IsFaithful

all-IsUp : (token : String) → IsUp kube client token
unfolding interface_at
all-IsUp token = record {
  r = management;
  reached = refl;
  gets = λ wanted. elim (Bool-cases (str_eq "c-1" wanted)) [
    | inl e ↦ inl (prod, rw e refl)
    | inr e ↦ elim (Bool-cases (str_eq "c-2" wanted)) [
      | inl e' ↦ inl (dev, rw (e, e') refl)
      | inr e' ↦ inr (wanted, rw (e, e') refl)
    ]
  ];
  listed = both;
  lists = refl;
  names = λ cluster. (some cluster.1, refl);
}

lookups-refine_example :
    lookups kube client (("t", "prod") ∷ ("t", "c-2") ∷ ("t", "dev") ∷ ("t", "x") ∷ []) no_caches
    ≡ ok "c-1" ∷ ok "c-2" ∷ ok "c-2" ∷ err (cluster_not_found "x") ∷ []
unfolding looked_up
lookups-refine_example =
    lookups-refine kube client both (("t", "prod") ∷ ("t", "c-2") ∷ ("t", "dev") ∷ ("t", "x") ∷ [])
      no_caches both-IsUnambiguous reached-IsServer all-IsUp (no_caches-IsSound kube client both)

abbrev trap : ManagedCluster
trap = ("c-1", "c-2")

abbrev trapped : ResourceInterface ManagedCluster
trapped = record {
  get = λ wanted. if str_eq "c-1" wanted then ok trap else ok dev;
  list = λ options. ok (trap ∷ dev ∷ []);
}

display_name_shadows_example :
    ((get_cluster_id (kube_of trapped) client "t" "c-2" no_caches).1 ≡ ok "c-2")
    × ((get_cluster_id
          (kube_of trapped)
          client
          "t"
          "c-2"
          (get_cluster_id (kube_of trapped) client "t" "c-1" no_caches).0).1
        ≡ ok "c-1")
unfolding looked_up
display_name_shadows_example =
    display_name_shadows (kube_of trapped) client "t" "c-1" "c-2" trapped trap dev (some "dev") refl
      refl refl refl refl refl refl refl

abbrev machines : Gvr
machines = record { group = "cluster.x-k8s.io"; version = ""; resource = "machines" }

abbrev never : String → String → String → String → Step Gvr
never token cluster kind version caches = (caches, err (cluster_not_found cluster))

-- A Rancher that serves two versions of the group of machines.
abbrev capi : Kube String ManagedCluster
capi = record kube {
  client_set = λ config. ok (record {
    server_groups =
        ok (record { name = "cluster.x-k8s.io"; versions = "v1beta1" ∷ "v1beta2" ∷ [] } ∷ []);
  });
  kinds = ("machine", machines) ∷ [];
}

abbrev get_dev : GetParams
get_dev = record {
  cluster = local;
  kind = "machine";
  api_version = "";
  namespace = "";
  name = "c-2";
  token = "t";
}

abbrev list_all : ListParams
list_all = record {
  cluster = local;
  kind = "machine";
  api_version = "";
  namespace = "";
  name = "";
  token = "t";
  label_selector = "";
  limit = pos 0;
}
