-- ===== src/Client/Lookup/Steps.antt =====
-- The steps of a lookup, each over caches that hold nothing but what names stand for.
use mathlib.Core.List.{Memᴰ}
use mathlib.Core.List.Memᴰ.{head, tail}
use rancher_ai_mcp.Prelude.{
  String, ◌≡◌, refl, inl, inr, true, false, Bool-cases, Option, none, some, List, [], ◌∷◌, Result,
  ok, err, Result-cases, str_eq,
}
use rancher_ai_mcp.Prelude.Dict
use rancher_ai_mcp.Client.{
  CallError, call_failed, not_found, call_error, cluster_not_found, Client, ResourceInterface, Kube,
  Caches, store_id, store_cluster, is_named, local, interface_at, no_options, scan, scan_listed,
  store_fetched, fetch_by_id, fetch_cluster_id, known_by_name, known_by_id, get_cluster_id,
}
use rancher_ai_mcp.Client.Lookup.{
  named, cluster_of, IsUnambiguous, IsFaithful, IsServer, IsSound, Agrees, Keeps, cluster_of-member,
  store_id-IsSound, store_cluster-IsSound,
}

module _ {RestConfig Object : Type 0} (k : Kube RestConfig Object) (c : Client)
    (clusters : List Object) where
  pub scan-nil :
      (wanted : String) (caches : Caches)
      → scan k c wanted [] caches ≡ (caches, err (cluster_not_found wanted))
  unfolding scan
  scan-nil wanted caches = refl

  pub scan-err :
      (wanted : String) (cluster : Object) (rest : List Object) (caches : Caches) (e : CallError)
      → k.display_name cluster ≡ err e
      → scan k c wanted (cluster ∷ rest) caches
        ≡ (store_id (k.get_name cluster) caches, err (call_error e))
  unfolding scan
  scan-err wanted cluster rest caches e failed = rw (failed, scan) refl

  pub scan-found :
      (wanted : String) (cluster : Object) (rest : List Object) (caches : Caches)
      (name : Option String)
      → k.display_name cluster ≡ ok name
      → is_named wanted name ≡ true
      → scan k c wanted (cluster ∷ rest) caches
        ≡ (store_cluster (k.get_name cluster) name caches, ok (k.get_name cluster))
  unfolding scan
  scan-found wanted cluster rest caches name found here = rw (found, here, scan) refl

  pub scan-next :
      (wanted : String) (cluster : Object) (rest : List Object) (caches : Caches)
      (name : Option String)
      → k.display_name cluster ≡ ok name
      → is_named wanted name ≡ false
      → scan k c wanted (cluster ∷ rest) caches
        ≡ scan k c wanted rest (store_cluster (k.get_name cluster) name caches)
  unfolding scan
  scan-next wanted cluster rest caches name found other = rw (found, other, scan) refl

  scan-Keeps :
      (wanted : String) (rest : List Object) (caches : Caches)
      → IsUnambiguous k c clusters
      → ((cluster : Object) → Memᴰ cluster rest → Memᴰ cluster clusters)
      → cluster_of k c clusters wanted ≡ named k c clusters wanted rest
      → IsSound k c clusters caches
      → Keeps k c clusters wanted (scan k c wanted rest caches)
  scan-Keeps wanted [] caches unique sub same sound = rw (scan-nil wanted caches) (sound, same)
  scan-Keeps wanted (cluster ∷ rest) caches unique sub same sound =
      elim (Result-cases (k.display_name cluster)) [
        | inl (e, failed) ↦ rw (scan-err wanted cluster rest caches e failed) (
          store_id-IsSound k c clusters (k.get_name cluster) caches
              (cluster_of-member k c clusters cluster (sub cluster (head refl))) sound,
          tt,
        )
        | inr (name, found) ↦
            let stored =
              store_cluster-IsSound k c clusters cluster name caches unique
                (sub cluster (head refl)) found sound in
            elim (Bool-cases (is_named wanted name)) [
              | inl here ↦
                  rw (scan-found wanted cluster rest caches name found here)
                    (stored, rw (found, here) at same)
              | inr other ↦ rw (scan-next wanted cluster rest caches name found other) (
                  scan-Keeps wanted rest (store_cluster (k.get_name cluster) name caches) unique
                    (λ o m. sub o (tail m)) (rw (found, other) at same) stored)
            ]
      ]

  scan_listed-Keeps :
      (wanted : String) (r : ResourceInterface Object) (answer : Result CallError (List Object))
      (caches : Caches)
      → IsUnambiguous k c clusters
      → IsFaithful k c clusters r
      → cluster_of k c clusters wanted ≡ named k c clusters wanted clusters
      → r.list no_options ≡ answer
      → IsSound k c clusters caches
      → Keeps k c clusters wanted (scan_listed k c wanted answer caches)
  unfolding scan_listed
  scan_listed-Keeps wanted r (err e) caches unique h far same sound = (sound, tt)
  scan_listed-Keeps wanted r (ok listed) caches unique h far same sound =
      rw (h.lists listed same) (scan-Keeps wanted clusters caches unique (λ cluster m. m) far sound)

  store_fetched-Keeps :
      (wanted : String) (cluster : Object) (answer : Result CallError (Option String))
      (caches : Caches)
      → IsUnambiguous k c clusters
      → Memᴰ cluster clusters
      → k.get_name cluster ≡ wanted
      → k.display_name cluster ≡ answer
      → IsSound k c clusters caches
      → Keeps k c clusters wanted (store_fetched k c wanted answer caches)
  unfolding store_fetched
  store_fetched-Keeps wanted cluster (err e) caches unique m same found sound = (
    store_id-IsSound k c clusters wanted caches
        (rw same at (cluster_of-member k c clusters cluster m)) sound,
    tt,
  )
  store_fetched-Keeps wanted cluster (ok name) caches unique m same found sound = (
    rw same at (store_cluster-IsSound k c clusters cluster name caches unique m found sound),
    rw same at (cluster_of-member k c clusters cluster m),
  )

  fetch_by_id-Keeps :
      (wanted : String) (r : ResourceInterface Object) (answer : Result CallError Object)
      (caches : Caches)
      → IsUnambiguous k c clusters
      → IsFaithful k c clusters r
      → str_eq wanted local ≡ false
      → r.get wanted ≡ answer
      → IsSound k c clusters caches
      → Keeps k c clusters wanted (fetch_by_id k c wanted r answer caches)
  unfolding fetch_by_id cluster_of
  fetch_by_id-Keeps wanted r (err (call_failed e)) caches unique h far same sound = (sound, tt)
  fetch_by_id-Keeps wanted r (err (not_found e)) caches unique h far same sound =
      scan_listed-Keeps wanted r (r.list no_options) caches unique h
        (rw (cluster_of, far, h.misses wanted e same) refl) refl sound
  fetch_by_id-Keeps wanted r (ok cluster) caches unique h far same sound =
      let found = h.gets wanted cluster same in
      store_fetched-Keeps wanted cluster (k.display_name cluster) caches unique found.0 found.1 refl
        sound

  fetch_cluster_id-Keeps :
      (token wanted : String) (answer : Result CallError (ResourceInterface Object))
      (caches : Caches)
      → IsUnambiguous k c clusters
      → IsServer k c clusters
      → str_eq wanted local ≡ false
      → interface_at k c token "" k.managed_clusters local ≡ answer
      → IsSound k c clusters caches
      → Keeps k c clusters wanted (fetch_cluster_id k c wanted answer caches)
  unfolding fetch_cluster_id
  fetch_cluster_id-Keeps token wanted (err e) caches unique server far same sound = (sound, tt)
  fetch_cluster_id-Keeps token wanted (ok r) caches unique server far same sound =
      fetch_by_id-Keeps wanted r (r.get wanted) caches unique (server token r same) far refl sound

  known_by_name-Keeps :
      (token wanted : String) (answer : Option String) (caches : Caches)
      → IsUnambiguous k c clusters
      → IsServer k c clusters
      → str_eq wanted local ≡ false
      → Dict.get caches.display_names wanted ≡ answer
      → IsSound k c clusters caches
      → Keeps k c clusters wanted (known_by_name k c token wanted answer caches)
  unfolding known_by_name
  known_by_name-Keeps token wanted (some id) caches unique server far same sound =
      (sound, sound.names wanted id same)
  known_by_name-Keeps token wanted none caches unique server far same sound =
      fetch_cluster_id-Keeps token wanted _ caches unique server far refl sound

  known_by_id-Keeps :
      (token wanted : String) (answer : Option (Unit {0})) (caches : Caches)
      → IsUnambiguous k c clusters
      → IsServer k c clusters
      → str_eq wanted local ≡ false
      → Dict.get caches.ids wanted ≡ answer
      → IsSound k c clusters caches
      → Keeps k c clusters wanted (known_by_id k c token wanted answer caches)
  unfolding known_by_id
  known_by_id-Keeps token wanted (some _) caches unique server far same sound =
      (sound, sound.ids wanted same)
  known_by_id-Keeps token wanted none caches unique server far same sound =
      known_by_name-Keeps token wanted _ caches unique server far refl sound

  -- If the display name of each cluster stands for this cluster alone, and the management API
  -- answers from the clusters or fails, then a lookup over caches that hold nothing but what names
  -- stand for keeps the caches so, and if it answers, with the ID of the cluster that the name
  -- stands for, and if it reports that there is no cluster, there is none.
  pub get_cluster_id-Keeps :
      (token wanted : String) (caches : Caches)
      → IsUnambiguous k c clusters
      → IsServer k c clusters
      → IsSound k c clusters caches
      → IsSound k c clusters (get_cluster_id k c token wanted caches).0
        × Agrees k c clusters wanted (get_cluster_id k c token wanted caches).1
  unfolding get_cluster_id cluster_of
  get_cluster_id-Keeps token wanted caches unique server sound =
      elim (Bool-cases (str_eq wanted local)) [
        | inl near ↦ rw (get_cluster_id, near) (sound, rw (cluster_of, near) refl)
        | inr far ↦
            rw (get_cluster_id, far)
              (known_by_id-Keeps token wanted _ caches unique server far refl sound)
      ]
