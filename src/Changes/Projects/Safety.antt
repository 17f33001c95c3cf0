-- ===== src/Changes/Projects/Safety.antt =====
-- What createProject and moveNamespace can change, and that planning them changes nothing.
use mathlib.Core.Path.{subst}
use rancher_ai_mcp.Prelude.{
  String, ◌≡◌, refl, some, [], ◌∷◌, Result, ok, err, ok_injective, str_eq, if◌then◌else◌,
}
use rancher_ai_mcp.Prelude.Dict
use rancher_ai_mcp.Prelude.Dict.{Dict, get-put}
use rancher_ai_mcp.Confirm.{Bytes, Gate}
use rancher_ai_mcp.Changes.{Failure, Change, create, update, Services, Unstructured}
use rancher_ai_mcp.Changes.Rules.{
  Silent, Gated, IsCleared, Silent-lift, Silent-issue, Silent-plan_reply, Gated-lift, Gated-then,
  Gated-perform, Gated-check,
}
use rancher_ai_mcp.Changes.Projects.{
  CreateProjectParams, Project, create_project_obj, MoveNamespaceParams, ProjectServices, local,
  project_of, create_project_operation, create_project_summary, create_project_approved,
  create_project, create_project_plan, project_id_key, get_project_id, moved, with_namespace,
  with_project, with_cluster, moved_namespace_obj, move_namespace_payload, move_operation,
  move_summary, move_approved, move_namespace, move_namespace_plan,
}
use rancher_ai_mcp.Changes.Projects.Described.{IsProjectOf, create_project_obj-IsProjectOf}
use rancher_ai_mcp.Changes.Projects.Lookup.{IsProject, get_project_id-IsProject}

module _ {Object : Type 0} (s : Services Object) (x : ProjectServices Object)
    (u : Unstructured Object) where
  create_project_approved-Gated :
      (p : CreateProjectParams)
      → Gated
          (λ g c. c ≡ create p.cluster local x.project_gvr (project_of s x u p))
          (create_project_approved s x u p)
  unfolding create_project_approved
  create_project_approved-Gated p =
      Gated-then _ (s.get_resource_interface p.cluster local x.project_gvr) _ (
        Gated-perform s (create p.cluster local x.project_gvr (project_of s x u p)) _
          (λ a. Silent-lift (s.create_response (a ∷ []) p.cluster) _ (λ text g. refl)))

  abbrev pub IsNewProject : CreateProjectParams → Gate → Change Object → Type 0
  IsNewProject p g c =
      (project : Project) × (payload : Bytes) × IsProjectOf s x u p project
      × (s.marshal (x.project_object project) ≡ ok payload)
      × (c ≡ create p.cluster "local" x.project_gvr (x.project_object project))
      × IsCleared s
          (record {
            tool = "createProject";
            cluster = p.cluster;
            namespace = "";
            kind = "project";
            name = p.name;
            payload = payload;
          })
          p.confirmation_token
          (s.sprintf "CREATE project %s in cluster %q with the following object:\n%s"
            (p.name ∷ p.cluster ∷ x.show payload ∷ []))
          "" s.auto_write g

  -- A createProject call makes at most one change, the creation in the local cluster of a project
  -- with the name and the cluster of its parameters, their description and display name where they
  -- are not empty, and their four quotas where they are not zero; and only if the gate cleared,
  -- with the call's token, the operation with this cluster and name and the project's bytes as
  -- payload, on a summary that shows them, which in auto-write mode it does unasked.
  pub create_project-Gated :
      (p : CreateProjectParams) → Gated (IsNewProject p) (create_project s x u p)
  unfolding create_project project_of create_project_operation create_project_summary
  create_project-Gated p = Gated-lift _ (s.marshal (project_of s x u p)) _ (λ payload e.
      Gated-check (λ c. c ≡ create p.cluster local x.project_gvr (project_of s x u p)) _ s
        (create_project_operation s x u p payload) p.confirmation_token
        (create_project_summary s x u p payload) "" s.auto_write (create_project_approved s x u p)
        (create_project_approved-Gated p)
        (λ g c clear same. (
          create_project_obj s x u p,
          payload,
          create_project_obj-IsProjectOf s x u p,
          e,
          same,
          clear,
        )))

  -- The namespace as it is found, with the label and the annotation of the project found, and its
  -- other labels and annotations kept.
  pub data IsMoved (p : MoveNamespaceParams) (cluster_id project_id : String) (obj : Object)
      : Type 0 where
    is_moved :
        (namespace : Object) (labels annotations : Dict String)
        → s.get_cluster_id p.cluster ≡ ok cluster_id
        → IsProject s x u cluster_id p.project project_id
        → x.get_resource cluster_id "namespace" "" p.namespace ≡ ok namespace
        → obj ≡ u.set_annotations (u.set_labels namespace labels) annotations
        → ((key : String)
            → Dict.get labels key ≡ (
                if str_eq "field.cattle.io/projectId" key
                then some project_id
                else Dict.get (u.get_labels namespace) key))
        → ((key : String)
            → Dict.get annotations key ≡ (
                if str_eq "field.cattle.io/projectId" key
                then some (s.sprintf "%s:%s" (cluster_id ∷ project_id ∷ []))
                else Dict.get (u.get_annotations (u.set_labels namespace labels)) key))
        → IsMoved p cluster_id project_id obj

  with_namespace-IsMoved :
      (p : MoveNamespaceParams) (id project : String) (r : Result Failure Object)
      (found : String × String × Object)
      → s.get_cluster_id p.cluster ≡ ok id
      → get_project_id s x u id p.project ≡ ok project
      → x.get_resource id "namespace" "" p.namespace ≡ r
      → with_namespace s x u id project r ≡ ok found
      → IsMoved p found.0 found.1 found.2
  unfolding with_namespace moved
  with_namespace-IsMoved p id project (err e) found f h k m = cc
  with_namespace-IsMoved p id project (ok namespace) found f h k m =
      let e : (id, project, moved s x u id project namespace) ≡ found = ok_injective m in
      subst (λ (t : String × String × Object). IsMoved p t.0 t.1 t.2) e
        (is_moved namespace _ _ f (get_project_id-IsProject s x u id p.project project h) k refl
          (λ key. get-put project_id_key key project (u.get_labels namespace))
          (λ key. get-put project_id_key key _ _))

  with_project-IsMoved :
      (p : MoveNamespaceParams) (id : String) (r : Result Failure String)
      (found : String × String × Object)
      → s.get_cluster_id p.cluster ≡ ok id
      → get_project_id s x u id p.project ≡ r
      → with_project s x u id p.namespace r ≡ ok found
      → IsMoved p found.0 found.1 found.2
  unfolding with_project
  with_project-IsMoved p id (err e) found f h m = cc
  with_project-IsMoved p id (ok project) found f h m =
      with_namespace-IsMoved p id project _ found f h refl m

  with_cluster-IsMoved :
      (p : MoveNamespaceParams) (r : Result Failure String) (found : String × String × Object)
      → s.get_cluster_id p.cluster ≡ r
      → with_cluster s x u p r ≡ ok found
      → IsMoved p found.0 found.1 found.2
  unfolding with_cluster
  with_cluster-IsMoved p (err e) found f m = cc
  with_cluster-IsMoved p (ok id) found f m = with_project-IsMoved p id _ found f refl m

  moved_namespace_obj-IsMoved :
      (p : MoveNamespaceParams) (found : String × String × Object)
      → moved_namespace_obj s x u p ≡ ok found
      → IsMoved p found.0 found.1 found.2
  unfolding moved_namespace_obj
  moved_namespace_obj-IsMoved p found m = with_cluster-IsMoved p _ found refl m

  move_approved-Gated :
      (cluster_id : String) (obj : Object)
      → Gated
          (λ g c. c ≡ update "" cluster_id x.namespace_gvr obj)
          (move_approved s x u cluster_id obj)
  unfolding move_approved
  move_approved-Gated cluster_id obj =
      Gated-then _ (s.get_resource_interface "" cluster_id x.namespace_gvr) _ (
        Gated-perform s (update "" cluster_id x.namespace_gvr obj) _
          (λ a. Silent-lift (s.create_response (a ∷ []) cluster_id) _ (λ text g. refl)))

  abbrev pub IsMove : MoveNamespaceParams → Gate → Change Object → Type 0
  IsMove p g c =
      (cluster_id : String) × (project_id : String) × (obj : Object) × (payload : Bytes) × IsMoved p
        cluster_id project_id obj
      × (x.marshal_map
            (("cluster", cluster_id) ∷ ("namespace", p.namespace) ∷ ("project", project_id) ∷ [])
          ≡ ok payload)
      × (c ≡ update "" cluster_id x.namespace_gvr obj)
      × IsCleared s
          (record {
            tool = "moveNamespace";
            cluster = p.cluster;
            namespace = p.namespace;
            kind = "namespace";
            name = p.namespace;
            payload = payload;
          })
          p.confirmation_token
          (s.sprintf
            "MOVE namespace %s in cluster %q to project %q (ID %s). The namespace's field.cattle.io/projectId label and annotation will be set to %s and %s:%s respectively."
            (p.namespace ∷ p.cluster ∷ p.project ∷ project_id ∷ project_id ∷ cluster_id ∷ project_id
              ∷ []))
          "" s.auto_write g

  -- A moveNamespace call makes at most one change: it updates the named namespace as it is found,
  -- with the project's label and annotation set to the ID of the project that the call names, by
  -- ID or by display name, and to cluster and project ID, and its other labels and annotations
  -- kept; and only if the gate cleared, with the call's token, the operation with this namespace
  -- and as payload the map of resolved cluster, namespace and project, on a summary that shows
  -- them, which in auto-write mode it does unasked.
  pub move_namespace-Gated : (p : MoveNamespaceParams) → Gated (IsMove p) (move_namespace s x u p)
  unfolding move_namespace move_namespace_payload move_operation move_summary
  move_namespace-Gated p = Gated-lift _ (moved_namespace_obj s x u p) _ (λ found e.
      Gated-lift _ (move_namespace_payload s x u found.0 p.namespace found.1) _ (λ payload f.
        Gated-check (λ c. c ≡ update "" found.0 x.namespace_gvr found.2) _ s
          (move_operation s x u p payload) p.confirmation_token
          (move_summary s x u p found.0 found.1) "" s.auto_write
          (move_approved s x u found.0 found.2) (move_approved-Gated found.0 found.2)
          (λ g c clear same. (
            found.0,
            found.1,
            found.2,
            payload,
            moved_namespace_obj-IsMoved p found e,
            f,
            same,
            clear,
          ))))

  -- Planning a project or a move changes nothing, on any path.
  pub project_plans-Silent :
      ((p : CreateProjectParams) → Silent (create_project_plan s x u p))
      × ((p : MoveNamespaceParams) → Silent (move_namespace_plan s x u p))
  unfolding create_project_plan move_namespace_plan
  project_plans-Silent = (
    λ p. Silent-lift (s.marshal (project_of s x u p)) _ (λ payload.
        Silent-issue s (create_project_operation s x u p payload) _
          (λ token. Silent-plan_reply s _ _ _ _ _ _ token)),
    λ p. Silent-lift (moved_namespace_obj s x u p) _ (λ found.
        Silent-lift (move_namespace_payload s x u found.0 p.namespace found.1) _ (λ payload.
          Silent-issue s (move_operation s x u p payload) _
            (λ token. Silent-plan_reply s _ _ _ _ _ _ token))),
  )
