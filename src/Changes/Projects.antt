-- ===== src/Changes/Projects.antt =====
-- pkg/toolsets/core/projects: create_project.go, move_namespace.go, their plans, and the lookup of
-- a project in common.go.
pub mod Described
pub mod Lookup
pub mod Safety
use rancher_ai_mcp.Prelude.{
  ℕ, String, Bool, true, false, Option, none, some, List, [], ◌∷◌, ◌++◌, Result, ok, err,
  if◌then◌else◌, str_eq,
}
use rancher_ai_mcp.Prelude.Int.{ℤ, pos, eqb_ℤ}
use rancher_ai_mcp.Prelude.Dict
use rancher_ai_mcp.Prelude.Dict.{Dict}
use rancher_ai_mcp.Confirm.{Bytes, Operation}
use rancher_ai_mcp.Changes.{
  Gvr, Failure, not_found, project_not_found, Change, create, update, object, op_create, Reply,
  replied, Services, Unstructured, Act, ◌>>=◌, ◌>>◌, lift, return, perform, check_gate, issue,
  when_approved, plan_reply,
}

pub record CreateProjectParams : Type 0 where
  pub cluster : String
  pub name : String
  pub description : String
  pub display_name : String
  pub cpu_limit : ℤ
  pub cpu_reservation : ℤ
  pub memory_limit : ℤ
  pub memory_reservation : ℤ
  pub confirmation_token : Bytes

-- The fields of the object that `createProjectObj` builds; `none` where it sets no field.
pub record Project : Type 0 where
  pub kind : String
  pub api_version : String
  pub name : String
  pub namespace : String
  pub cluster_name : String
  pub description : Option String
  pub display_name : Option String
  pub container_default_resource_limit : Dict String

pub record MoveNamespaceParams : Type 0 where
  pub namespace : String
  pub project : String
  pub cluster : String
  pub confirmation_token : Bytes

-- What the handlers call besides the shared services.
pub record ProjectServices (Object : Type 0) : Type 0 where
  -- `GetResource` and `GetResources`: cluster, kind, namespace, and the name
  pub get_resource : String → String → String → String → Result Failure Object
  pub get_resources : String → String → String → Result Failure (List Object)
  pub project_object : Project → Object
  pub marshal_map : Dict String → Result Failure Bytes
  -- `%dm`, `%dMi`
  pub sprintf_int : String → ℤ → String
  -- `%s` of bytes
  pub show : Bytes → String
  -- the entries of `converter.K8sKindsToGVRs`
  pub project_gvr : Gvr
  pub namespace_gvr : Gvr

abbrev pub local : String
local = "local"

abbrev pub project_id_key : String
project_id_key = "field.cattle.io/projectId"

-- `if s != ""`, and `if n != 0`
unfoldable pub text_set : String → Option String
text_set s = if str_eq s "" then none else some s

pub quota : {A : Type 0} → String → A → Bool → Dict A
quota key value zero_size = if zero_size then [] else (key, value) ∷ []

pub is_not_found : Failure → Bool
is_not_found (not_found e) = true
is_not_found _ = false

module _ {Object : Type 0} (s : Services Object) (x : ProjectServices Object)
    (u : Unstructured Object) where
  pub create_project_obj : CreateProjectParams → Project
  unfolding text_set quota
  create_project_obj p = record {
    kind = "Project";
    api_version = "management.cattle.io/v3";
    name = p.name;
    namespace = p.cluster;
    cluster_name = p.cluster;
    description = text_set p.description;
    display_name = text_set p.display_name;
    container_default_resource_limit =
        quota "limitsCpu" (x.sprintf_int "%dm" p.cpu_limit) (eqb_ℤ p.cpu_limit (pos 0))
        ++ (quota "requestsCpu" (x.sprintf_int "%dm" p.cpu_reservation)
              (eqb_ℤ p.cpu_reservation (pos 0))
            ++ (quota "limitsMemory" (x.sprintf_int "%dMi" p.memory_limit)
                  (eqb_ℤ p.memory_limit (pos 0))
                ++ quota "requestsMemory" (x.sprintf_int "%dMi" p.memory_reservation)
                    (eqb_ℤ p.memory_reservation (pos 0))));
  }

  pub project_of : CreateProjectParams → Object
  unfolding create_project_obj
  project_of p = x.project_object (create_project_obj p)

  unfoldable pub create_project_operation : CreateProjectParams → Bytes → Operation
  create_project_operation p payload = record {
    tool = "createProject";
    cluster = p.cluster;
    namespace = "";
    kind = "project";
    name = p.name;
    payload = payload;
  }

  pub create_project_summary : CreateProjectParams → Bytes → String
  create_project_summary p payload =
      s.sprintf "CREATE project %s in cluster %q with the following object:\n%s"
        (p.name ∷ p.cluster ∷ x.show payload ∷ [])

  pub create_project_approved : CreateProjectParams → Act Object (Reply Object)
  unfolding ◌>>=◌ ◌>>◌ lift return perform project_of
  create_project_approved p = do
    lift (s.get_resource_interface p.cluster local x.project_gvr)
    obj ← perform s (create p.cluster local x.project_gvr (project_of p))
    text ← lift (s.create_response (obj ∷ []) p.cluster)
    return (replied text)

  pub create_project : CreateProjectParams → Act Object (Reply Object)
  unfolding ◌>>=◌ lift check_gate when_approved create_project_approved project_of
      create_project_operation create_project_summary
  create_project p = do
    payload ← lift (s.marshal (project_of p))
    approved ←
        check_gate s (create_project_operation p payload) p.confirmation_token
          (create_project_summary p payload) "" s.auto_write
    when_approved approved (create_project_approved p)

  pub create_project_plan : CreateProjectParams → Act Object (Reply Object)
  unfolding ◌>>=◌ lift issue plan_reply project_of create_project_operation
  create_project_plan p = do
    payload ← lift (s.marshal (project_of p))
    token ← issue s (create_project_operation p payload)
    plan_reply s op_create (u.get_name (project_of p)) (u.kind (project_of p)) p.cluster
        (u.get_namespace (project_of p)) (object (project_of p)) token

  display_matches : String → Option String → Bool
  display_matches wanted none = false
  display_matches wanted (some name) = s.equal_fold name wanted

  -- The loop over the projects of the cluster.
  pub find_project : String → List Object → Result Failure String
  unfolding display_matches
  find_project wanted [] = err project_not_found
  find_project wanted (project ∷ projects) =
      let rest = find_project wanted projects in
      if display_matches wanted (u.display_name project) then ok (u.get_name project) else rest

  search_project : String → Result Failure (List Object) → Result Failure String
  unfolding find_project
  search_project wanted (err e) = err e
  search_project wanted (ok projects) = find_project wanted projects

  -- `GetProjectID`: the project by ID, or else the first one with this display name.
  pub get_project_id : String → String → Result Failure String
  unfolding search_project is_not_found
  get_project_id cluster_id wanted = elim (x.get_resource local "project" cluster_id wanted) [
    | ok project ↦ ok (u.get_name project)
    | err e ↦
        if is_not_found e
        then search_project wanted (x.get_resources local "project" cluster_id)
        else err e
  ]

  -- The namespace with the project's label and annotation.
  pub moved : String → String → Object → Object
  moved cluster_id project_id namespace =
      let labelled =
        u.set_labels namespace (Dict.put project_id_key project_id (u.get_labels namespace)) in
      u.set_annotations labelled (
        Dict.put project_id_key (s.sprintf "%s:%s" (cluster_id ∷ project_id ∷ []))
          (u.get_annotations labelled))

  with_namespace :
      String → String → Result Failure Object → Result Failure (String × String × Object)
  unfolding moved
  with_namespace cluster_id project_id (err e) = err e
  with_namespace cluster_id project_id (ok namespace) =
      ok (cluster_id, project_id, moved cluster_id project_id namespace)

  with_project : String → String → Result Failure String → Result Failure (String × String × Object)
  unfolding with_namespace
  with_project cluster_id namespace (err e) = err e
  with_project cluster_id namespace (ok project_id) =
      with_namespace cluster_id project_id (x.get_resource cluster_id "namespace" "" namespace)

  with_cluster :
      MoveNamespaceParams → Result Failure String → Result Failure (String × String × Object)
  unfolding with_project get_project_id
  with_cluster p (err e) = err e
  with_cluster p (ok cluster_id) =
      with_project cluster_id p.namespace (get_project_id cluster_id p.project)

  -- `movedNamespaceObj`: cluster ID, project ID and the changed namespace.
  pub moved_namespace_obj : MoveNamespaceParams → Result Failure (String × String × Object)
  unfolding with_cluster
  moved_namespace_obj p = with_cluster p (s.get_cluster_id p.cluster)

  pub move_namespace_payload : String → String → String → Result Failure Bytes
  move_namespace_payload cluster_id namespace project_id =
      x.marshal_map
        (("cluster", cluster_id) ∷ ("namespace", namespace) ∷ ("project", project_id) ∷ [])

  unfoldable pub move_operation : MoveNamespaceParams → Bytes → Operation
  move_operation p payload = record {
    tool = "moveNamespace";
    cluster = p.cluster;
    namespace = p.namespace;
    kind = "namespace";
    name = p.namespace;
    payload = payload;
  }

  pub move_summary : MoveNamespaceParams → String → String → String
  move_summary p cluster_id project_id =
      s.sprintf
        "MOVE namespace %s in cluster %q to project %q (ID %s). The namespace's field.cattle.io/projectId label and annotation will be set to %s and %s:%s respectively."
        (p.namespace ∷ p.cluster ∷ p.project ∷ project_id ∷ project_id ∷ cluster_id ∷ project_id
          ∷ [])

  pub move_approved : String → Object → Act Object (Reply Object)
  unfolding ◌>>=◌ ◌>>◌ lift return perform
  move_approved cluster_id namespace = do
    lift (s.get_resource_interface "" cluster_id x.namespace_gvr)
    updated ← perform s (update "" cluster_id x.namespace_gvr namespace)
    text ← lift (s.create_response (updated ∷ []) cluster_id)
    return (replied text)

  pub move_namespace : MoveNamespaceParams → Act Object (Reply Object)
  unfolding ◌>>=◌ lift check_gate when_approved moved_namespace_obj move_namespace_payload
      move_operation move_summary move_approved
  move_namespace p = do
    found ← lift (moved_namespace_obj p)
    payload ← lift (move_namespace_payload found.0 p.namespace found.1)
    approved ←
        check_gate s (move_operation p payload) p.confirmation_token
          (move_summary p found.0 found.1) "" s.auto_write
    when_approved approved (move_approved found.0 found.2)

  pub move_namespace_plan : MoveNamespaceParams → Act Object (Reply Object)
  unfolding ◌>>=◌ lift issue plan_reply moved_namespace_obj move_namespace_payload move_operation
  move_namespace_plan p = do
    found ← lift (moved_namespace_obj p)
    payload ← lift (move_namespace_payload found.0 p.namespace found.1)
    token ← issue s (move_operation p payload)
    plan_reply s op_create (u.get_name found.2) (u.kind found.2) found.0 (u.get_namespace found.2)
        (object found.2) token
