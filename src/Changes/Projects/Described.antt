-- ===== src/Changes/Projects/Described.antt =====
-- What the object of createProject says, field by field, of the parameters.
use rancher_ai_mcp.Prelude.{
  String, ◌≡◌, refl, sym, Bool, Bool-cases, inl, inr, Option, none, some, ◌++◌, str_eq, eq_iff,
  if◌then◌else◌, arith,
}
use rancher_ai_mcp.Prelude.Int.{pos, eqb_ℤ}
use rancher_ai_mcp.Prelude.Dict
use rancher_ai_mcp.Prelude.Dict.{Dict, get-put}
use rancher_ai_mcp.Changes.{Services, Unstructured}
use rancher_ai_mcp.Changes.Projects.{
  CreateProjectParams, Project, text_set, quota, create_project_obj, ProjectServices,
}

-- A quota of the parameters, by its key: CPU in thousandths, memory in mebibytes.
pub quota_of :
    {Object : Type 0} → ProjectServices Object → CreateProjectParams → String → Option String
quota_of x p key =
    if str_eq "limitsCpu" key
    then (if eqb_ℤ p.cpu_limit (pos 0) then none else some (x.sprintf_int "%dm" p.cpu_limit))
    else if str_eq "requestsCpu" key
    then (if eqb_ℤ p.cpu_reservation (pos 0)
        then none
        else some (x.sprintf_int "%dm" p.cpu_reservation))
    else if str_eq "limitsMemory" key
    then (if eqb_ℤ p.memory_limit (pos 0) then none else some (x.sprintf_int "%dMi" p.memory_limit))
    else if str_eq "requestsMemory" key
    then (if eqb_ℤ p.memory_reservation (pos 0)
        then none
        else some (x.sprintf_int "%dMi" p.memory_reservation))
    else none

quotas_by_key :
    (v v' w w' : String) (z z' y y' : Bool) (key : String)
    → Dict.get
        (quota "limitsCpu" v z
          ++ (quota "requestsCpu" v' z'
              ++ (quota "limitsMemory" w y ++ quota "requestsMemory" w' y')))
        key
      ≡ (if str_eq "limitsCpu" key
          then (if z then none else some v)
          else if str_eq "requestsCpu" key
          then (if z' then none else some v')
          else if str_eq "limitsMemory" key
          then (if y then none else some w)
          else if str_eq "requestsMemory" key
          then (if y' then none else some w')
          else none)
unfolding quota Dict.get
quotas_by_key v v' w w' z z' y y' key = elim (Bool-cases (str_eq "limitsCpu" key)) [
  | inl e ↦ rw (sym ((eq_iff "limitsCpu" key).0 e)) (ground arith)
  | inr e ↦ elim (Bool-cases (str_eq "requestsCpu" key)) [
    | inl f ↦ rw (sym ((eq_iff "requestsCpu" key).0 f)) (ground arith)
    | inr f ↦ elim (Bool-cases (str_eq "limitsMemory" key)) [
      | inl h ↦ rw (sym ((eq_iff "limitsMemory" key).0 h)) (ground arith)
      | inr h ↦ ground arith
    ]
  ]
]

module _ {Object : Type 0} (s : Services Object) (x : ProjectServices Object)
    (u : Unstructured Object) where
  -- The project of the parameters: its texts where they are given, its quotas where they are not
  -- zero, and nothing else.
  pub record IsProjectOf (p : CreateProjectParams) (project : Project) : Type 0 where
    pub kind : project.kind ≡ "Project"
    pub api_version : project.api_version ≡ "management.cattle.io/v3"
    pub name : project.name ≡ p.name
    pub namespace : project.namespace ≡ p.cluster
    pub cluster_name : project.cluster_name ≡ p.cluster
    pub description :
        project.description ≡ (if str_eq p.description "" then none else some p.description)
    pub display_name :
        project.display_name ≡ (if str_eq p.display_name "" then none else some p.display_name)
    pub limits :
        (key : String) → Dict.get project.container_default_resource_limit key ≡ quota_of x p key

  pub create_project_obj-IsProjectOf :
      (p : CreateProjectParams) → IsProjectOf p (create_project_obj s x u p)
  unfolding create_project_obj text_set quota_of
  create_project_obj-IsProjectOf p = record {
    kind = refl;
    api_version = refl;
    name = refl;
    namespace = refl;
    cluster_name = refl;
    description = refl;
    display_name = refl;
    limits = λ key. quotas_by_key _ _ _ _ _ _ _ _ key;
  }
