-- ===== src/Changes/Resources.antt =====
-- pkg/toolsets/core: delete_resource.go, create_resource.go, patch_resource.go and their plans.
-- The patch list of a patch call is given as the bytes that `patchBytes` makes of it.
pub mod Safety
pub mod Flow
use rancher_ai_mcp.Prelude.{
  String, Bool, true, false, not, ◌&&◌, ◌||◌, Option, none, some, List, [], ◌∷◌, Result, ok, err,
  if◌then◌else◌, str_eq,
}
use rancher_ai_mcp.Confirm.{Bytes, Operation}
use rancher_ai_mcp.Changes.{
  Gvr, Failure, manifest_unparsed, manifest_incomplete, kind_mismatch, name_mismatch, Change,
  create, patch, delete, Payload, object, patched, op_create, op_update, op_delete, Reply, replied,
  Services, Unstructured, Act, ◌>>=◌, ◌>>◌, lift, return, perform, check_gate, issue, when_approved,
  plan_reply,
}

pub record DeleteParams : Type 0 where
  pub name : String
  pub namespace : String
  pub kind : String
  pub api_version : String
  pub cluster : String
  pub confirmation_token : Bytes

unfoldable pub delete_operation : DeleteParams → Operation
delete_operation p = record {
  tool = "deleteKubernetesResource";
  cluster = p.cluster;
  namespace = p.namespace;
  kind = p.kind;
  name = p.name;
  payload = [];
}

pub record CreateParams : Type 0 where
  pub name : String
  pub namespace : String
  pub kind : String
  pub cluster : String
  pub manifest : String
  pub confirmation_token : Bytes

pub record UpdateParams : Type 0 where
  pub name : String
  pub namespace : String
  pub kind : String
  pub api_version : String
  pub cluster : String
  pub patch_bytes : Bytes
  pub confirmation_token : Bytes

unfoldable pub update_operation : UpdateParams → Operation
update_operation p = record {
  tool = "patchKubernetesResource";
  cluster = p.cluster;
  namespace = p.namespace;
  kind = p.kind;
  name = p.name;
  payload = p.patch_bytes;
}

module _ {Object : Type 0} (s : Services Object) where
  unfoldable pub delete_summary : DeleteParams → Gvr → String
  delete_summary p gvr =
      s.sprintf
        "DELETE %s %s/%s in namespace %q of cluster %q. This PERMANENTLY DELETES the resource and cannot be undone."
        (gvr.group ∷ gvr.version ∷ gvr.resource ∷ p.kind ∷ p.name ∷ p.namespace ∷ p.cluster ∷ [])

  abbrev pub delete_change : DeleteParams → Gvr → Change Object
  delete_change p gvr = delete p.namespace p.cluster gvr p.name

  -- What follows the check of the gate.
  pub delete_approved : DeleteParams → Gvr → Act Object (Reply Object)
  unfolding ◌>>=◌ ◌>>◌ lift return perform
  delete_approved p gvr = do
    lift (s.get_resource_interface p.namespace p.cluster gvr)
    perform s (delete_change p gvr)
    text ← lift (
        s.create_response_any (
          ("deleted", p.name)
          ∷ ("kind", p.kind)
          ∷ ("cluster", p.cluster)
          ∷ ("namespace", p.namespace)
          ∷ []))
    return (replied text)

  pub delete_kubernetes_resource : DeleteParams → Act Object (Reply Object)
  unfolding ◌>>=◌ ◌>>◌ lift check_gate when_approved delete_approved delete_summary delete_operation
  delete_kubernetes_resource p = do
    gvr ← lift (s.resolve_gvr p.cluster p.kind p.api_version)
    approved ←
        check_gate s (delete_operation p) p.confirmation_token (delete_summary p gvr) p.name false
    when_approved approved (delete_approved p gvr)

  pub delete_kubernetes_resource_plan : DeleteParams → Act Object (Reply Object)
  unfolding ◌>>=◌ ◌>>◌ lift issue plan_reply delete_operation
  delete_kubernetes_resource_plan p = do
    gvr ← lift (s.resolve_gvr p.cluster p.kind p.api_version)
    lift (s.get_resource_interface p.namespace p.cluster gvr)
    current ← lift (s.get_object p.namespace p.cluster gvr p.name)
    token ← issue s (delete_operation p)
    plan_reply s op_delete p.name p.kind p.cluster p.namespace (object current) token

  pub update_summary : UpdateParams → Gvr → (Bytes → String) → String
  update_summary p gvr show =
      s.sprintf "PATCH %s %s/%s in namespace %q of cluster %q with patch:\n%s" (
        gvr.group
        ∷ gvr.version
        ∷ gvr.resource
        ∷ p.kind
        ∷ p.name
        ∷ p.namespace
        ∷ p.cluster
        ∷ show p.patch_bytes
        ∷ [])

  abbrev pub update_change : UpdateParams → Gvr → Change Object
  update_change p gvr = patch p.namespace p.cluster gvr p.name p.patch_bytes

  pub update_approved : UpdateParams → Gvr → Act Object (Reply Object)
  unfolding ◌>>=◌ ◌>>◌ lift return perform
  update_approved p gvr = do
    lift (s.get_resource_interface p.namespace p.cluster gvr)
    obj ← perform s (update_change p gvr)
    text ← lift (s.create_response (obj ∷ []) p.cluster)
    return (replied text)

  -- `show` is how `%s` writes the bytes.
  pub update_kubernetes_resource : (Bytes → String) → UpdateParams → Act Object (Reply Object)
  unfolding ◌>>=◌ lift check_gate when_approved update_approved update_summary update_operation
  update_kubernetes_resource show p = do
    gvr ← lift (s.resolve_gvr p.cluster p.kind p.api_version)
    approved ←
        check_gate s (update_operation p) p.confirmation_token (update_summary p gvr show) ""
          s.auto_write
    when_approved approved (update_approved p gvr)

  -- `apply` decodes the patch and applies it to the marshalled original.
  pub update_kubernetes_resource_plan :
      (Bytes → Bytes → Result Failure Bytes) → UpdateParams → Act Object (Reply Object)
  unfolding ◌>>=◌ ◌>>◌ lift issue plan_reply update_operation
  update_kubernetes_resource_plan apply p = do
    gvr ← lift (s.resolve_gvr p.cluster p.kind p.api_version)
    lift (s.get_resource_interface p.namespace p.cluster gvr)
    original ← lift (s.get_object p.namespace p.cluster gvr p.name)
    original_bytes ← lift (s.marshal original)
    patched_bytes ← lift (apply p.patch_bytes original_bytes)
    token ← issue s (update_operation p)
    plan_reply s op_update p.name p.kind p.cluster p.namespace
        (patched original p.patch_bytes patched_bytes) token

module _ {Object : Type 0} (s : Services Object) (u : Unstructured Object) where
  check_manifest : CreateParams → Object → Result Failure (Object × String)
  check_manifest p obj =
      if str_eq (u.kind obj) "" || str_eq (u.version obj) ""
      then err manifest_incomplete
      else if not (s.equal_fold p.kind (u.kind obj))
      then err kind_mismatch
      else if not (str_eq p.name "") && not (str_eq p.name (u.get_name obj))
      then err name_mismatch
      else ok (obj, (if str_eq p.namespace "" then u.get_namespace obj else p.namespace))

  pub parse_create_manifest : CreateParams → Result Failure (Object × String)
  unfolding check_manifest
  parse_create_manifest p = elim (u.unmarshal p.manifest) [
    | none ↦ err manifest_unparsed
    | some obj ↦ check_manifest p obj
  ]

  unfoldable pub create_operation : CreateParams → Object → String → Bytes → Operation
  create_operation p obj namespace payload = record {
    tool = "createKubernetesResource";
    cluster = p.cluster;
    namespace = namespace;
    kind = u.kind obj;
    name = u.get_name obj;
    payload = payload;
  }

  pub create_summary : CreateParams → Gvr → Object → String → String
  create_summary p gvr obj namespace =
      s.sprintf "CREATE %s %s/%s in namespace %q of cluster %q with manifest:\n%s" (
        gvr.group
        ∷ gvr.version
        ∷ gvr.resource
        ∷ u.kind obj
        ∷ u.get_name obj
        ∷ namespace
        ∷ p.cluster
        ∷ p.manifest
        ∷ [])

  pub create_approved : CreateParams → Gvr → Object → String → Act Object (Reply Object)
  unfolding ◌>>=◌ ◌>>◌ lift return perform
  create_approved p gvr obj namespace = do
    lift (s.get_resource_interface namespace p.cluster gvr)
    created ← perform s (create namespace p.cluster gvr obj)
    text ← lift (s.create_response (created ∷ []) p.cluster)
    return (replied text)

  pub create_kubernetes_resource : CreateParams → Act Object (Reply Object)
  unfolding ◌>>=◌ lift check_gate when_approved parse_create_manifest create_approved create_summary
      create_operation
  create_kubernetes_resource p = do
    parsed ← lift (parse_create_manifest p)
    gvr ← lift (s.resolve_gvr p.cluster (u.kind parsed.0) (u.group_version parsed.0))
    payload ← lift (s.marshal parsed.0)
    approved ←
        check_gate s (create_operation p parsed.0 parsed.1 payload) p.confirmation_token
          (create_summary p gvr parsed.0 parsed.1) "" s.auto_write
    when_approved approved (create_approved p gvr parsed.0 parsed.1)

  pub create_kubernetes_resource_plan : CreateParams → Act Object (Reply Object)
  unfolding ◌>>=◌ lift issue plan_reply parse_create_manifest create_operation
  create_kubernetes_resource_plan p = do
    parsed ← lift (parse_create_manifest p)
    payload ← lift (s.marshal parsed.0)
    token ← issue s (create_operation p parsed.0 parsed.1 payload)
    plan_reply s op_create (u.get_name parsed.0) (u.kind parsed.0) p.cluster
        (u.get_namespace parsed.0) (object parsed.0) token
