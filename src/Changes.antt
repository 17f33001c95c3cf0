-- ===== src/Changes.antt =====
-- The handlers behind planChange and executeChange (pkg/toolsets): what they share. A handler
-- runs on the confirmation gate, and its outcome lists the calls it made that change a cluster.
-- The requests of one handler see fixed answers: `Services` holds what the cluster, the client
-- library, the user and the clock answer while the handler runs.
pub mod Rules
pub mod Resources
pub mod Exec
pub mod Projects
pub mod NodePool
pub mod Releases
pub mod Clusters
pub mod Toy
mod Tests
use rancher_ai_mcp.Prelude.{
  ℕ, ◌+◌, String, Bool, true, false, Option, none, some, List, [], ◌∷◌, ◌++◌, Result, ok, err,
  if◌then◌else◌,
}
use rancher_ai_mcp.Prelude.Dict.{Dict}
use rancher_ai_mcp.Confirm.{Bytes, Error, Operation, Codec, Gate, issue_token}
use rancher_ai_mcp.ScaleNodePool
use rancher_ai_mcp.Dispatch.{DispatchError}
use rancher_ai_mcp.Confirm.Approval.{Elicit, check}

-- `schema.GroupVersionResource`
pub record Gvr : Type 0 where
  pub group : String
  pub version : String
  pub resource : String

-- The errors a handler returns. `call_failed` is one that a call of it returned.
pub data Failure : Type 0 where
  gate_error : Error → Failure
  call_failed not_found : String → Failure
  command_empty exec_disabled : Failure
  manifest_unparsed manifest_incomplete : Failure
  kind_mismatch name_mismatch : Failure
  project_not_found : Failure
  local_cluster : Failure
  -- a parameter that is refused, by its name
  invalid : String → Failure
  -- a response that is not of the expected form, or not a success
  unexpected_response : String → Failure
  bad_status : ℕ → Failure
  dispatch_error : DispatchError → Failure
  -- a call of a tool that is not registered
  unknown_tool : Failure
  scale_error : ScaleNodePool.Error → Failure

-- A call that changes a cluster: namespace, cluster and resource type first.
pub data Change (Object : Type 0) : Type 0 where
  create : String → String → Gvr → Object → Change Object
  patch : String → String → Gvr → String → Bytes → Change Object
  delete : String → String → Gvr → String → Change Object
  update : String → String → Gvr → Object → Change Object
  -- a POST to Rancher's own API: URL and body
  post : String → Bytes → Change Object
  -- a command in a pod: cluster ID, URL and query
  exec : String → String → List (String × String) → Change Object

-- What a plan shows besides the resource's identity.
pub data Payload (Object : Type 0) : Type 0 where
  object : Object → Payload Object
  patch_bytes : Bytes → Payload Object
  patched : Object → Bytes → Bytes → Payload Object
  command_in : String → List String → Payload Object

pub data OperationType : Type 0 where
  op_create op_update op_delete op_execute : OperationType

pub record Plan (Object : Type 0) : Type 0 where
  pub type : OperationType
  pub name : String
  pub kind : String
  pub cluster : String
  pub namespace : String
  pub payload : Payload Object
  pub token : Bytes
  pub expires_at : ℕ

pub data Reply (Object : Type 0) : Type 0 where
  cancelled : Reply Object
  replied : String → Reply Object
  planned : Plan Object → String → Reply Object

-- What a handler calls: its configuration, the client (pkg/client), the response builder
-- (pkg/response), the user's answer, the random source and the clock.
pub record Services (Object : Type 0) : Type 0 where
  pub codec : Codec
  pub elicit : Elicit
  pub auto_write : Bool
  pub enable_exec : Bool
  pub random : Option Bytes
  pub now : ℕ
  pub now' : ℕ
  pub resolve_gvr : String → String → String → Result Failure Gvr
  pub get_resource_interface : String → String → Gvr → Result Failure (Unit {0})
  pub get_cluster_id : String → Result Failure String
  -- cluster, namespace, resource type, name
  pub get_object : String → String → Gvr → String → Result Failure Object
  pub answer : Change Object → Result Failure Object
  pub marshal : Object → Result Failure Bytes
  pub sprintf : String → List String → String
  pub to_lower : String → String
  pub equal_fold : String → String → Bool
  pub create_response : List Object → String → Result Failure String
  pub create_response_any : Dict String → Result Failure String
  pub create_plan_response : Plan Object → Result Failure String

-- `unstructured.Unstructured` of apimachinery, and `yaml.Unmarshal` into it.
pub record Unstructured (Object : Type 0) : Type 0 where
  pub unmarshal : String → Option Object
  pub group_version : Object → String
  pub version : Object → String
  pub kind : Object → String
  pub get_name : Object → String
  pub get_namespace : Object → String
  pub get_labels : Object → Dict String
  pub set_labels : Object → Dict String → Object
  pub get_annotations : Object → Dict String
  pub set_annotations : Object → Dict String → Object
  -- `NestedString(o.Object, "spec", "displayName")`, `none` where it is not found
  pub display_name : Object → Option String
  -- the "name" fields of the maps under "spec.containers", `none` where one is no string
  pub container_names : Object → List (Option String)

pub record Outcome (Object A : Type 0) : Type 0 where
  pub gate : Gate
  pub changes : List (Change Object)
  pub result : Result Failure A

-- A part of a handler.
abbrev pub Act : Type 0 → Type 0 → Type 0
Act Object A = Gate → Outcome Object A

pub finish :
    {Object A B : Type 0}
    → Gate
    → List (Change Object)
    → Result Failure A
    → (A → Act Object B)
    → Outcome Object B
finish g changes (err e) f = record { gate = g; changes = changes; result = err e }
finish g changes (ok a) f = record {
  gate = (f a g).gate;
  changes = changes ++ (f a g).changes;
  result = (f a g).result;
}

infixl 5 ◌>>=◌ ◌>>◌
unfoldable pub ◌>>=◌ : {Object A B : Type 0} → Act Object A → (A → Act Object B) → Act Object B
unfolding finish
(m >>= f) g = finish (m g).gate (m g).changes (m g).result f

unfoldable pub ◌>>◌ : {Object A B : Type 0} → Act Object A → Act Object B → Act Object B
unfolding ◌>>=◌
m >> k = m >>= λ _. k

-- A call that changes nothing: `x, err := ...; if err != nil { return err }`
unfoldable pub lift : {Object A : Type 0} → Result Failure A → Act Object A
lift r g = record { gate = g; changes = []; result = r }

unfoldable pub return : {Object A : Type 0} → A → Act Object A
unfolding lift
return a = lift (ok a)

-- A call that changes a cluster is made, whatever it answers.
unfoldable pub make : {Object A : Type 0} → Change Object → Result Failure A → Act Object A
make change r g = record { gate = g; changes = change ∷ []; result = r }

-- `resourceInterface.Create` and its kin
unfoldable pub perform : {Object : Type 0} → Services Object → Change Object → Act Object Object
unfolding make
perform s change = make change (s.answer change)

pub gate_result : {A : Type 0} → Result Error A → Result Failure A
gate_result (ok a) = ok a
gate_result (err e) = err (gate_error e)

-- `Gate.Check`
unfoldable pub check_gate :
    {Object : Type 0}
    → Services Object
    → Operation
    → Bytes
    → String
    → String
    → Bool
    → Act Object Bool
unfolding gate_result
check_gate s op token summary typed_name bypass g =
    let r = check s.codec s.elicit g op token summary typed_name bypass s.now s.now' in
    record { gate = r.0; changes = []; result = gate_result r.1 }

-- `Gate.IssueToken`
unfoldable pub issue : {Object : Type 0} → Services Object → Operation → Act Object Bytes
unfolding gate_result
issue s op g = record {
  gate = g;
  changes = [];
  result = gate_result (issue_token s.codec g op s.random s.now);
}

-- `time.Now().Add(Gate.TokenTTL)`
unfoldable pub token_expiry : {Object : Type 0} → Services Object → Act Object ℕ
token_expiry s g = record { gate = g; changes = []; result = ok (s.now' + g.token_ttl) }

-- `if !approved { return confirm.CancelledResult() }`
unfoldable pub when_approved :
    {Object : Type 0} → Bool → Act Object (Reply Object) → Act Object (Reply Object)
unfolding return
when_approved false k = return cancelled
when_approved true k = k

-- `CreatePlanResponse`, after the token is issued.
unfoldable pub plan_reply :
    {Object : Type 0}
    → Services Object
    → OperationType
    → String
    → String
    → String
    → String
    → Payload Object
    → Bytes
    → Act Object (Reply Object)
unfolding ◌>>=◌ return token_expiry lift
plan_reply {Object} s type name kind cluster namespace payload token = do
  expires_at ← token_expiry s
  let plan : Plan Object = record {
    type = type;
    name = name;
    kind = kind;
    cluster = cluster;
    namespace = namespace;
    payload = payload;
    token = token;
    expires_at = expires_at;
  }
  text ← lift (s.create_plan_response plan)
  return (planned plan text)
