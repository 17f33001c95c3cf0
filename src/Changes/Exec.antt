-- ===== src/Changes/Exec.antt =====
-- pkg/toolsets/core/exec_pod.go and exec_pod_plan.go: a command in a pod's container.
pub mod Safety
use rancher_ai_mcp.Prelude.{
  ℕ, String, Bool, true, false, Option, none, some, List, [], ◌∷◌, ◌++◌, map, Result, ok, err,
  if◌then◌else◌, str_eq, is_empty,
}
use rancher_ai_mcp.Prelude.Int.{ℤ, pos}
use rancher_ai_mcp.CappedBuffer.{CappedBuffer, empty, write_all}
use rancher_ai_mcp.Confirm.{Bytes, Operation}
use rancher_ai_mcp.Changes.{
  Failure, call_failed, command_empty, exec_disabled, Change, exec, Payload, command_in, op_execute,
  Reply, replied, Services, Unstructured, Act, ◌>>=◌, ◌>>◌, lift, return, make, check_gate, issue,
  when_approved, plan_reply,
}

pub record ExecParams : Type 0 where
  pub cluster : String
  pub namespace : String
  pub name : String
  pub container : String
  pub command : List String
  pub confirmation_token : Bytes

-- How the stream ended: `err == nil`, a `CodeExitError`, the context's deadline, another error.
pub data StreamEnd : Type 0 where
  exited : StreamEnd
  exit_error : ℤ → StreamEnd
  deadline_exceeded : StreamEnd
  stream_error : String → StreamEnd

-- What the stream wrote, one entry for each `Write`.
pub record Stream : Type 0 where
  pub stdout : List Bytes
  pub stderr : List Bytes
  pub ended : StreamEnd

pub record ExecResult : Type 0 where
  pub pod : String
  pub namespace : String
  pub container : String
  pub command : List String
  pub stdout : CappedBuffer
  pub stderr : CappedBuffer
  pub exit_code : Option ℤ
  pub timed_out : Bool

-- What the handler calls besides the shared services.
pub record ExecServices (Object : Type 0) : Type 0 where
  -- `CreateRestConfig`, its host
  pub create_rest_config : String → Result Failure String
  pub path_escape : String → String
  pub parse_url : String → Result Failure String
  pub new_executor : String → List (String × String) → Result Failure (Unit {0})
  pub stream : Change Object → Stream
  pub exec_response : ExecResult → Result Failure String
  pub get_pod : ExecParams → Result Failure Object
  -- the bytes of a text, and a text of bytes as `%s` writes it
  pub bytes : String → Bytes
  pub join : String → List String → String

abbrev pub exec_output_limit : ℕ
exec_output_limit = 65536

-- `strings.Join(command, "\x00")`, as bytes.
pub command_payload : (String → Bytes) → List String → Bytes
command_payload bytes [] = []
command_payload bytes (arg ∷ []) = bytes arg
command_payload bytes (arg ∷ (next ∷ args)) = bytes arg ++ 0 ∷ command_payload bytes (next ∷ args)

-- The query: the parsed URL has none of its own, and `q.Encode()` sorts it by key and keeps the
-- order of one key's values.
pub exec_query : ExecParams → List (String × String)
exec_query p =
    map (λ (arg : String). ("command", arg)) p.command
    ++ ((if str_eq p.container "" then [] else ("container", p.container) ∷ [])
        ++ ("stderr", "true") ∷ ("stdout", "true") ∷ [])

-- `defaultContainerName`: the first container with a name that is not empty.
pub default_container_name : List (Option String) → String
default_container_name [] = ""
default_container_name (none ∷ containers) = default_container_name containers
default_container_name (some name ∷ containers) =
    let rest = default_container_name containers in if str_eq name "" then rest else name

exit_code_of : StreamEnd → Option ℤ
exit_code_of exited = some (pos 0)
exit_code_of (exit_error code) = some code
exit_code_of _ = none

timed_out_of : StreamEnd → Bool
timed_out_of deadline_exceeded = true
timed_out_of _ = false

-- The result of a stream, or the error it is reported as.
pub exec_result : ExecParams → Stream → Result Failure ExecResult
unfolding exit_code_of timed_out_of
exec_result p stream = elim (stream.ended) [
  | stream_error e ↦ err (call_failed e)
  | ended ↦ ok (record {
    pod = p.name;
    namespace = p.namespace;
    container = p.container;
    command = p.command;
    stdout = write_all stream.stdout (empty exec_output_limit);
    stderr = write_all stream.stderr (empty exec_output_limit);
    exit_code = exit_code_of ended;
    timed_out = timed_out_of ended;
  })
]

module _ {Object : Type 0} (s : Services Object) (x : ExecServices Object) where
  unfoldable pub exec_operation : ExecParams → Operation
  exec_operation p = record {
    tool = "execPod";
    cluster = p.cluster;
    namespace = p.namespace;
    kind = "pod";
    name = p.name;
    payload = command_payload x.bytes p.command;
  }

  pub exec_summary : ExecParams → String
  exec_summary p =
      s.sprintf
        "EXECUTE command in pod %s/%s (container %q) of cluster %q:\n\n  %s\n\nThis runs inside the pod with the pod's privileges."
        (p.namespace ∷ p.name ∷ p.container ∷ p.cluster ∷ x.join " " p.command ∷ [])

  pub exec_url : ExecParams → String → String
  exec_url p host =
      s.sprintf "%s/api/v1/namespaces/%s/pods/%s/exec"
        (host ∷ x.path_escape p.namespace ∷ x.path_escape p.name ∷ [])

  pub exec_approved : ExecParams → Act Object (Reply Object)
  unfolding ◌>>=◌ ◌>>◌ lift return make exec_query exec_result exec_url
  exec_approved p = do
    cluster_id ← lift (s.get_cluster_id p.cluster)
    host ← lift (x.create_rest_config cluster_id)
    url ← lift (x.parse_url (exec_url p host))
    lift (x.new_executor url (exec_query p))
    let change : Change Object = exec cluster_id url (exec_query p)
    result ← make change (exec_result p (x.stream change))
    text ← lift (x.exec_response result)
    return (replied text)

  pub exec_pod : ExecParams → Act Object (Reply Object)
  unfolding ◌>>=◌ lift check_gate when_approved exec_approved exec_summary exec_operation
  exec_pod p = if is_empty p.command then lift (err command_empty) else (do
    approved ← check_gate s (exec_operation p) p.confirmation_token (exec_summary p) "" false
    when_approved approved (exec_approved p))

  pub exec_pod_plan : Unstructured Object → ExecParams → Act Object (Reply Object)
  unfolding ◌>>=◌ lift issue plan_reply exec_operation default_container_name
  exec_pod_plan u p = if is_empty p.command then lift (err command_empty) else (do
    pod ← lift (x.get_pod p)
    let container =
        if str_eq p.container ""
        then default_container_name (u.container_names pod)
        else p.container
    token ← issue s (exec_operation p)
    plan_reply s op_execute p.name "pod" p.cluster p.namespace (command_in container p.command)
        token)

  -- `execGated`
  unfoldable pub exec_gated : Act Object (Reply Object) → Act Object (Reply Object)
  unfolding lift
  exec_gated k = if s.enable_exec then k else lift (err exec_disabled)
