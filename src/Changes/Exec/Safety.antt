-- ===== src/Changes/Exec/Safety.antt =====
-- What execPod can run, and that planning it runs nothing.
use mathlib.Core.List.{append-nil}
use rancher_ai_mcp.Prelude.{
  String, ◌≡◌, ◌≢◌, refl, sym, ap, ◌∙◌, Bool, true, false, List, [], ◌∷◌, ◌++◌, map, ok, err,
  is_empty, drop, if◌then◌else◌, str_eq, eq_iff, ne-str_eq, arith,
}
use rancher_ai_mcp.Confirm.{Bytes, Gate, require_token}
use rancher_ai_mcp.Confirm.Approval.{IsApproved}
use rancher_ai_mcp.Changes.{
  command_empty, Change, exec, Services, Unstructured, ◌>>=◌, lift, check_gate, when_approved,
}
use rancher_ai_mcp.Changes.Rules.{
  Silent, Gated, bypassed, confirmed, Silent-lift, Silent-issue, Silent-plan_reply, Gated-lift,
  Gated-then, Gated-make, Gated-err, Gated-check, Silent-if,
}
use rancher_ai_mcp.Changes.Exec.{
  ExecParams, ExecServices, command_payload, exec_query, exec_result, exec_operation, exec_summary,
  exec_url, exec_approved, exec_pod, exec_pod_plan,
}

-- The values of a key in a query, in their order.
pub values : String → List (String × String) → List String
values key [] = []
values key ((k, v) ∷ query) = let rest = values key query in if str_eq k key then v ∷ rest else rest

values-command :
    (key : String) (command : List String) (rest : List (String × String))
    → values key (map (λ (arg : String). ("command", arg)) command ++ rest)
      ≡ (if str_eq "command" key then command ++ values key rest else values key rest)
unfolding values
values-command key [] rest = ground arith
values-command key (arg ∷ command) rest = ground (arith, values-command key command rest)

-- The query runs this command in this container, with both outputs and nothing else.
pub record IsQuery (p : ExecParams) (query : List (String × String)) : Type 0 where
  pub command : values "command" query ≡ p.command
  pub container : p.container ≢ "" → values "container" query ≡ p.container ∷ []
  pub default : p.container ≡ "" → values "container" query ≡ []
  pub stdout : values "stdout" query ≡ "true" ∷ []
  pub stderr : values "stderr" query ≡ "true" ∷ []
  pub stdin : values "stdin" query ≡ []
  pub tty : values "tty" query ≡ []

exec_query-IsQuery : (p : ExecParams) → IsQuery p (exec_query p)
unfolding exec_query values
exec_query-IsQuery p = record {
  command = values-command "command" p.command _ ∙ ground (arith, append-nil p.command);
  container = λ given.
      values-command "container" p.command _ ∙ ground (arith, ne-str_eq p.container "" given);
  default = λ empty.
      values-command "container" p.command _ ∙ ground (arith, (eq_iff p.container "").1 empty);
  stdout = values-command "stdout" p.command _ ∙ ground arith;
  stderr = values-command "stderr" p.command _ ∙ ground arith;
  stdin = values-command "stdin" p.command _ ∙ ground arith;
  tty = values-command "tty" p.command _ ∙ ground arith;
}

-- The arguments of a command, each behind a zero byte.
pub separated : (String → Bytes) → List String → Bytes
separated bytes [] = []
separated bytes (arg ∷ args) = 0 ∷ (bytes arg ++ separated bytes args)

command_payload-separated :
    (bytes : String → Bytes) (command : List String)
    → command_payload bytes command ≡ drop 1 (separated bytes command)
unfolding command_payload separated
command_payload-separated bytes [] = refl
command_payload-separated bytes (arg ∷ []) = sym (append-nil (bytes arg))
command_payload-separated bytes (arg ∷ (next ∷ args)) =
    ap (λ (b : Bytes). bytes arg ++ 0 ∷ b) (command_payload-separated bytes (next ∷ args))

module _ {Object : Type 0} (s : Services Object) (x : ExecServices Object) where
  -- The exec request for these parameters, at the pod's URL in the cluster that they name.
  pub data IsExec (p : ExecParams) (c : Change Object) : Type 0 where
    is_exec :
        (cluster_id host url : String) (query : List (String × String))
        → s.get_cluster_id p.cluster ≡ ok cluster_id
        → x.create_rest_config cluster_id ≡ ok host
        → x.parse_url (
            s.sprintf "%s/api/v1/namespaces/%s/pods/%s/exec"
              (host ∷ x.path_escape p.namespace ∷ x.path_escape p.name ∷ []))
          ≡ ok url
        → IsQuery p query
        → c ≡ exec cluster_id url query
        → IsExec p c

  exec_approved-Gated : (p : ExecParams) → Gated (λ g c. IsExec p c) (exec_approved s x p)
  unfolding exec_approved exec_url
  exec_approved-Gated p = Gated-lift _ (s.get_cluster_id p.cluster) _ (λ id e.
      Gated-lift _ (x.create_rest_config id) _ (λ host f.
        Gated-lift _ (x.parse_url (exec_url s x p host)) _ (λ url h.
          Gated-then _ (x.new_executor url (exec_query p)) _ (
            Gated-make _ (exec id url (exec_query p)) (exec_result p (x.stream _)) _
              (λ g. is_exec id host url (exec_query p) e f h (exec_query-IsQuery p) refl)
              (λ result. Silent-lift (x.exec_response result) _ (λ text g. refl))))))

  abbrev pub IsExecution : ExecParams → Gate → Change Object → Type 0
  IsExecution p g c =
      IsExec p c
      × (is_empty p.command ≡ false)
      × ((require_token s.codec g
            (record {
              tool = "execPod";
              cluster = p.cluster;
              namespace = p.namespace;
              kind = "pod";
              name = p.name;
              payload = drop 1 (separated x.bytes p.command);
            })
            p.confirmation_token s.now s.now').1
          ≡ ok tt)
      × IsApproved s.elicit
          (s.sprintf
            "EXECUTE command in pod %s/%s (container %q) of cluster %q:\n\n  %s\n\nThis runs inside the pod with the pod's privileges."
            (p.namespace ∷ p.name ∷ p.container ∷ p.cluster ∷ x.join " " p.command ∷ []))
          ""

  Gated-unless_empty :
      (p : ExecParams) (b : Bool)
      → is_empty p.command ≡ b
      → Gated (IsExecution p) (
          if b
          then lift (err command_empty)
          else (check_gate s
                (exec_operation s x p)
                p.confirmation_token
                (exec_summary s x p)
                ""
                false
              >>= λ approved. when_approved approved (exec_approved s x p)))
  unfolding exec_operation exec_summary
  Gated-unless_empty p true e = Gated-err _ _ command_empty
  Gated-unless_empty p false e =
      Gated-check (IsExec p) _ s (exec_operation s x p) p.confirmation_token (exec_summary s x p) ""
        false (exec_approved s x p) (exec_approved-Gated p)
        (λ g c clear run. elim clear [
          | bypassed b ↦ absurd (cc b)
          | confirmed accepted approved ↦
              (run, e, rw (sym (command_payload-separated x.bytes p.command)) accepted, approved)
        ])

  -- An exec call makes at most one change, the exec request at the URL of the named pod whose
  -- query has exactly the arguments of the call's command, its container, or none where the call
  -- gives none, and no input; and only if the command is not empty, the gate accepted the call's
  -- token for the operation with this cluster, namespace and pod and the arguments, separated by
  -- zero bytes, as payload (the token does not bind the container), and the user then approved the
  -- summary of pod, container, cluster and command, in auto-write mode as well.
  pub exec_pod-Gated : (p : ExecParams) → Gated (IsExecution p) (exec_pod s x p)
  unfolding exec_pod
  exec_pod-Gated p = Gated-unless_empty p (is_empty p.command) refl

  -- Planning an exec runs nothing, on any path.
  pub exec_pod_plan-Silent :
      (u : Unstructured Object) (p : ExecParams) → Silent (exec_pod_plan s x u p)
  unfolding exec_pod_plan lift
  exec_pod_plan-Silent u p =
      Silent-if (is_empty p.command) _ _ (λ g. refl)
        (Silent-lift (x.get_pod p) _ (λ pod.
          Silent-issue s (exec_operation s x p) _ (λ token. Silent-plan_reply s _ _ _ _ _ _ token)))
