-- ===== src/Changes/Resources/Flow.antt =====
-- From a plan to the change: the token that the plan of a deletion returns is good for it.
use rancher_ai_mcp.Prelude.{
  ◌+◌, ◌≤◌, String, ◌≡◌, refl, ap, ◌∙◌, Bool, true, false, none, some, [], ◌∷◌, Result, ok,
}
use rancher_ai_mcp.Prelude.Dict
use rancher_ai_mcp.Confirm.{Bytes, Error, Operation, Gate, issue_token, require_token}
use rancher_ai_mcp.Confirm.Approval.{check, IsApproved, check_iff}
use rancher_ai_mcp.Confirm.Issue.{IsCodec, require-issue}
use rancher_ai_mcp.Changes.{
  Gvr, Failure, delete, object, op_delete, Plan, Reply, planned, Services, Outcome, Act, finish,
  ◌>>=◌, ◌>>◌, lift, perform, gate_result, check_gate, issue, token_expiry, when_approved,
  plan_reply,
}
use rancher_ai_mcp.Changes.Rules.{Silent-lift, make_sent}
use rancher_ai_mcp.Changes.Resources.{
  DeleteParams, delete_operation, delete_summary, delete_change, delete_approved,
  delete_kubernetes_resource, delete_kubernetes_resource_plan,
}

module _ {Object : Type 0} where
  -- Steps that succeed.
  pub lift_ok :
      {A B : Type 0} (r : Result Failure A) (a : A) (f : A → Act Object B) (g : Gate)
      → r ≡ ok a
      → (lift r >>= f) g ≡ f a g
  unfolding finish ◌>>=◌ lift
  lift_ok r a f g e = rw e refl

  finish_cleared :
      (g : Gate) (r : Result Error Bool) (k : Act Object (Reply Object))
      → r ≡ ok true
      → (finish g [] (gate_result r) (λ b. when_approved b k)).changes ≡ (k g).changes
  unfolding finish gate_result when_approved
  finish_cleared g r k e = rw e refl

  pub check_cleared :
      (s : Services Object) (op : Operation) (token : Bytes) (summary typed_name : String)
      (bypass : Bool) (k : Act Object (Reply Object)) (g : Gate)
      → (check s.codec s.elicit g op token summary typed_name bypass s.now s.now').1 ≡ ok true
      → ((check_gate s op token summary typed_name bypass >>= λ approved. when_approved approved k)
          g).changes
        ≡ (k (check s.codec s.elicit g op token summary typed_name bypass s.now s.now').0).changes
  unfolding check_gate ◌>>=◌
  check_cleared s op token summary typed_name bypass k g e = finish_cleared _ _ k e

module _ {Object : Type 0} (s : Services Object) where
  delete_approved_sent :
      (p : DeleteParams) (gvr : Gvr) (g : Gate)
      → s.get_resource_interface p.namespace p.cluster gvr ≡ ok tt
      → (delete_approved s p gvr g).changes ≡ delete p.namespace p.cluster gvr p.name ∷ []
  unfolding delete_approved ◌>>◌ perform
  delete_approved_sent p gvr g found =
      ap (λ (o : Outcome Object (Reply Object)). o.changes) (lift_ok _ tt _ g found)
      ∙ make_sent (delete_change s p gvr) (s.answer (delete_change s p gvr)) _
          (λ a. Silent-lift (s.create_response_any _) _ (λ text g'. refl)) g

  -- If the kind resolves, the resource interface is there, the gate accepts the token for the
  -- deletion and the user approves it by typing the name, then the deletion is sent, once.
  pub delete_sent :
      (p : DeleteParams) (gvr : Gvr) (g : Gate)
      → s.resolve_gvr p.cluster p.kind p.api_version ≡ ok gvr
      → s.get_resource_interface p.namespace p.cluster gvr ≡ ok tt
      → (require_token s.codec g (delete_operation p) p.confirmation_token s.now s.now').1 ≡ ok tt
      → IsApproved s.elicit (delete_summary s p gvr) p.name
      → (delete_kubernetes_resource s p g).changes ≡ delete p.namespace p.cluster gvr p.name ∷ []
  unfolding delete_kubernetes_resource
  delete_sent p gvr g resolved found accepted approved =
      ap (λ (o : Outcome Object (Reply Object)). o.changes) (lift_ok _ gvr _ g resolved)
      ∙ check_cleared s (delete_operation p) p.confirmation_token (delete_summary s p gvr) p.name
          false (delete_approved s p gvr) g
          ((check_iff s.codec s.elicit g (delete_operation p) p.confirmation_token
              (delete_summary s p gvr) p.name s.now s.now').0.1
            (accepted, approved))
      ∙ delete_approved_sent p gvr _ found

  issue_ok :
      {B : Type 0} (op : Operation) (token : Bytes) (f : Bytes → Act Object B) (g : Gate)
      → issue_token s.codec g op s.random s.now ≡ ok token
      → (issue s op >>= f) g ≡ f token g
  unfolding issue ◌>>=◌ finish gate_result
  issue_ok op token f g e = rw e refl

  abbrev pub delete_plan : DeleteParams → Object → Bytes → Gate → Plan Object
  delete_plan p current token g = record {
    type = op_delete;
    name = p.name;
    kind = p.kind;
    cluster = p.cluster;
    namespace = p.namespace;
    payload = object current;
    token = token;
    expires_at = s.now' + g.token_ttl;
  }

  -- The plan's steps succeed: the kind resolves, the resource is there, a token is issued and the
  -- answer can be written.
  pub record IsPlanned (p : DeleteParams) (g : Gate) (nonce token : Bytes) : Type 0 where
    pub gvr : Gvr
    pub current : Object
    pub text : String
    pub resolved : s.resolve_gvr p.cluster p.kind p.api_version ≡ ok gvr
    pub found : s.get_resource_interface p.namespace p.cluster gvr ≡ ok tt
    pub got : s.get_object p.namespace p.cluster gvr p.name ≡ ok current
    pub random : s.random ≡ some nonce
    pub issued : issue_token s.codec g (delete_operation p) (some nonce) s.now ≡ ok token
    pub written : s.create_plan_response (delete_plan p current token g) ≡ ok text

  planned_reply :
      (p : DeleteParams) (g : Gate) (current : Object) (token : Bytes) (text : String)
      → s.create_plan_response (delete_plan p current token g) ≡ ok text
      → (plan_reply s op_delete p.name p.kind p.cluster p.namespace (object current) token g).result
        ≡ ok (planned (delete_plan p current token g) text)
  unfolding plan_reply ◌>>=◌ finish token_expiry
  planned_reply p g current token text e =
      ap (λ (o : Outcome Object (Reply Object)). o.result) (lift_ok _ text _ g e)

  plan_made :
      (p : DeleteParams) (g : Gate) (nonce token : Bytes) (h : IsPlanned p g nonce token)
      → (delete_kubernetes_resource_plan s p g).result
        ≡ ok (planned (delete_plan p h.current token g) h.text)
  unfolding delete_kubernetes_resource_plan ◌>>◌
  plan_made p g nonce token h =
      ap (λ (o : Outcome Object (Reply Object)). o.result)
        (lift_ok _ h.gvr _ g h.resolved
          ∙ lift_ok _ tt _ g h.found
          ∙ lift_ok _ h.current _ g h.got
          ∙ issue_ok (delete_operation p) token _ g (rw h.random h.issued))
      ∙ planned_reply p g h.current token h.text h.written

module _ {Object : Type 0} (s s' : Services Object) (laws : IsCodec s.codec)
    (same : s'.codec ≡ s.codec) (p : DeleteParams) (g g' : Gate) (nonce token : Bytes) where
  -- If a deletion was planned at one gate, and later the same kind resolves and its interface is
  -- there, the gate has the same key and has not seen the token's nonce, the token's lifetime is
  -- not over and the user approves by typing the name, then the plan returned the token, and the
  -- deletion with this token is sent, once.
  pub plan_then_delete :
      (h : IsPlanned s p g nonce token)
      → s'.resolve_gvr p.cluster p.kind p.api_version ≡ ok h.gvr
      → s'.get_resource_interface p.namespace p.cluster h.gvr ≡ ok tt
      → g'.key ≡ g.key
      → Dict.get g'.consumed (s.codec.hex nonce) ≡ none
      → s'.now ≤ s.now + g.token_ttl
      → IsApproved s'.elicit (delete_summary s' p h.gvr) p.name
      → ((delete_kubernetes_resource_plan s p g).result
          ≡ ok (planned (delete_plan s p h.current token g) h.text))
        × ((delete_kubernetes_resource s' (record p { confirmation_token = token }) g').changes
            ≡ delete p.namespace p.cluster h.gvr p.name ∷ [])
  unfolding delete_operation delete_summary
  plan_then_delete h resolved found key fresh live approved = (
    plan_made s p g nonce token h,
    delete_sent s' (record p { confirmation_token = token }) h.gvr g' resolved found
        (rw same (
          require-issue s.codec laws g g' (delete_operation p) nonce s.now s'.now s'.now' token
            h.issued key fresh live))
        approved,
  )

  -- The token of a deletion does not bind the API version, and so not the type that the kind
  -- resolves to: if the deletion was planned with one API version, the token also sends the
  -- deletion of a resource of another type, where the kind with another API version resolves to
  -- it; the other conditions are those of `plan_then_delete`.
  pub plan_then_delete_other :
      (api_version : String) (gvr' : Gvr)
      → IsPlanned s p g nonce token
      → s'.resolve_gvr p.cluster p.kind api_version ≡ ok gvr'
      → s'.get_resource_interface p.namespace p.cluster gvr' ≡ ok tt
      → g'.key ≡ g.key
      → Dict.get g'.consumed (s.codec.hex nonce) ≡ none
      → s'.now ≤ s.now + g.token_ttl
      → IsApproved s'.elicit (delete_summary s' p gvr') p.name
      → (delete_kubernetes_resource s'
          (record p { api_version = api_version; confirmation_token = token })
          g').changes
        ≡ delete p.namespace p.cluster gvr' p.name ∷ []
  unfolding delete_operation delete_summary
  plan_then_delete_other api_version gvr' h resolved found key fresh live approved =
      delete_sent s' (record p { api_version = api_version; confirmation_token = token }) gvr' g'
        resolved found
        (rw same (
          require-issue s.codec laws g g' (delete_operation p) nonce s.now s'.now s'.now' token
            h.issued key fresh live))
        approved
