-- ===== src/Changes/Rules.antt =====
-- How the calls that change a cluster stand to the checks of the gate: rules for the steps that
-- a handler is made of.
use rancher_ai_mcp.Prelude.{
  String, ◌≡◌, refl, ap, ◌⊎◌, inl, inr, Bool, true, false, List, [], ◌∷◌, if◌then◌else◌, Result, ok,
  err,
}
use rancher_ai_mcp.Confirm.{Bytes, Operation, Gate, Error, require_token}
use rancher_ai_mcp.Confirm.Approval.{check, IsApproved, check_iff}
use rancher_ai_mcp.Changes.{
  Failure, Change, Reply, Services, Act, finish, ◌>>=◌, ◌>>◌, lift, make, perform, gate_result,
  check_gate, issue, when_approved, plan_reply, OperationType, Payload,
}

module _ {Object : Type 0} where
  -- No change is made.
  abbrev pub Silent : {A : Type 0} → Act Object A → Type 0
  Silent m = (g : Gate) → (m g).changes ≡ []

  -- At most one change is made, and one that meets `Q` at the gate the run began with.
  abbrev pub GatedAt : {A : Type 0} → (Gate → Change Object → Type 0) → Act Object A → Gate → Type 0
  GatedAt Q m g = ((m g).changes ≡ []) ⊎ ((c : Change Object) × ((m g).changes ≡ c ∷ []) × Q g c)

  abbrev pub Gated : {A : Type 0} → (Gate → Change Object → Type 0) → Act Object A → Type 0
  Gated Q m = (g : Gate) → GatedAt Q m g

  -- A weaker claim on the change.
  pub Gated-weaken :
      {A : Type 0} (P Q : Gate → Change Object → Type 0) (m : Act Object A)
      → ((g : Gate) (c : Change Object) → P g c → Q g c)
      → Gated P m
      → Gated Q m
  Gated-weaken P Q m f h g = elim (h g) [ inl e ↦ inl e | inr (c, e, p) ↦ inr (c, e, f g c p) ]

  pub Silent-lift :
      {A B : Type 0} (r : Result Failure A) (f : A → Act Object B)
      → ((a : A) → Silent (f a))
      → Silent (lift r >>= f)
  unfolding finish ◌>>=◌ lift
  Silent-lift (err e) f h g = refl
  Silent-lift (ok a) f h g = h a g

  pub Silent-then :
      {A B : Type 0} (r : Result Failure A) (k : Act Object B) → Silent k → Silent (lift r >> k)
  unfolding ◌>>◌ ◌>>=◌
  Silent-then r k h = Silent-lift r (λ _. k) (λ _. h)

  pub Silent-issue :
      {B : Type 0} (s : Services Object) (op : Operation) (f : Bytes → Act Object B)
      → ((token : Bytes) → Silent (f token))
      → Silent (issue s op >>= f)
  unfolding issue lift ◌>>=◌
  Silent-issue s op f h g = Silent-lift (issue s op g).result f h g

  pub Silent-plan_reply :
      (s : Services Object) (type : OperationType) (name kind cluster namespace : String)
      (payload : Payload Object) (token : Bytes)
      → Silent (plan_reply s type name kind cluster namespace payload token)
  unfolding finish plan_reply ◌>>=◌
  Silent-plan_reply s type name kind cluster namespace payload token g =
      Silent-lift (s.create_plan_response _) _ (λ text g'. refl) g

  pub Gated-lift :
      {A B : Type 0} (Q : Gate → Change Object → Type 0) (r : Result Failure A)
      (f : A → Act Object B)
      → ((a : A) → r ≡ ok a → Gated Q (f a))
      → Gated Q (lift r >>= f)
  unfolding finish ◌>>=◌ lift
  Gated-lift Q (err e) f h g = inl refl
  Gated-lift Q (ok a) f h g = h a refl g

  pub Gated-then :
      {A B : Type 0} (Q : Gate → Change Object → Type 0) (r : Result Failure A) (k : Act Object B)
      → Gated Q k
      → Gated Q (lift r >> k)
  unfolding ◌>>◌ ◌>>=◌
  Gated-then Q r k h = Gated-lift Q r (λ _. k) (λ _ _. h)

  finish_change :
      {A B : Type 0} (g : Gate) (c : Change Object) (r : Result Failure A) (f : A → Act Object B)
      → ((a : A) → Silent (f a))
      → (finish g (c ∷ []) r f).changes ≡ c ∷ []
  unfolding finish
  finish_change g c (err e) f h = refl
  finish_change g c (ok a) f h = ap (λ (cs : List (Change Object)). c ∷ cs) (h a g)

  pub make_sent :
      {A B : Type 0} (c : Change Object) (r : Result Failure A) (f : A → Act Object B)
      → ((a : A) → Silent (f a))
      → (g : Gate) → ((make c r >>= f) g).changes ≡ c ∷ []
  unfolding ◌>>=◌ make
  make_sent c r f h g = finish_change g c r f h

  pub Gated-make :
      {A B : Type 0} (Q : Gate → Change Object → Type 0) (c : Change Object) (r : Result Failure A)
      (f : A → Act Object B)
      → ((g : Gate) → Q g c)
      → ((a : A) → Silent (f a))
      → Gated Q (make c r >>= f)
  Gated-make Q c r f q h g = inr (c, make_sent c r f h g, q g)

  pub Gated-if :
      {A : Type 0} (Q : Gate → Change Object → Type 0) (b : Bool) (m k : Act Object A)
      → Gated Q m
      → Gated Q k
      → Gated Q (if b then m else k)
  Gated-if Q true m k h h' = h
  Gated-if Q false m k h h' = h'

  pub Silent-if :
      {A : Type 0} (b : Bool) (m k : Act Object A)
      → Silent m
      → Silent k
      → Silent (if b then m else k)
  Silent-if true m k h h' = h
  Silent-if false m k h h' = h'

  pub Gated-err :
      (A : Type 0) (Q : Gate → Change Object → Type 0) (e : Failure)
      → Gated Q (lift {A = A} (err e))
  unfolding lift
  Gated-err A Q e g = inl refl

  pub Gated-perform :
      {B : Type 0} (s : Services Object) (c : Change Object) (f : Object → Act Object B)
      → ((a : Object) → Silent (f a))
      → Gated (λ g c'. c' ≡ c) (perform s c >>= f)
  unfolding ◌>>=◌ make perform
  Gated-perform s c f h = Gated-make (λ g c'. c' ≡ c) c (s.answer c) f (λ g. refl) h

  -- The gate approved: it accepted the token for the operation, and the user then approved the
  -- summary in person; or the check was bypassed.
  pub data IsCleared (s : Services Object) (op : Operation) (token : Bytes)
      (summary typed_name : String) (bypass : Bool) (g : Gate) : Type 0 where
    bypassed : bypass ≡ true → IsCleared s op token summary typed_name bypass g
    confirmed :
        (require_token s.codec g op token s.now s.now').1 ≡ ok tt
        → IsApproved s.elicit summary typed_name
        → IsCleared s op token summary typed_name bypass g

  cleared :
      (s : Services Object) (op : Operation) (token : Bytes) (summary typed_name : String)
      (bypass : Bool) (g : Gate)
      → (check s.codec s.elicit g op token summary typed_name bypass s.now s.now').1 ≡ ok true
      → IsCleared s op token summary typed_name bypass g
  cleared s op token summary typed_name true g h = bypassed refl
  cleared s op token summary typed_name false g h =
      let both = (check_iff s.codec s.elicit g op token summary typed_name s.now s.now').0.0 h in
      confirmed both.0 both.1

  finish_approved :
      (Q : Change Object → Type 0) (C : Type 0) (g : Gate) (r : Result Error Bool)
      (k : Act Object (Reply Object))
      → (r ≡ ok true → C)
      → Gated (λ g c. Q c) k
      → ((finish g [] (gate_result r) (λ b. when_approved b k)).changes ≡ [])
        ⊎ ((c : Change Object) × ((finish g [] (gate_result r) (λ b. when_approved b k)).changes
              ≡ c ∷ [])
            × (C × Q c))
  unfolding finish gate_result when_approved
  finish_approved Q C g (err e) k f h = inl refl
  finish_approved Q C g (ok false) k f h = inl refl
  finish_approved Q C g (ok true) k f h = elim (h g) [
    | inl e ↦ inl e
    | inr (c, e, q) ↦ inr (c, e, (f refl, q))
  ]

  pub Gated-check :
      (P : Change Object → Type 0) (Q : Gate → Change Object → Type 0) (s : Services Object)
      (op : Operation) (token : Bytes) (summary typed_name : String) (bypass : Bool)
      (k : Act Object (Reply Object))
      → Gated (λ g c. P c) k
      → ((g : Gate) (c : Change Object)
          → IsCleared s op token summary typed_name bypass g
          → P c
          → Q g c)
      → Gated Q
          (check_gate s op token summary typed_name bypass >>= λ approved. when_approved approved k)
  unfolding check_gate ◌>>=◌
  Gated-check P Q s op token summary typed_name bypass k h f g =
      let r = check s.codec s.elicit g op token summary typed_name bypass s.now s.now' in
      elim (finish_approved P (IsCleared s op token summary typed_name bypass g) r.0 r.1 k
        (cleared s op token summary typed_name bypass g) h) [
          | inl e ↦ inl e
          | inr (c, e, q) ↦ inr (c, e, f g c q.0 q.1)
        ]
