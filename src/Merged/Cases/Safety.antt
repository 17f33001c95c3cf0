-- ===== src/Merged/Cases/Safety.antt =====
-- What a call of planChange or executeChange can change.
use rancher_ai_mcp.Prelude.{
  String, ◌≡◌, refl, ap, inl, inr, Bool, true, false, Bool-cases, Option, none, some, Option-cases,
  List, [], ◌∷◌, Result, ok, err, str_eq, eq_iff,
}
use rancher_ai_mcp.Confirm.{Gate}
use rancher_ai_mcp.Dispatch.{DispatchError, merge_maps}
use rancher_ai_mcp.Dispatch.Every.{AllCases, AllCases-merge_maps, AllCases-dispatch}
use rancher_ai_mcp.Changes.{dispatch_error, unknown_tool, Change, Reply, lift}
use rancher_ai_mcp.Changes.Rules.{Silent, Gated, Gated-weaken, Gated-err}
use rancher_ai_mcp.Merged.{ChangeParams, Tools, change_fields}
use rancher_ai_mcp.Merged.Cases.{
  Handler, Table, CaseMaps, core_plan_cases, core_execute_cases, project_plan_cases,
  project_execute_cases, provisioning_plan_cases, provisioning_execute_cases, union_of, pair,
  build_case_maps, case_map_for, phase_of, run_dispatched, call_phase, call_change_tool,
}
use rancher_ai_mcp.Merged.Cases.Plans.{IsPlan, core_plans, project_plans, provisioning_plans}
use rancher_ai_mcp.Merged.Cases.Executes.{
  IsAuthorized, IsExecute, core_executes, project_executes, provisioning_executes,
}

module _ {Object : Type 0} (t : Tools Object) where
  union-AllCases :
      (P : String → Handler Object → Type 0) (core projects provisioning merged : Table Object)
      → union_of t core projects provisioning ≡ some merged
      → AllCases P core
      → AllCases P projects
      → AllCases P provisioning
      → AllCases P merged
  unfolding union_of
  union-AllCases P core projects provisioning merged e all_core all_projects all_provisioning =
      elim (Option-cases (merge_maps (core ∷ projects ∷ []))) [
        | inl panicked ↦ cc (rw (panicked, union_of) at e)
        | inr (first, merging) ↦
            AllCases-merge_maps P (first ∷ provisioning ∷ []) merged (rw (merging, union_of) at e) (
              AllCases-merge_maps P (core ∷ projects ∷ []) first merging
                  (all_core, (all_projects, tt)),
              (all_provisioning, tt),
            )
      ]

  record IsBuilt (m : CaseMaps Object) : Type 0 where
    plans : AllCases (IsPlan t) m.plan
    executes : AllCases (IsExecute t) m.execute

  pair-inv :
      (plan execute : Option (Table Object)) (m : CaseMaps Object)
      → pair t plan execute ≡ some m
      → (plan ≡ some m.plan) × (execute ≡ some m.execute)
  unfolding pair
  pair-inv none execute m h = cc
  pair-inv (some plan) none m h = cc
  pair-inv (some plan) (some execute) m h =
      let same : record { plan = plan; execute = execute } ≡ m = cc h in
      (
        ap (λ (n : CaseMaps Object). some n.plan) same,
        ap (λ (n : CaseMaps Object). some n.execute) same,
      )

  build_case_maps-IsBuilt : (m : CaseMaps Object) → build_case_maps t ≡ some m → IsBuilt m
  unfolding build_case_maps
  build_case_maps-IsBuilt m h =
      let both = pair-inv _ _ m h in
      record {
        plans =
            union-AllCases (IsPlan t) (core_plan_cases t) (project_plan_cases t)
              (provisioning_plan_cases t) m.plan both.0 (core_plans t) (project_plans t)
              (provisioning_plans t);
        executes =
            union-AllCases (IsExecute t) (core_execute_cases t) (project_execute_cases t)
              (provisioning_execute_cases t) m.execute both.1 (core_executes t) (project_executes t)
              (provisioning_executes t);
      }

  -- A change by a tool: by executeChange at a server that is not read-only, authorized by the gate.
  abbrev pub IsExecuted : Bool → String → ChangeParams → Gate → Change Object → Type 0
  IsExecuted read_only tool p g c =
      (read_only ≡ false) × (tool ≡ "executeChange") × IsAuthorized t p.operation p g

  planned :
      (p : ChangeParams) (r : Result DispatchError (Handler Object))
      → ((handler : Handler Object) → r ≡ ok handler → IsPlan t p.operation handler)
      → Silent (run_dispatched t p r)
  unfolding run_dispatched lift
  planned p (err e) h g = refl
  planned p (ok handler) h g = h handler refl p g

  executed :
      (p : ChangeParams) (r : Result DispatchError (Handler Object))
      → ((handler : Handler Object) → r ≡ ok handler → IsExecute t p.operation handler)
      → Gated (λ g c. IsAuthorized t p.operation p g) (run_dispatched t p r)
  unfolding run_dispatched
  executed p (err e) h = Gated-err (Reply Object) _ (dispatch_error e)
  executed p (ok handler) h = h handler refl p

  plan_phase :
      (sort : List String → List String) (m : CaseMaps Object) (p : ChangeParams)
      → IsBuilt m
      → Silent (call_phase t sort m p (some "plan"))
  unfolding call_phase case_map_for
  plan_phase sort m p built = planned p _ (λ handler h.
      AllCases-dispatch (IsPlan t) sort p.operation (change_fields p) m.plan handler built.plans h)

  execute_phase :
      (sort : List String → List String) (m : CaseMaps Object) (p : ChangeParams)
      → IsBuilt m
      → Gated (λ g c. IsAuthorized t p.operation p g) (call_phase t sort m p (some "execute"))
  unfolding call_phase case_map_for
  execute_phase sort m p built = executed p _ (λ handler h.
      AllCases-dispatch (IsExecute t) sort p.operation (change_fields p) m.execute handler
        built.executes h)

  call_phase_of :
      (sort : List String → List String) (m : CaseMaps Object) (read_only : Bool) (tool : String)
      (p : ChangeParams)
      → IsBuilt m
      → Gated (IsExecuted read_only tool p) (call_phase t sort m p (phase_of t read_only tool))
  unfolding phase_of call_phase
  call_phase_of sort m true tool p built = Gated-err (Reply Object) _ unknown_tool
  call_phase_of sort m false tool p built = elim (Bool-cases (str_eq tool "planChange")) [
    | inl e ↦ rw e (λ g. inl (plan_phase sort m p built g))
    | inr e ↦ elim (Bool-cases (str_eq tool "executeChange")) [
      | inl e' ↦
          rw (e, e')
            (Gated-weaken _ _ (call_phase t sort m p (some "execute"))
              (λ g c h. (refl, (eq_iff tool "executeChange").0 e', h))
              (execute_phase sort m p built))
      | inr e' ↦ rw (e, e') (Gated-err (Reply Object) _ unknown_tool)
    ]
  ]

  -- Whatever tool of the change surface is called, with whatever parameters: the call makes at
  -- most one change to a cluster, and only if it is a call of executeChange at a server that is
  -- not read-only, and the gate cleared an operation of the name that the call gives, with the
  -- call's token. The gate clears it unasked only in auto-write mode, and never a deletion or a
  -- command in a pod.
  pub call_change_tool-Gated :
      (sort : List String → List String) (m : CaseMaps Object) (read_only : Bool) (tool : String)
      (p : ChangeParams)
      → build_case_maps t ≡ some m
      → Gated (IsExecuted read_only tool p) (call_change_tool t sort m read_only tool p)
  unfolding call_change_tool
  call_change_tool-Gated sort m read_only tool p built =
      call_phase_of sort m read_only tool p (build_case_maps-IsBuilt m built)
