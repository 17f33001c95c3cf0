-- ===== src/Usage/Sums/Namespace.antt =====
-- The loop over the pods of a namespace, and the sample that it leaves.
use mathlib.Core.Path.{subst}
use rancher_ai_mcp.Prelude.{
  ◌≡◌, refl, sym, ◌∙◌, String, true, false, List, [], ◌∷◌, ok, str_eq, Bool-cases, inl, inr,
  >>=-ok-inv, ok_injective, All,
}
use rancher_ai_mcp.Prelude.Dict
use rancher_ai_mcp.Prelude.Dict.{Dict}
use rancher_ai_mcp.Prelude.Int.{ℤ}
use rancher_ai_mcp.Usage.{
  Quantities, Pod, Sample, UsageServices, new_sample, add_pod, add_metrics, add_pods,
  metrics_by_pod, metrics_listed, get_namespace_resource_usage,
}
use rancher_ai_mcp.Usage.Sums.{IsMeasured, metrics_of, if_running, running_pods}
use rancher_ai_mcp.Usage.Sums.Totals.{IsTotal, IsTotal-nil, IsTotal-cons, counted-IsTotal}

module _ {Object Quantity : Type 0} (q : Quantities Quantity) (s : UsageServices Object Quantity)
    (amount : Quantity → ℤ) where
  -- The metrics of these pods can be read, where there are any.
  abbrev pub AreReadable : Dict Object → List (Pod Quantity) → Type 0
  AreReadable metrics pods =
      All
        (λ (pod : Pod Quantity).
          (us : List (Dict Quantity)) × (metrics_of q s amount metrics pod ≡ ok us))
        pods

  abbrev Counts : Dict Object → Sample Quantity → List Object → List (Pod Quantity) → Type 0
  Counts metrics base objects pods =
      (totals : Sample Quantity) × (add_pods q s metrics base objects ≡ ok totals)
      × IsTotal q s amount metrics base totals pods

  running_pods-inv :
      (object : Object) (objects : List Object) (pods : List (Pod Quantity))
      → running_pods q s amount (object ∷ objects) ≡ ok pods
      → (pod : Pod Quantity) × (rest : List (Pod Quantity)) × (s.to_pod object ≡ ok pod)
        × (running_pods q s amount objects ≡ ok rest)
        × (if_running q s amount pod rest ≡ pods)
  unfolding running_pods
  running_pods-inv object objects pods h =
      let (pod, converted, h') = >>=-ok-inv (s.to_pod object) _ h in
      let (rest, others, h'') = >>=-ok-inv (running_pods q s amount objects) _ h' in
      (pod, rest, converted, others, ok_injective h'')

  add_pods-running :
      (metrics : Dict Object) (base mid : Sample Quantity) (object : Object) (objects : List Object)
      (pod : Pod Quantity)
      → s.to_pod object ≡ ok pod
      → str_eq pod.phase "Running" ≡ true
      → add_metrics q s (add_pod q s base pod) (Dict.get metrics pod.name) ≡ ok mid
      → add_pods q s metrics base (object ∷ objects) ≡ add_pods q s metrics mid objects
  unfolding add_pods
  add_pods-running metrics base mid object objects pod converted running counted =
      rw (converted, running, counted) refl

  add_pods-skipped :
      (metrics : Dict Object) (base : Sample Quantity) (object : Object) (objects : List Object)
      (pod : Pod Quantity)
      → s.to_pod object ≡ ok pod
      → str_eq pod.phase "Running" ≡ false
      → add_pods q s metrics base (object ∷ objects) ≡ add_pods q s metrics base objects
  unfolding add_pods
  add_pods-skipped metrics base object objects pod converted idle = rw (converted, idle) refl

  if_running-true :
      (pod : Pod Quantity) (rest : List (Pod Quantity))
      → str_eq pod.phase "Running" ≡ true
      → if_running q s amount pod rest ≡ pod ∷ rest
  unfolding if_running
  if_running-true pod rest running = rw running refl

  if_running-false :
      (pod : Pod Quantity) (rest : List (Pod Quantity))
      → str_eq pod.phase "Running" ≡ false
      → if_running q s amount pod rest ≡ rest
  unfolding if_running
  if_running-false pod rest idle = rw idle refl

  module _ (m : IsMeasured q s amount) where
    add_pods-Counts :
        (metrics : Dict Object) (base : Sample Quantity) (objects : List Object)
        (pods : List (Pod Quantity))
        → running_pods q s amount objects ≡ ok pods
        → AreReadable metrics pods
        → Counts metrics base objects pods
    unfolding add_pods running_pods metrics_of
    add_pods-Counts metrics base [] pods h readable =
        subst (Counts metrics base []) (ok_injective h)
          (base, refl, IsTotal-nil q s amount metrics base)
    add_pods-Counts metrics base (object ∷ objects) pods h readable =
        let (pod, rest, converted, others, listed) = running_pods-inv object objects pods h in
        elim (Bool-cases (str_eq pod.phase "Running")) [
          | inl running ↦
              let same = sym (if_running-true pod rest running) ∙ listed in
              let (known, left) = subst (AreReadable metrics) (sym same) readable in
              let (mid, counted, first) =
                counted-IsTotal q s amount m metrics base pod known.0 (Dict.get metrics pod.name)
                  refl known.1 in
              let (totals, summed, after) = add_pods-Counts metrics mid objects rest others left in
              subst (Counts metrics base (object ∷ objects)) same (
                totals,
                add_pods-running metrics base mid object objects pod converted running counted
                    ∙ summed,
                IsTotal-cons q s amount metrics base mid totals pod rest first after,
              )
          | inr idle ↦
              let same = sym (if_running-false pod rest idle) ∙ listed in
              let (totals, summed, after) =
                add_pods-Counts metrics base objects rest others
                  (subst (AreReadable metrics) (sym same) readable) in
              subst (Counts metrics base (object ∷ objects)) same (
                totals,
                add_pods-skipped metrics base object objects pod converted idle ∙ summed,
                after,
              )
        ]

    -- If the pods of a namespace can be listed and read, and so can the metrics of those that
    -- run, where there are any, then a sample is returned, and it is the sum over the running
    -- pods: it counts them, each request and limit stands for what they demand together (a pod
    -- demands what its containers do together, or the highest of its init containers, whichever
    -- is more), and the usage for what the containers of their metrics use, nothing for a pod
    -- without metrics or where the metrics cannot be listed.
    pub get_namespace_resource_usage-IsTotal :
        (cluster_id namespace : String) (objects : List Object) (pods : List (Pod Quantity))
        → s.list_pods cluster_id namespace ≡ ok objects
        → running_pods q s amount objects ≡ ok pods
        → AreReadable
            (metrics_by_pod q s [] (metrics_listed q s (s.list_metrics cluster_id namespace)))
            pods
        → (totals : Sample Quantity) × (get_namespace_resource_usage q s cluster_id namespace
            ≡ ok totals)
          × IsTotal q s amount
              (metrics_by_pod q s [] (metrics_listed q s (s.list_metrics cluster_id namespace)))
              (new_sample q s)
              totals
              pods
    unfolding get_namespace_resource_usage
    get_namespace_resource_usage-IsTotal cluster_id namespace objects pods listed running readable =
        let (totals, summed, total) =
          add_pods-Counts _ (new_sample q s) objects pods running readable in
        (totals, rw (listed, summed) refl, total)
