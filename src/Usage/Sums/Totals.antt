-- ===== src/Usage/Sums/Totals.antt =====
-- The sample of a namespace is the sum over its running pods.
use rancher_ai_mcp.Prelude.{
  ◌+◌, ◌≡◌, refl, sym, ap, ◌∙◌, String, Option, none, some, List, [], ◌∷◌, map, Result, ok, arith,
  length,
}
use rancher_ai_mcp.Prelude.Dict
use rancher_ai_mcp.Prelude.Dict.{Dict}
use rancher_ai_mcp.Prelude.Int.{ℤ, pos, ◌+ℤ◌}
use rancher_ai_mcp.Usage.{
  UsageError, Quantities, Container, Pod, Sample, UsageServices, effective, usage_sum, add_pod,
  add_usage, add_metrics,
}
use rancher_ai_mcp.Usage.Sums.{
  IsMeasured, +ℤ-assoc, +ℤ-zero, sum, given, demand, metrics_at, metrics_of, used, used_in,
  usage_sum-amount, effective-demand,
}

module _ {Object Quantity : Type 0} (q : Quantities Quantity) (s : UsageServices Object Quantity)
    (amount : Quantity → ℤ) where
  -- A sample adds to another what these pods demand and use.
  pub record IsTotal (metrics : Dict Object) (base totals : Sample Quantity)
      (pods : List (Pod Quantity)) : Type 0 where
    pub pod_count : totals.pod_count ≡ base.pod_count + length pods
    pub cpu_requests :
        amount totals.cpu_requests
        ≡ amount base.cpu_requests +ℤ sum (map (demand q s amount (λ c. c.requests) "cpu") pods)
    pub cpu_limits :
        amount totals.cpu_limits
        ≡ amount base.cpu_limits +ℤ sum (map (demand q s amount (λ c. c.limits) "cpu") pods)
    pub memory_requests :
        amount totals.memory_requests
        ≡ amount base.memory_requests
          +ℤ sum (map (demand q s amount (λ c. c.requests) "memory") pods)
    pub memory_limits :
        amount totals.memory_limits
        ≡ amount base.memory_limits +ℤ sum (map (demand q s amount (λ c. c.limits) "memory") pods)
    pub cpu_usage :
        amount totals.cpu_usage
        ≡ amount base.cpu_usage +ℤ sum (map (used q s amount metrics "cpu") pods)
    pub memory_usage :
        amount totals.memory_usage
        ≡ amount base.memory_usage +ℤ sum (map (used q s amount metrics "memory") pods)

  pub IsTotal-nil : (metrics : Dict Object) (base : Sample Quantity) → IsTotal metrics base base []
  unfolding sum
  IsTotal-nil metrics base = record {
    pod_count = omega arith;
    cpu_requests = sym (+ℤ-zero (amount base.cpu_requests));
    cpu_limits = sym (+ℤ-zero (amount base.cpu_limits));
    memory_requests = sym (+ℤ-zero (amount base.memory_requests));
    memory_limits = sym (+ℤ-zero (amount base.memory_limits));
    cpu_usage = sym (+ℤ-zero (amount base.cpu_usage));
    memory_usage = sym (+ℤ-zero (amount base.memory_usage));
  }

  sum_trans :
      {A : Type 0} (f : A → ℤ) (a : A) (rest_of : List A) (base mid total : ℤ)
      → mid ≡ base +ℤ sum (map f (a ∷ []))
      → total ≡ mid +ℤ sum (map f rest_of)
      → total ≡ base +ℤ sum (map f (a ∷ rest_of))
  unfolding sum
  sum_trans f a rest_of base mid total first rest =
      rest
      ∙ ap (λ (z : ℤ). z +ℤ sum (map f rest_of)) (first ∙ ap (λ (z : ℤ). base +ℤ z) (+ℤ-zero (f a)))
      ∙ +ℤ-assoc base (f a) (sum (map f rest_of))

  pub IsTotal-cons :
      (metrics : Dict Object) (base mid totals : Sample Quantity) (pod : Pod Quantity)
      (pods : List (Pod Quantity))
      → IsTotal metrics base mid (pod ∷ [])
      → IsTotal metrics mid totals pods
      → IsTotal metrics base totals (pod ∷ pods)
  IsTotal-cons metrics base mid totals pod pods first rest = record {
    pod_count = omega (arith, first.pod_count, rest.pod_count);
    cpu_requests = sum_trans _ pod pods _ _ _ first.cpu_requests rest.cpu_requests;
    cpu_limits = sum_trans _ pod pods _ _ _ first.cpu_limits rest.cpu_limits;
    memory_requests = sum_trans _ pod pods _ _ _ first.memory_requests rest.memory_requests;
    memory_limits = sum_trans _ pod pods _ _ _ first.memory_limits rest.memory_limits;
    cpu_usage = sum_trans _ pod pods _ _ _ first.cpu_usage rest.cpu_usage;
    memory_usage = sum_trans _ pod pods _ _ _ first.memory_usage rest.memory_usage;
  }

  module _ (m : IsMeasured q s amount) where
    demanded :
        (side : Container Quantity → Dict Quantity) (name : String) (zero_of total : Quantity)
        (pod : Pod Quantity)
        → amount zero_of ≡ pos 0
        → amount (q.add total (effective q s side name zero_of pod))
          ≡ amount total +ℤ sum (map (demand q s amount side name) (pod ∷ []))
    unfolding sum
    demanded side name zero_of total pod none_yet =
        m.add total (effective q s side name zero_of pod)
        ∙ ap (λ (z : ℤ). amount total +ℤ z)
            (effective-demand q s amount m side name zero_of pod none_yet
              ∙ sym (+ℤ-zero (demand q s amount side name pod)))

    unused :
        (metrics : Dict Object) (name : String) (total : Quantity) (pod : Pod Quantity)
        → Dict.get metrics pod.name ≡ none
        → amount total ≡ amount total +ℤ sum (map (used q s amount metrics name) (pod ∷ []))
    unfolding sum used used_in metrics_at metrics_of given
    unused metrics name total pod missing = sym (
        ap
          (λ (o : Option Object).
            amount total +ℤ (used_in q s amount name (metrics_at q s amount o) +ℤ pos 0))
          missing
        ∙ +ℤ-zero (amount total))

    measured :
        (metrics : Dict Object) (name : String) (total : Quantity) (pod : Pod Quantity)
        (object : Object) (us : List (Dict Quantity))
        → Dict.get metrics pod.name ≡ some object
        → s.to_metrics object ≡ ok us
        → amount (usage_sum q s name total us)
          ≡ amount total +ℤ sum (map (used q s amount metrics name) (pod ∷ []))
    unfolding sum used used_in metrics_at metrics_of
    measured metrics name total pod object us known converted =
        usage_sum-amount q s amount m name total us
        ∙ sym (
            ap
              (λ (o : Option Object).
                amount total +ℤ (used_in q s amount name (metrics_at q s amount o) +ℤ pos 0))
              known
            ∙ ap
                (λ (r : Result UsageError (List (Dict Quantity))).
                  amount total +ℤ (used_in q s amount name r +ℤ pos 0))
                converted
            ∙ ap (λ (z : ℤ). amount total +ℤ z) (+ℤ-zero (sum (given q s amount name us))))

    -- One running pod that is counted, with its metrics.
    pub counted-IsTotal :
        (metrics : Dict Object) (base : Sample Quantity) (pod : Pod Quantity)
        (us : List (Dict Quantity)) (known : Option Object)
        → Dict.get metrics pod.name ≡ known
        → metrics_at q s amount known ≡ ok us
        → (mid : Sample Quantity) × (add_metrics q s (add_pod q s base pod) known ≡ ok mid)
          × IsTotal metrics base mid (pod ∷ [])
    unfolding add_metrics add_pod add_usage metrics_at
    counted-IsTotal metrics base pod us none missing converted = (
      add_pod q s base pod,
      refl,
      record {
        pod_count = refl;
        cpu_requests = demanded (λ c. c.requests) "cpu" q.decimal_zero _ pod m.decimal;
        cpu_limits = demanded (λ c. c.limits) "cpu" q.decimal_zero _ pod m.decimal;
        memory_requests = demanded (λ c. c.requests) "memory" q.binary_zero _ pod m.binary;
        memory_limits = demanded (λ c. c.limits) "memory" q.binary_zero _ pod m.binary;
        cpu_usage = unused metrics "cpu" _ pod missing;
        memory_usage = unused metrics "memory" _ pod missing;
      },
    )
    counted-IsTotal metrics base pod us (some object) known converted = (
      add_usage q s (add_pod q s base pod) us,
      rw converted refl,
      record {
        pod_count = refl;
        cpu_requests = demanded (λ c. c.requests) "cpu" q.decimal_zero _ pod m.decimal;
        cpu_limits = demanded (λ c. c.limits) "cpu" q.decimal_zero _ pod m.decimal;
        memory_requests = demanded (λ c. c.requests) "memory" q.binary_zero _ pod m.binary;
        memory_limits = demanded (λ c. c.limits) "memory" q.binary_zero _ pod m.binary;
        cpu_usage = measured metrics "cpu" _ pod object us known converted;
        memory_usage = measured metrics "memory" _ pod object us known converted;
      },
    )
