-- ===== src/Usage/Sums.antt =====
-- What the totals of a namespace are sums of.
pub mod Totals
pub mod Namespace
mod Tests
use rancher_ai_mcp.Prelude.{
  ℕ, ◌+◌, ◌≡◌, refl, sym, ap, ◌∙◌, String, Bool, true, false, Option, none, some, List, [], ◌∷◌,
  map, Result, ok, err, ◌>>=◌, arith, if◌then◌else◌, str_eq, Bool-cases, inl, inr,
}
use rancher_ai_mcp.Prelude.Dict
use rancher_ai_mcp.Prelude.Dict.{Dict}
use rancher_ai_mcp.Prelude.Int.{ℤ, pos, negsuc, leb_ℤ, ◌+ℤ◌}
use rancher_ai_mcp.Usage.{
  UsageError, Quantities, Container, Pod, Sample, UsageServices, new_sample, quantity_max,
  add_found, app_sum, max_found, init_max, effective, add_pod, usage_sum, add_usage, add_metrics,
  add_pods, metrics_by_pod, metrics_listed, get_namespace_resource_usage,
}

pub +ℤ-assoc : (a b c : ℤ) → (a +ℤ b) +ℤ c ≡ a +ℤ (b +ℤ c)
+ℤ-assoc (pos a) (pos b) (pos c) = ground arith
+ℤ-assoc (pos a) (pos b) (negsuc c) = ground arith
+ℤ-assoc (pos a) (negsuc b) (pos c) = ground arith
+ℤ-assoc (pos a) (negsuc b) (negsuc c) = ground arith
+ℤ-assoc (negsuc a) (pos b) (pos c) = ground arith
+ℤ-assoc (negsuc a) (pos b) (negsuc c) = ground arith
+ℤ-assoc (negsuc a) (negsuc b) (pos c) = ground arith
+ℤ-assoc (negsuc a) (negsuc b) (negsuc c) = ground arith

pub +ℤ-zero : (a : ℤ) → a +ℤ pos 0 ≡ a
+ℤ-zero (pos a) = ground arith
+ℤ-zero (negsuc a) = ground arith

pub zero-+ℤ : (a : ℤ) → pos 0 +ℤ a ≡ a
zero-+ℤ (pos a) = ground arith
zero-+ℤ (negsuc a) = ground arith

pub max_ℤ : ℤ → ℤ → ℤ
max_ℤ a b = if leb_ℤ b a then a else b

max_ℤ-assoc : (a b c : ℤ) → max_ℤ (max_ℤ a b) c ≡ max_ℤ a (max_ℤ b c)
unfolding max_ℤ
max_ℤ-assoc a b c = ground arith

max_ℤ-zero : (a : ℤ) → leb_ℤ (pos 0) a ≡ true → max_ℤ a (pos 0) ≡ a
unfolding max_ℤ
max_ℤ-zero a h = ground arith

zero-max_ℤ : (a b : ℤ) → leb_ℤ (pos 0) a ≡ true → leb_ℤ (pos 0) (max_ℤ a b) ≡ true
unfolding max_ℤ
zero-max_ℤ a b h = ground arith

pub sum : List ℤ → ℤ
sum [] = pos 0
sum (x ∷ xs) = x +ℤ sum xs

-- The highest, and no less than zero.
pub highest : List ℤ → ℤ
unfolding max_ℤ
highest [] = pos 0
highest (x ∷ xs) = max_ℤ x (highest xs)

zero-highest : (xs : List ℤ) → max_ℤ (pos 0) (highest xs) ≡ highest xs
unfolding max_ℤ highest
zero-highest [] = refl
zero-highest (x ∷ xs) = ground (arith, zero-highest xs)

module _ {Object Quantity : Type 0} (q : Quantities Quantity) (s : UsageServices Object Quantity)
    (amount : Quantity → ℤ) where
  -- The library adds and compares quantities as the amounts that they stand for.
  pub record IsMeasured : Type 0 where
    pub decimal : amount q.decimal_zero ≡ pos 0
    pub binary : amount q.binary_zero ≡ pos 0
    pub add : (a b : Quantity) → amount (q.add a b) ≡ amount a +ℤ amount b
    pub cmp : (a b : Quantity) → leb_ℤ (pos 0) (q.cmp a b) ≡ leb_ℤ (amount b) (amount a)

  pub with_found : Option Quantity → List ℤ → List ℤ
  with_found none rest = rest
  with_found (some found) rest = amount found ∷ rest

  -- The amounts of one resource, where it is given.
  pub given : String → List (Dict Quantity) → List ℤ
  unfolding with_found
  given name [] = []
  given name (d ∷ ds) = with_found (Dict.get d name) (given name ds)

  -- What a pod asks of one resource: what its containers ask together, or the one of its init
  -- containers that asks the most, whichever is more.
  pub demand : (Container Quantity → Dict Quantity) → String → Pod Quantity → ℤ
  unfolding given max_ℤ sum highest
  demand side name pod =
      max_ℤ (sum (given name (map side pod.containers)))
        (highest (given name (map side pod.init_containers)))

  pub metrics_at : Option Object → Result UsageError (List (Dict Quantity))
  metrics_at none = ok []
  metrics_at (some object) = s.to_metrics object

  pub metrics_of : Dict Object → Pod Quantity → Result UsageError (List (Dict Quantity))
  unfolding metrics_at
  metrics_of metrics pod = metrics_at (Dict.get metrics pod.name)

  pub used_in : String → Result UsageError (List (Dict Quantity)) → ℤ
  unfolding given sum
  used_in name (err e) = pos 0
  used_in name (ok usages) = sum (given name usages)

  -- What the containers of a pod use of one resource, by the pod's metrics.
  pub used : Dict Object → String → Pod Quantity → ℤ
  unfolding used_in metrics_of
  used metrics name pod = used_in name (metrics_of metrics pod)

  pub if_running : Pod Quantity → List (Pod Quantity) → List (Pod Quantity)
  if_running pod pods = if str_eq pod.phase "Running" then pod ∷ pods else pods

  -- The running pods of a list of objects, if each object is a pod.
  pub running_pods : List Object → Result UsageError (List (Pod Quantity))
  unfolding if_running
  running_pods [] = ok []
  running_pods (object ∷ objects) = do
    pod ← s.to_pod object
    pods ← running_pods objects
    ok (if_running pod pods)

  module _ (m : IsMeasured) where
    add_found-amount :
        (total : Quantity) (found : Option Quantity) (rest : List ℤ)
        → amount (add_found q s total found) +ℤ sum rest
          ≡ amount total +ℤ sum (with_found found rest)
    unfolding add_found with_found sum
    add_found-amount total none rest = refl
    add_found-amount total (some found) rest =
        ap (λ (z : ℤ). z +ℤ sum rest) (m.add total found)
        ∙ +ℤ-assoc (amount total) (amount found) (sum rest)

    app_sum-amount :
        (side : Container Quantity → Dict Quantity) (name : String) (total : Quantity)
        (cs : List (Container Quantity))
        → amount (app_sum q s side name total cs) ≡ amount total +ℤ sum (given name (map side cs))
    unfolding app_sum given sum
    app_sum-amount side name total [] = sym (+ℤ-zero (amount total))
    app_sum-amount side name total (c ∷ cs) =
        app_sum-amount side name (add_found q s total (Dict.get (side c) name)) cs
        ∙ add_found-amount total (Dict.get (side c) name) (given name (map side cs))

    pub usage_sum-amount :
        (name : String) (total : Quantity) (us : List (Dict Quantity))
        → amount (usage_sum q s name total us) ≡ amount total +ℤ sum (given name us)
    unfolding usage_sum given sum
    usage_sum-amount name total [] = sym (+ℤ-zero (amount total))
    usage_sum-amount name total (u ∷ us) =
        usage_sum-amount name (add_found q s total (Dict.get u name)) us
        ∙ add_found-amount total (Dict.get u name) (given name us)

    quantity_max-amount :
        (a b : Quantity) → amount (quantity_max q s a b) ≡ max_ℤ (amount a) (amount b)
    unfolding quantity_max max_ℤ
    quantity_max-amount a b = elim (Bool-cases (leb_ℤ (amount b) (amount a))) [
      | inl above ↦ rw (m.cmp a b, above) refl
      | inr below ↦ rw (m.cmp a b, below) refl
    ]

    max_found-amount :
        (h : Quantity) (found : Option Quantity) (rest : List ℤ)
        → leb_ℤ (pos 0) (amount h) ≡ true
        → (max_ℤ (amount (max_found q s h found)) (highest rest)
            ≡ max_ℤ (amount h) (highest (with_found found rest)))
          × (leb_ℤ (pos 0) (amount (max_found q s h found)) ≡ true)
    unfolding max_found with_found highest
    max_found-amount h none rest positive = (refl, positive)
    max_found-amount h (some found) rest positive = (
      ap (λ (z : ℤ). max_ℤ z (highest rest)) (quantity_max-amount h found)
          ∙ max_ℤ-assoc (amount h) (amount found) (highest rest),
      ap (leb_ℤ (pos 0)) (quantity_max-amount h found)
          ∙ zero-max_ℤ (amount h) (amount found) positive,
    )

    init_max-amount :
        (side : Container Quantity → Dict Quantity) (name : String) (h : Quantity)
        (cs : List (Container Quantity))
        → leb_ℤ (pos 0) (amount h) ≡ true
        → amount (init_max q s side name h cs)
          ≡ max_ℤ (amount h) (highest (given name (map side cs)))
    unfolding init_max given highest
    init_max-amount side name h [] positive = sym (max_ℤ-zero (amount h) positive)
    init_max-amount side name h (c ∷ cs) positive =
        let step =
          max_found-amount h (Dict.get (side c) name) (given name (map side cs)) positive in
        init_max-amount side name (max_found q s h (Dict.get (side c) name)) cs step.1 ∙ step.0

    -- From a zero, the effective request or limit of a pod stands for what the pod demands.
    pub effective-demand :
        (side : Container Quantity → Dict Quantity) (name : String) (zero_of : Quantity)
        (pod : Pod Quantity)
        → amount zero_of ≡ pos 0
        → amount (effective q s side name zero_of pod) ≡ demand side name pod
    unfolding effective demand
    effective-demand side name zero_of pod none_yet =
        let app = app_sum-amount side name zero_of pod.containers in
        let inits =
          init_max-amount side name zero_of pod.init_containers (ap (leb_ℤ (pos 0)) none_yet) in
        quantity_max-amount (app_sum q s side name zero_of pod.containers)
          (init_max q s side name zero_of pod.init_containers)
        ∙ rw
            (
              app,
              inits,
              none_yet,
              zero-+ℤ (sum (given name (map side pod.containers))),
              zero-highest (given name (map side pod.init_containers)),
            )
            refl
