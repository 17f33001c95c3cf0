-- ===== src/Usage.antt =====
-- pkg/toolsets/core/projects/get_project_resource_usage.go: what the running pods of namespaces
-- and projects request and use. The quantities of the Kubernetes library are a parameter, and the
-- answers of the cluster to the reads of one call are the fixed functions of `UsageServices`.
pub mod Sums
pub mod Projects
use rancher_ai_mcp.Prelude.{
  ℕ, ◌+◌, String, Bool, true, false, Option, none, some, List, [], ◌∷◌, Result, ok, err, ◌>>=◌,
  if◌then◌else◌, str_eq,
}
use rancher_ai_mcp.Prelude.Dict
use rancher_ai_mcp.Prelude.Dict.{Dict}
use rancher_ai_mcp.Prelude.Int.{ℤ, pos, leb_ℤ}

pub data UsageError : Type 0 where
  call_failed conversion_failed : String → UsageError

-- `resource.Quantity`, its zeros in the two formats, `Add` and `Cmp`
pub record Quantities (Quantity : Type 0) : Type 0 where
  pub decimal_zero : Quantity
  pub binary_zero : Quantity
  pub add : Quantity → Quantity → Quantity
  pub cmp : Quantity → Quantity → ℤ

-- `corev1.ResourceRequirements` of a container
pub record Container (Quantity : Type 0) : Type 0 where
  pub requests : Dict Quantity
  pub limits : Dict Quantity

pub record Pod (Quantity : Type 0) : Type 0 where
  pub name : String
  pub phase : String
  pub containers : List (Container Quantity)
  pub init_containers : List (Container Quantity)

pub record Sample (Quantity : Type 0) : Type 0 where
  pub cpu_requests : Quantity
  pub cpu_limits : Quantity
  pub memory_requests : Quantity
  pub memory_limits : Quantity
  pub cpu_usage : Quantity
  pub memory_usage : Quantity
  pub pod_count : ℕ

-- What the client and the converter answer; the first argument of a read is the cluster's ID.
pub record UsageServices (Object Quantity : Type 0) : Type 0 where
  pub get_cluster_id : String → Result UsageError String
  pub get_namespace : String → String → Result UsageError Object
  pub get_project : String → String → Result UsageError Object
  pub list_projects : String → Result UsageError (List Object)
  -- `metav1.LabelSelectorAsSelector` of the project's label
  pub project_label : String → Result UsageError String
  pub list_namespaces : String → String → Result UsageError (List Object)
  pub list_pods : String → String → Result UsageError (List Object)
  pub list_metrics : String → String → Result UsageError (List Object)
  pub get_name : Object → String
  -- `NestedString(o, "spec", "displayName")`: the empty string where it is not found
  pub display_name : Object → Result UsageError String
  pub to_pod : Object → Result UsageError (Pod Quantity)
  -- The usage of each container of a `PodMetrics`.
  pub to_metrics : Object → Result UsageError (List (Dict Quantity))

module _ {Object Quantity : Type 0} (q : Quantities Quantity)
    (s : UsageServices Object Quantity) where
  pub new_sample : Sample Quantity
  new_sample = record {
    cpu_requests = q.decimal_zero;
    cpu_limits = q.decimal_zero;
    memory_requests = q.binary_zero;
    memory_limits = q.binary_zero;
    cpu_usage = q.decimal_zero;
    memory_usage = q.binary_zero;
    pod_count = 0;
  }

  pub quantity_max : Quantity → Quantity → Quantity
  quantity_max a b = if leb_ℤ (pos 0) (q.cmp a b) then a else b

  pub add_found : Quantity → Option Quantity → Quantity
  add_found total none = total
  add_found total (some found) = q.add total found

  -- One of the four sums of the loop over the containers of the pod.
  pub app_sum :
      (Container Quantity → Dict Quantity)
      → String
      → Quantity
      → List (Container Quantity)
      → Quantity
  unfolding add_found
  app_sum side name total [] = total
  app_sum side name total (c ∷ cs) = app_sum side name (add_found total (Dict.get (side c) name)) cs

  pub max_found : Quantity → Option Quantity → Quantity
  unfolding quantity_max
  max_found highest none = highest
  max_found highest (some found) = quantity_max highest found

  -- One of the four maxima of the loop over the init containers.
  pub init_max :
      (Container Quantity → Dict Quantity)
      → String
      → Quantity
      → List (Container Quantity)
      → Quantity
  unfolding max_found
  init_max side name highest [] = highest
  init_max side name highest (c ∷ cs) =
      init_max side name (max_found highest (Dict.get (side c) name)) cs

  -- The pod's effective request or limit.
  pub effective : (Container Quantity → Dict Quantity) → String → Quantity → Pod Quantity → Quantity
  unfolding quantity_max app_sum init_max
  effective side name zero_of pod =
      quantity_max (app_sum side name zero_of pod.containers)
        (init_max side name zero_of pod.init_containers)

  -- A running pod, before its metrics.
  pub add_pod : Sample Quantity → Pod Quantity → Sample Quantity
  unfolding effective
  add_pod totals pod = record {
    cpu_requests = q.add totals.cpu_requests (effective (λ c. c.requests) "cpu" q.decimal_zero pod);
    cpu_limits = q.add totals.cpu_limits (effective (λ c. c.limits) "cpu" q.decimal_zero pod);
    memory_requests =
        q.add totals.memory_requests (effective (λ c. c.requests) "memory" q.binary_zero pod);
    memory_limits =
        q.add totals.memory_limits (effective (λ c. c.limits) "memory" q.binary_zero pod);
    cpu_usage = totals.cpu_usage;
    memory_usage = totals.memory_usage;
    pod_count = totals.pod_count + 1;
  }

  -- The sum of one resource over the containers of the metrics.
  pub usage_sum : String → Quantity → List (Dict Quantity) → Quantity
  unfolding add_found
  usage_sum name total [] = total
  usage_sum name total (u ∷ us) = usage_sum name (add_found total (Dict.get u name)) us

  pub add_usage : Sample Quantity → List (Dict Quantity) → Sample Quantity
  unfolding usage_sum
  add_usage totals usages = record totals {
    cpu_usage = usage_sum "cpu" totals.cpu_usage usages;
    memory_usage = usage_sum "memory" totals.memory_usage usages;
  }

  pub add_metrics : Sample Quantity → Option Object → Result UsageError (Sample Quantity)
  unfolding add_usage
  add_metrics totals none = ok totals
  add_metrics totals (some object) = do usages ← s.to_metrics object; ok (add_usage totals usages)

  -- The loop over the pods.
  pub add_pods : Dict Object → Sample Quantity → List Object → Result UsageError (Sample Quantity)
  unfolding add_pod add_metrics
  add_pods metrics totals [] = ok totals
  add_pods metrics totals (object ∷ objects) = do
    pod ← s.to_pod object
    counted ←
        if str_eq pod.phase "Running"
        then add_metrics (add_pod totals pod) (Dict.get metrics pod.name)
        else ok totals
    add_pods metrics counted objects

  -- `metricsByPod`: a later object of the same name replaces an earlier one.
  pub metrics_by_pod : Dict Object → List Object → Dict Object
  metrics_by_pod known [] = known
  metrics_by_pod known (m ∷ ms) = metrics_by_pod (Dict.put (s.get_name m) m known) ms

  -- Where the metrics cannot be listed, the usage is left out.
  pub metrics_listed : Result UsageError (List Object) → List Object
  metrics_listed (err e) = []
  metrics_listed (ok listed) = listed

  pub get_namespace_resource_usage : String → String → Result UsageError (Sample Quantity)
  unfolding add_pods metrics_by_pod metrics_listed new_sample
  get_namespace_resource_usage cluster_id namespace = do
    pods ← s.list_pods cluster_id namespace
    add_pods (metrics_by_pod [] (metrics_listed (s.list_metrics cluster_id namespace))) new_sample
        pods
