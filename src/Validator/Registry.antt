-- ===== src/Validator/Registry.antt =====
-- The starter registry of internal/validator/otel.go.
use collectorctrl_k8s_code.Common.{String, Bool, true, List, [], ◌∷◌, map, text, Assoc}

names : List String
names =
    "otlp" ∷ "prometheus" ∷ "jaeger" ∷ "zipkin" ∷ "hostmetrics" ∷ "filelog" ∷ "kubeletstats"
    ∷ "k8scluster" ∷ "k8sobjects" ∷ "k8sevents" ∷ "batch" ∷ "memory_limiter" ∷ "resource" ∷ "filter"
    ∷ "attributes" ∷ "k8sattributes" ∷ "transform" ∷ "tail_sampling" ∷ "group_by_attrs" ∷ "debug"
    ∷ "otlphttp" ∷ "splunk_hec" ∷ "splunk_hec_logs" ∷ "prometheusremotewrite" ∷ "loki" ∷ "datadog"
    ∷ "health_check" ∷ "pprof" ∷ "zpages" ∷ "opamp" ∷ "storage" ∷ "file_storage" ∷ []

unfoldable pub default_known_components : Assoc Bool
unfolding names
default_known_components = map (λ name. (text name, true)) names
