-- ===== src/Opamp/Health.antt =====
-- What the server can read from the health message of pkg/opamp/client.go.
use mathlib.Core.Bool.{false≢true}
use mathlib.Core.List.{foldl, foldl-append}
use collectorctrl_k8s_code.Common.{
  Bool, true, Option, none, some, List, [], ◌∷◌, ◌++◌, ◌≡◌, ◌≢◌, ◌↔◌, refl, ◌∙◌, Text, text, ◌==◌,
  ==_iff, show_nat, if◌then◌else◌, All, arith, length, count_if-eq-length_iff, eqb_iff, All-map,
  All_of, ==_refl, eqb,
}
use collectorctrl_k8s_code.Api.{HealthStatus}
use collectorctrl_k8s_code.Opamp.Protocol.{
  ComponentHealth, health, Components, end, component, set_component,
}
use collectorctrl_k8s_code.Opamp.{
  PodHealth, add_pod, pod_status, is_healthy, count_ready, fleet_health,
}

-- Reading a component of a health message.
pub find_component : Text → Components → Option ComponentHealth
find_component k end = none
find_component k (component j v m) = if j == k then some v else find_component k m

abbrev pub components_of : ComponentHealth → Components
components_of (health healthy status m) = m

find_component-set :
    (k j : Text) (v : ComponentHealth) (m : Components)
    → find_component j (set_component k v m) ≡ (if k == j then some v else find_component j m)
unfolding find_component set_component
find_component-set k j v end = refl
find_component-set k j v (component i w m) =
    ground (arith, ==_iff k j, ==_iff i k, ==_iff i j, find_component-set k j v m)

pod_key_injective : (a b : Text) → text "pod/" ++ a ≡ text "pod/" ++ b → a ≡ b
unfolding text
pod_key_injective a b h = cc

pod_key_ne_fleet : (a : Text) → text "pod/" ++ a ≢ text "fleet"
unfolding text ◌==◌
pod_key_ne_fleet a h = false≢true ((==_iff (text "pod/" ++ a) (text "fleet")).1 h)

found_first :
    (k : Text) (v : ComponentHealth) (m : Components) → find_component k (component k v m) ≡ some v
unfolding find_component
found_first k v m = rw ==_refl

add_pod_keeps :
    (k : Text) (m : Components) (pods : List PodHealth)
    → All (λ q. text "pod/" ++ q.name ≢ k) pods
    → find_component k (foldl add_pod m pods) ≡ find_component k m
unfolding add_pod
add_pod_keeps k m [] h = refl
add_pod_keeps k m (q ∷ pods) h =
    let key = text "pod/" ++ q.name in
    let v = health q.ready (pod_status q) end in
    add_pod_keeps k (add_pod m q) pods h.1
    ∙ ground (arith, find_component-set key k v m, ==_iff key k, h.0)

-- The last pod of a name is reported under it, with its readiness, its node, address and phase.
pub fleet_health-pod :
    (status : HealthStatus) (before after : List PodHealth) (p : PodHealth)
    → All (λ q. q.name ≢ p.name) after
    → find_component
        (text "pod/" ++ p.name)
        (components_of (fleet_health status (before ++ p ∷ after)))
      ≡ some (health p.ready (pod_status p) end)
unfolding fleet_health
fleet_health-pod status before after p h =
    let key = text "pod/" ++ p.name in
    let v = health p.ready (pod_status p) end in
    rw (foldl-append add_pod _ before (p ∷ after)) (
      add_pod_keeps key _ after (All-map (λ q ne e. ne (pod_key_injective q.name p.name e)) after h)
      ∙ unfold add_pod in rw (find_component-set key key v, ==_refl key))

all_ready_iff :
    (pods : List PodHealth)
    → (eqb (count_ready pods) (length pods) ≡ true) ↔ All (λ p. p.ready ≡ true) pods
all_ready_iff pods =
    let whole = count_if-eq-length_iff (λ p. p.ready) pods in
    let numbers = eqb_iff (count_ready pods) (length pods) in
    ((λ h. whole.0 (numbers.0 h)), (λ h. numbers.1 (whole.1 h)))

-- The number of pods and of ready pods are reported under the fleet, which is healthy exactly if
-- the status is, and `ready_pods` is healthy exactly if every pod is ready.
pub fleet_health-fleet :
    (status : HealthStatus) (pods : List PodHealth)
    → (all_ready : Bool) × (find_component (text "fleet") (components_of (fleet_health status pods))
        ≡ some (
            health (is_healthy status) [] (
              component (text "total_pods") (health true (show_nat (length pods)) end) (
                component
                  (text "ready_pods")
                  (health all_ready (show_nat (count_ready pods)) end)
                  end))))
      × ((all_ready ≡ true) ↔ All (λ p. p.ready ≡ true) pods)
unfolding fleet_health
fleet_health-fleet status pods = (
  eqb (count_ready pods) (length pods),
  add_pod_keeps (text "fleet") _ pods (All_of (λ q. pod_key_ne_fleet q.name) pods)
      ∙ found_first _ _ _,
  all_ready_iff pods,
)
