-- ===== src/Controller/HealthLevels.antt =====
-- The aggregate health that operator/controllers/collectormonitor_controller.go reports.
use collectorctrl_k8s_code.Common.{
  ℕ, ◌≤◌, true, false, List, [], ◌∷◌, ◌≡◌, ◌≢◌, ◌↔◌, refl, arith, All, length,
  count_if-eq-length_iff, count_if-le-length, count_if-eq-zero_iff,
}
use collectorctrl_k8s_code.Api.{HealthStatus, healthy, degraded, unhealthy, unknown}
use collectorctrl_k8s_code.Controller.Cluster.{Pod}
use collectorctrl_k8s_code.Controller.Fleet.{is_pod_ready, ready_pods, aggregate_health}

abbrev pub fleet_level : List Pod → HealthStatus
fleet_level pods = aggregate_health (ready_pods pods) (length pods)

abbrev pub IsReady : Pod → Type 0
IsReady pod = is_pod_ready pod ≡ true

abbrev pub IsNotReady : Pod → Type 0
IsNotReady pod = is_pod_ready pod ≡ false

aggregate_health_cases :
    (r n : ℕ)
    → r ≤ n
    → ((aggregate_health r n ≡ unknown) ↔ (n ≡ 0))
      × ((aggregate_health r n ≡ healthy) ↔ ((n ≢ 0) × (r ≡ n)))
      × ((aggregate_health r n ≡ unhealthy) ↔ ((n ≢ 0) × (r ≡ 0)))
      × ((aggregate_health r n ≡ degraded) ↔ ((r ≢ n) × (r ≢ 0)))
unfolding aggregate_health
aggregate_health_cases r n h = (ground arith, ground arith, ground arith, ground arith)

length-eq-zero_iff {ℓ} : {A : Type ℓ} (xs : List A) → (length xs ≡ 0) ↔ (xs ≡ [])
length-eq-zero_iff [] = ((λ h. refl), (λ h. refl))
length-eq-zero_iff (x ∷ xs) = ((λ h. absurd (omega (arith, h))), (λ h. ground arith))

-- A fleet is unknown exactly if it has no pod, healthy exactly if it has some and all are ready,
-- unhealthy exactly if it has some and none is ready, and degraded exactly if some pod is ready and
-- some is not.
pub fleet_level_cases :
    (pods : List Pod)
    → ((fleet_level pods ≡ unknown) ↔ (pods ≡ []))
      × ((fleet_level pods ≡ healthy) ↔ ((pods ≢ []) × All IsReady pods))
      × ((fleet_level pods ≡ unhealthy) ↔ ((pods ≢ []) × All IsNotReady pods))
      × ((fleet_level pods ≡ degraded) ↔ ((¬ All IsReady pods) × (¬ All IsNotReady pods)))
fleet_level_cases pods =
    let bound = count_if-le-length is_pod_ready pods in
    let cases = aggregate_health_cases (ready_pods pods) (length pods) bound in
    let empty = length-eq-zero_iff pods in
    let all_ready = count_if-eq-length_iff is_pod_ready pods in
    let none_ready = count_if-eq-zero_iff is_pod_ready pods in
    (
      ((λ h. empty.0 (cases.0.0 h)), (λ h. cases.0.1 (empty.1 h))),
      (
        (λ h. let c = cases.1.0 h in ((λ e. c.0 (empty.1 e)), all_ready.0 c.1)),
        (λ h. cases.1.1 ((λ e. h.0 (empty.0 e)), all_ready.1 h.1)),
      ),
      (
        (λ h. let c = cases.2.0 h in ((λ e. c.0 (empty.1 e)), none_ready.0 c.1)),
        (λ h. cases.2.1 ((λ e. h.0 (empty.0 e)), none_ready.1 h.1)),
      ),
      (
        (λ h. let c = cases.3.0 h in ((λ a. c.0 (all_ready.1 a)), (λ a. c.1 (none_ready.1 a)))),
        (λ h. cases.3.1 ((λ e. h.0 (all_ready.0 e)), (λ e. h.1 (none_ready.0 e)))),
      ),
    )
