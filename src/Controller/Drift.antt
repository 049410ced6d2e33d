-- ===== src/Controller/Drift.antt =====
-- When `detectDrift` of operator/controllers/collectormonitor_controller.go reports a drift.
use collectorctrl_k8s_code.Common.{
  ◌∷◌, ℕ, All, ◌∙◌, ◌↔◌, false, some, List, [], map, ◌≡◌, ◌≢◌, ◌⊎◌, inl, inr, refl, sym, ap, subst,
  Outcome, Text, text, ◌==◌, ==_iff, lookup_or, ok, equal_fold, fold_rune, show_hex, arith,
  Bool-cases,
}
use collectorctrl_k8s_code.Common.Shown.{IsByte, show_hex-injective}
use collectorctrl_k8s_code.Opamp.Messages.{equal_fold_iff}
use collectorctrl_k8s_code.Monitor.{CollectorMonitor, ConfigMapReference}
use collectorctrl_k8s_code.Controller.Cluster.{ConfigMap, Pod}
use collectorctrl_k8s_code.Controller.Action.{Env, World}
use collectorctrl_k8s_code.Controller.Discovery.{contents_of}
use collectorctrl_k8s_code.Controller.Fleet.{
  detect_drift, detect_in, check_pods, check_pod, compare_hash, first_ready, drift_event, is_empty,
}

-- The hash that a pod reports in its annotation, if any.
abbrev pub reported_hash : Pod → Text
reported_hash pod = lookup_or [] (text "collectorctrl.io/config-hash") pod.annotations

-- The pod reports another configuration than the expected one, without regard to case.
abbrev pub IsDrifted : Text → Pod → Type 0
IsDrifted expected pod =
    (reported_hash pod ≢ []) × (map fold_rune (reported_hash pod) ≢ map fold_rune expected)

show_hex_some : (digest : List ℕ) → digest ≢ [] → show_hex digest ≢ []
unfolding show_hex
show_hex_some [] h e = h refl
show_hex_some (b ∷ digest) h e = absurd (ground arith)

IsDrifted-digests :
    (pod : Pod) (digest sum : List ℕ)
    → reported_hash pod ≡ show_hex digest
    → digest ≢ []
    → All IsByte digest
    → All IsByte sum
    → IsDrifted (show_hex sum) pod ↔ (digest ≢ sum)
IsDrifted-digests pod digest sum reports some_digest bytes sum_bytes = (
  (λ d e. d.1 (ap (map fold_rune) (reports ∙ ap show_hex e))),
  (λ ne. (
    (λ e. show_hex_some digest some_digest (sym reports ∙ e)),
    (λ e.
        ne (show_hex-injective digest sum bytes sum_bytes (ap (map fold_rune) (sym reports) ∙ e))),
  )),
)

module _ {env : Env} (quote : Text → Text) (m : CollectorMonitor) where
  pub compare_hash_cases :
      (expected : Text) (pod : Pod) (w : World env)
      → (IsDrifted expected pod
          × (compare_hash quote m expected pod w ≡ (
            ok tt,
            record w {
              cluster =
                  env.cluster.record_event m
                    (drift_event pod.name expected (reported_hash pod))
                    w.cluster;
            },
          )))
        ⊎ ((¬ IsDrifted expected pod) × (compare_hash quote m expected pod w ≡ (ok tt, w)))
  unfolding compare_hash
  compare_hash_cases expected pod w =
      let found = reported_hash pod in
      elim (Bool-cases (found == [])) [
        | inl b ↦ inr ((λ d. d.0 ((==_iff found []).0 b)), rw b refl)
        | inr b ↦ elim (Bool-cases (equal_fold found expected)) [
          | inl t ↦ inr ((λ d. d.1 ((equal_fold_iff found expected).0 t)), rw (b, t))
          | inr t ↦ inl (
            (
              (λ e. absurd (ground (arith, (==_iff found []).1 e))),
              (λ e. absurd (ground (arith, (equal_fold_iff found expected).1 e))),
            ),
            rw (b, t),
          )
        ]
      ]

  detect_in-run :
      (cm : ConfigMap) (ref : ConfigMapReference) (w : World env) (pods : List Pod)
      (s : env.cluster.State) (pod : Pod)
      → (lookup_or [] ref.key (contents_of cm) == []) ≡ false
      → is_empty m.spec.workload_selector.match_labels ≡ false
      → env.cluster.list_pods m.spec.workload_selector.match_labels m.namespace w.cluster
        ≡ (inr pods, s)
      → first_ready pods ≡ some pod
      → detect_in quote m cm (some ref) w
        ≡ compare_hash quote m
            (show_hex (env.cluster.sha256 (lookup_or [] ref.key (contents_of cm))))
            pod
            (record w { cluster = s })
  unfolding detect_in check_pods check_pod
  detect_in-run cm ref w pods s pod present labelled listed ready =
      rw (present, labelled, listed, ready)

  -- The two ways in which a check can end, for the outcome of a run.
  abbrev pub DriftCases :
      Text → Pod → env.cluster.State → World env → Outcome (Unit {0}) × World env → Type 0
  DriftCases expected pod s w run =
      (IsDrifted expected pod
        × (run ≡ (
          ok tt,
          record w {
            cluster =
                env.cluster.record_event m (drift_event pod.name expected (reported_hash pod)) s;
          },
        )))
      ⊎ ((¬ IsDrifted expected pod) × (run ≡ (ok tt, record w { cluster = s })))

  -- If the monitor refers to a key that the config map holds with a configuration, its selector has
  -- labels, and a pod with these labels is ready, the check succeeds, and it records an event
  -- exactly if the first ready pod reports a hash and this hash differs, beyond the case of its
  -- letters, from the SHA-256 of the configuration in hexadecimal.
  pub detect_drift_cases :
      (cm : ConfigMap) (ref : ConfigMapReference) (w : World env) (pods : List Pod)
      (s : env.cluster.State) (pod : Pod)
      → m.status.config_map_ref ≡ some ref
      → (lookup_or [] ref.key (contents_of cm) == []) ≡ false
      → is_empty m.spec.workload_selector.match_labels ≡ false
      → env.cluster.list_pods m.spec.workload_selector.match_labels m.namespace w.cluster
        ≡ (inr pods, s)
      → first_ready pods ≡ some pod
      → DriftCases
          (show_hex (env.cluster.sha256 (lookup_or [] ref.key (contents_of cm))))
          pod
          s
          w
          (detect_drift quote m cm w)
  unfolding detect_drift
  detect_drift_cases cm ref w pods s pod referred present labelled listed ready =
      let expected = show_hex (env.cluster.sha256 (lookup_or [] ref.key (contents_of cm))) in
      let run = compare_hash_cases expected pod (record w { cluster = s }) in
      subst (λ x. DriftCases expected pod s w x) (sym (ap (λ r. detect_in quote m cm r w) referred))
        (subst (λ x. DriftCases expected pod s w x)
          (sym (detect_in-run cm ref w pods s pod present labelled listed ready)) run)

  -- If, moreover, the pod reports the hexadecimal rendering of a digest, and SHA-256 gives bytes, then
  -- the event is recorded exactly if this digest is not the SHA-256 of the configuration.
  pub detect_drift_digests :
      (cm : ConfigMap) (ref : ConfigMapReference) (w : World env) (pods : List Pod)
      (s : env.cluster.State) (pod : Pod) (digest : List ℕ)
      → m.status.config_map_ref ≡ some ref
      → (lookup_or [] ref.key (contents_of cm) == []) ≡ false
      → is_empty m.spec.workload_selector.match_labels ≡ false
      → env.cluster.list_pods m.spec.workload_selector.match_labels m.namespace w.cluster
        ≡ (inr pods, s)
      → first_ready pods ≡ some pod
      → reported_hash pod ≡ show_hex digest
      → digest ≢ []
      → All IsByte digest
      → All IsByte (env.cluster.sha256 (lookup_or [] ref.key (contents_of cm)))
      → let sum = env.cluster.sha256 (lookup_or [] ref.key (contents_of cm)) in
        (digest ≡ sum → detect_drift quote m cm w ≡ (ok tt, record w { cluster = s }))
        × (digest ≢ sum
            → detect_drift quote m cm w ≡ (
              ok tt,
              record w {
                cluster =
                    env.cluster.record_event m
                      (drift_event pod.name (show_hex sum) (show_hex digest))
                      s;
              },
            ))
  detect_drift_digests cm ref w pods s pod digest referred present labelled listed ready reports
        some_digest bytes sum_bytes =
      let sum = env.cluster.sha256 (lookup_or [] ref.key (contents_of cm)) in
      let drifted = IsDrifted-digests pod digest sum reports some_digest bytes sum_bytes in
      elim (detect_drift_cases cm ref w pods s pod referred present labelled listed ready) [
        | inl (d, run) ↦ (
          (λ e. absurd (drifted.0 d e)),
          (λ ne.
              subst
                (λ r. detect_drift quote m cm w ≡ (
                  ok tt,
                  record w {
                    cluster = env.cluster.record_event m (drift_event pod.name (show_hex sum) r) s;
                  },
                ))
                reports run),
        )
        | inr (d, run) ↦ ((λ e. run), (λ ne. absurd (d (drifted.1 ne))))
      ]
