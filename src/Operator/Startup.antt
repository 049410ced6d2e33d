-- ===== src/Operator/Startup.antt =====
-- `main` of cmd/operator/main.go goes by the rules: which call has failed, and what was logged and
-- registered by then.
use collectorctrl_k8s_code.Common.{
  ℕ, Option, none, some, ◌≡◌, refl, ap, ◌⊎◌, inl, inr, Text, text, GoError,
}
use collectorctrl_k8s_code.Monitor.Scheme.{SchemeLib}
use collectorctrl_k8s_code.Operator.{
  ended, told, outcome_of, manager_options, or_exit, CommandLine, Runtime, Process, Part, Ended,
  exited, returned, checked, call_or_exit, go_on, ◌>>=◌, ◌>>◌, Registration, registration,
  with_maps, new_reconciler, set_up_with_manager, run_manager, main_parts, main,
}
use collectorctrl_k8s_code.Operator.Rules.{
  operator_controller, Point, begun, configured, made, has_clientset, has_controller, has_healthz,
  has_readyz, moved, logged, registered, Goes, no_config, config_read, no_manager, manager_made,
  no_clientset, clientset_made, no_controller, controller_made, no_healthz, healthz_added,
  no_readyz, readyz_added, broke_down, came_to_an_end,
}

module _ {State : Type 0} where
  abbrev finished : (ℕ ⊎ Unit {0}) × Process State → Ended × Process State
  finished (r, p) = (ended r, p)

  -- The two ways that a part of `main` goes, for whatever is said of the end.
  module _ (P : Ended × Process State → Type 0) where
    or_exit-cases :
        {A : Type 0} (r : GoError ⊎ A) (k : A → Part State (Unit {0})) (q : Process State)
        → ((e : GoError) → r ≡ inl e → P (exited 1, q))
        → ((a : A) → r ≡ inr a → P (finished (k a q)))
        → P (finished (go_on (or_exit r q).0 k (or_exit r q).1))
    or_exit-cases (inl e) k q f g = f e refl
    or_exit-cases (inr a) k q f g = g a refl

    checked-cases :
        {A : Type 0} (message : Text) (r : GoError ⊎ A) (k : A → Part State (Unit {0}))
        (q : Process State)
        → ((e : GoError) → r ≡ inl e → P (exited 1, logged message q))
        → ((a : A) → r ≡ inr a → P (finished (k a q)))
        → P (finished (go_on (checked message r q).0 k (checked message r q).1))
    checked-cases message (inl e) k q f g = f e refl
    checked-cases message (inr a) k q f g = g a refl

    told-cases :
        (message : Text) (x : Option GoError) (k : Unit {0} → Part State (Unit {0}))
        (q : Process State)
        → ((e : GoError) → x ≡ some e → P (exited 1, logged message q))
        → (x ≡ none → P (finished (k tt q)))
        → P (
            finished
              (go_on (checked message (outcome_of x) q).0 k (checked message (outcome_of x) q).1))
    told-cases message (some e) k q f g = f e refl
    told-cases message none k q f g = g refl

    added-cases :
        (message : Text) (c : Registration) (x : Option GoError) (k : Part State (Unit {0}))
        (q : Process State)
        → ((e : GoError) → x ≡ some e → P (exited 1, logged message q))
        → (x ≡ none → P (finished (k (registered c q))))
        → P (
            let (r, q') = checked message (outcome_of x) q in
            let (r', v) = go_on r (λ _ t. (inr tt, registered c t)) q' in
            finished (go_on r' (λ _. k) v))
    added-cases message c (some e) k q f g = f e refl
    added-cases message c none k q f g = g refl

    told-end :
        (message : Text) (x : Option GoError) (q : Process State)
        → ((e : GoError) → x ≡ some e → P (exited 1, logged message q))
        → (x ≡ none → P (returned, q))
        → P (finished (checked message (outcome_of x) q))
    told-end message (some e) q f g = f e refl
    told-end message none q f g = g refl

module _ {S : SchemeLib} (rt : Runtime S) (scheme : S.Scheme) (flags : CommandLine)
    (secret : Text) where
  abbrev From :
      Point rt.RestConfig rt.Manager → Process rt.State → Ended × Process rt.State → Type 0
  From = Goes rt scheme flags secret

  run_manager-Goes :
      (mgr : rt.Manager) (p : Process rt.State)
      → From (has_readyz mgr) p (finished (run_manager rt mgr p))
  unfolding run_manager
  run_manager-Goes mgr p =
      let (x, s) = rt.start mgr p.runtime in
      told-end (From (has_readyz mgr) p) (text "problem running manager") x
        (moved s (logged (text "starting manager") p))
        (λ e h. broke_down mgr p e s (ap (λ r. (r, s)) h))
        (λ h. came_to_an_end mgr p s (ap (λ r. (r, s)) h))

  -- What is left of `main` after each part.
  abbrev readyz_on : rt.Manager → Part rt.State (Unit {0})
  readyz_on mgr =
      call_or_exit (text "unable to set up ready check")
        (told rt (rt.add_readyz_check mgr (text "readyz")))
      >> run_manager rt mgr

  abbrev healthz_on : rt.Manager → Part rt.State (Unit {0})
  healthz_on mgr =
      call_or_exit (text "unable to set up health check")
        (told rt (rt.add_healthz_check mgr (text "healthz")))
      >> readyz_on mgr

  abbrev controller_on : rt.Manager → Part rt.State (Unit {0})
  controller_on mgr = set_up_with_manager rt (new_reconciler secret) mgr >> healthz_on mgr

  abbrev clientset_on : rt.Manager → Part rt.State (Unit {0})
  clientset_on mgr =
      call_or_exit (text "unable to create kubernetes clientset") (rt.new_clientset mgr)
      >> controller_on mgr

  abbrev manager_on : rt.RestConfig → Part rt.State (Unit {0})
  manager_on config =
      call_or_exit (text "unable to start manager")
        (rt.new_manager config (manager_options rt scheme flags))
      >>= clientset_on

  readyz-Goes :
      (mgr : rt.Manager) (p : Process rt.State)
      → From (has_healthz mgr) p (finished (readyz_on mgr p))
  readyz-Goes mgr p =
      let (x, s) = rt.add_readyz_check mgr (text "readyz") p.runtime in
      told-cases (From (has_healthz mgr) p) (text "unable to set up ready check") x
        (λ _. run_manager rt mgr) (moved s p) (λ e h. no_readyz mgr p e s (ap (λ r. (r, s)) h))
        (λ h. readyz_added mgr p s _ (ap (λ r. (r, s)) h) (run_manager-Goes mgr (moved s p)))

  healthz-Goes :
      (mgr : rt.Manager) (p : Process rt.State)
      → From (has_controller mgr) p (finished (healthz_on mgr p))
  healthz-Goes mgr p =
      let (x, s) = rt.add_healthz_check mgr (text "healthz") p.runtime in
      told-cases (From (has_controller mgr) p) (text "unable to set up health check") x
        (λ _. readyz_on mgr) (moved s p) (λ e h. no_healthz mgr p e s (ap (λ r. (r, s)) h))
        (λ h. healthz_added mgr p s _ (ap (λ r. (r, s)) h) (readyz-Goes mgr (moved s p)))

  controller-Goes :
      (mgr : rt.Manager) (p : Process rt.State)
      → From (has_clientset mgr) p (finished (controller_on mgr p))
  unfolding set_up_with_manager new_reconciler with_maps registration
  controller-Goes mgr p =
      let c = operator_controller secret in
      let (x, s) = rt.complete mgr c p.runtime in
      added-cases (From (has_clientset mgr) p) (text "unable to create controller") c x
        (healthz_on mgr) (moved s p) (λ e h. no_controller mgr p e s (ap (λ r. (r, s)) h))
        (λ h.
          controller_made mgr p s _ (ap (λ r. (r, s)) h)
            (healthz-Goes mgr (registered c (moved s p))))

  clientset-Goes :
      (mgr : rt.Manager) (p : Process rt.State) → From (made mgr) p (finished (clientset_on mgr p))
  clientset-Goes mgr p =
      let (x, s) = rt.new_clientset mgr p.runtime in
      checked-cases (From (made mgr) p) (text "unable to create kubernetes clientset") x
        (λ _. controller_on mgr) (moved s p) (λ e h. no_clientset mgr p e s (ap (λ r. (r, s)) h))
        (λ a h. clientset_made mgr p a s _ (ap (λ r. (r, s)) h) (controller-Goes mgr (moved s p)))

  manager-Goes :
      (config : rt.RestConfig) (p : Process rt.State)
      → From (configured config) p (finished (manager_on config p))
  manager-Goes config p =
      let (x, s) = rt.new_manager config (manager_options rt scheme flags) p.runtime in
      checked-cases (From (configured config) p) (text "unable to start manager") x clientset_on
        (moved s p) (λ e h. no_manager config p e s (ap (λ r. (r, s)) h))
        (λ mgr h.
          manager_made config p mgr s _ (ap (λ r. (r, s)) h) (clientset-Goes mgr (moved s p)))

  -- `main` makes its calls in order: it reads the configuration of the cluster, makes the manager and
  -- the clientset, completes its one controller, adds the two checks and starts the manager. The
  -- first call that fails ends the process with code 1, after its complaint; reading the
  -- configuration complains by itself. The controller counts as registered from the call that
  -- completes it on. `main` returns only where every call went well, the start of the manager, which
  -- is announced, included.
  pub main-Goes : (p : Process rt.State) → From begun p (main rt scheme flags secret p)
  unfolding main main_parts
  main-Goes p =
      let (x, s) = rt.get_config p.runtime in
      or_exit-cases (From begun p) x manager_on (moved s p)
        (λ e h. no_config p e s (ap (λ r. (r, s)) h))
        (λ config h.
          config_read p config s _ (ap (λ r. (r, s)) h) (manager-Goes config (moved s p)))
