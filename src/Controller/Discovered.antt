-- ===== src/Controller/Discovered.antt =====
-- What `discoverWorkload` of operator/controllers/collectormonitor_controller.go returns.
use collectorctrl_k8s_code.Common.{
  true, false, Option, none, some, List, [], ◌∷◌, ◌++◌, ◌≡◌, refl, ap, subst, ◌∙◌, Text, ◌⊎◌, inl,
  inr, GoError, Outcome, ok, err, panic, arith, All, Bool-cases,
}
use collectorctrl_k8s_code.Monitor.{CollectorMonitor, WorkloadSelector}
use collectorctrl_k8s_code.Controller.Cluster.{Workload, WorkloadKind}
use collectorctrl_k8s_code.Controller.Action.{Env, World, Act, continue, answered, ◌>>=◌, pure, ask}
use collectorctrl_k8s_code.Controller.Discovery.{
  discover_workload, discover_among, name_fits, kind_fits, first_fit, kinds, return_or,
}

-- What a list must answer, for the workload to be returned.
pub record IsListed (env : Env) (m : CollectorMonitor) (w : Workload) : Type 0 where
  pub kind : WorkloadKind
  pub state : env.cluster.State
  pub next : env.cluster.State
  pub before : List Workload
  pub behind : List Workload
  pub answer :
      env.cluster.list_workloads kind m.spec.workload_selector.match_labels m.namespace state
      ≡ (inr (before ++ w ∷ behind), next)
  pub kind_agrees : kind_fits m.spec.workload_selector kind ≡ true
  pub name_agrees : name_fits m.spec.workload_selector w ≡ true
  pub first : All (λ v. name_fits m.spec.workload_selector v ≡ false) before

-- The first element of a list is the one that is found.
fitting :
    (selector : WorkloadSelector) (v w : Workload) (l : List Workload)
    → name_fits selector v ≡ true
    → v ≡ w
    → (before behind : List Workload) × (v ∷ l ≡ before ++ w ∷ behind)
      × (name_fits selector w ≡ true)
      × All (λ u. name_fits selector u ≡ false) before
fitting selector v w l b e =
    ([], l, ap (λ u. u ∷ l) e, subst (λ u. name_fits selector u ≡ true) e b, tt)

first_fit-split :
    (selector : WorkloadSelector) (l : List Workload) (w : Workload)
    → first_fit selector l ≡ some w
    → (before behind : List Workload) × (l ≡ before ++ w ∷ behind)
      × (name_fits selector w ≡ true)
      × All (λ v. name_fits selector v ≡ false) before
unfolding first_fit
first_fit-split selector [] w h = absurd (ground arith)
first_fit-split selector (v ∷ l) w h = elim (Bool-cases (name_fits selector v)) [
  | inl b ↦ fitting selector v w l b (ground arith)
  | inr b ↦
      let (before, behind, e, fits, others) = first_fit-split selector l w (ground arith) in
      (v ∷ before, behind, ap (λ k. v ∷ k) e, fits, (b, others))
]

-- A workload that is returned is listed.
abbrev pub Lists : {env : Env} → CollectorMonitor → Outcome Workload × World env → Type 0
Lists {env} m (ok w, v) = IsListed env m w
Lists m (err e, v) = Unit
Lists m (panic, v) = Unit

module _ {env : Env} (show_selector : WorkloadSelector → Text) (m : CollectorMonitor) where
  listed :
      (kind : WorkloadKind) (s t : env.cluster.State) (l : List Workload)
      → env.cluster.list_workloads kind m.spec.workload_selector.match_labels m.namespace s
        ≡ (inr l, t)
      → kind_fits m.spec.workload_selector kind ≡ true
      → (w : Workload) → first_fit m.spec.workload_selector l ≡ some w
      → IsListed env m w
  listed kind s t l answer fits w h =
      let (before, behind, e, agrees, others) = first_fit-split m.spec.workload_selector l w h in
      record {
        kind = kind;
        state = s;
        next = t;
        before = before;
        behind = behind;
        answer = answer ∙ ap (λ k. (inr k, t)) e;
        kind_agrees = fits;
        name_agrees = agrees;
        first = others;
      }

  found-Lists :
      (later : Act env Workload) (w : World env) (found : Option Workload)
      → ((v : Workload) → found ≡ some v → IsListed env m v)
      → Lists m (later w)
      → Lists m (return_or later found w)
  found-Lists later w none l k = k
  found-Lists later w (some v) l k = l v refl

  listing-Lists :
      (kind : WorkloadKind) (later : Act env Workload) (w : World env) (r : GoError ⊎ List Workload)
      (s : env.cluster.State)
      → env.cluster.list_workloads kind m.spec.workload_selector.match_labels m.namespace w.cluster
        ≡ (r, s)
      → kind_fits m.spec.workload_selector kind ≡ true
      → Lists m (later (record w { cluster = s }))
      → Lists m (
          continue {env = env}
            (answered r)
            (λ l. return_or later (first_fit m.spec.workload_selector l))
            (record w { cluster = s }))
  listing-Lists kind later w (inl e) s answer fits k = tt
  listing-Lists kind later w (inr l) s answer fits k =
      found-Lists later (record w { cluster = s }) (first_fit m.spec.workload_selector l)
        (λ v h. listed kind w.cluster s l answer fits v h) k

  answer-Lists :
      (kind : WorkloadKind) (later : Act env Workload) (w : World env)
      → kind_fits m.spec.workload_selector kind ≡ true
      → Lists m (
          later (record w {
            cluster =
                (env.cluster.list_workloads kind m.spec.workload_selector.match_labels m.namespace
                  w.cluster).1;
          }))
      → Lists m (
          (ask (env.cluster.list_workloads kind m.spec.workload_selector.match_labels m.namespace)
              >>= λ l. elim (first_fit m.spec.workload_selector l) [
                | some v ↦ pure v
                | none ↦ later
              ])
            w)
  answer-Lists kind later w fits k =
      let answer =
        env.cluster.list_workloads kind m.spec.workload_selector.match_labels m.namespace
          w.cluster in
      listing-Lists kind later w answer.0 answer.1 refl fits k

  discover_among-Lists :
      (ks : List WorkloadKind) (w : World env) → Lists m (discover_among show_selector m ks w)
  unfolding discover_among
  discover_among-Lists [] w = tt
  discover_among-Lists (kind ∷ ks) w = elim (Bool-cases (kind_fits m.spec.workload_selector kind)) [
    | inl b ↦
        rw b (answer-Lists kind (discover_among show_selector m ks) w b (discover_among-Lists ks _))
    | inr b ↦ rw b (discover_among-Lists ks w)
  ]

  -- A workload that is discovered is, in an answer of the cluster to a list in the namespace and
  -- with the labels of the selector and of a kind that the selector allows, the first one whose
  -- name the selector allows.
  pub discover_workload_listed :
      (w v : World env) (wl : Workload)
      → discover_workload show_selector m w ≡ (ok wl, v)
      → IsListed env m wl
  unfolding discover_workload
  discover_workload_listed w v wl h = subst (Lists m) h (discover_among-Lists kinds w)
