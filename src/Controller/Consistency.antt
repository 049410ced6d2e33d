-- ===== src/Controller/Consistency.antt =====
-- What holds of the connections that operator/controllers/collectormonitor_controller.go keeps,
-- and that opening and closing them keeps it.
use collectorctrl_k8s_code.Common.{
  ℕ, Bool, true, false, none, some, List, [], ◌∷◌, ◌++◌, ◌≡◌, ◌≢◌, ◌↔◌, inl, inr, sym, ◌∙◌, subst,
  Text, ◌==◌, ==_iff, Assoc, length, get_elem?, set, lookup, lookup_or, insert, remove, arith,
  Bool-cases, eqb, eqb_iff,
}
use collectorctrl_k8s_code.Common.Maps.{lookup-insert, lookup-remove}
use collectorctrl_k8s_code.Common.Places.{
  get_elem?-last, get_elem?-append, get_elem?-set_same, get_elem?-set_other,
}
use collectorctrl_k8s_code.Opamp.{Client}
use collectorctrl_k8s_code.Controller.Action.{Env, World, Captured}
use collectorctrl_k8s_code.Controller.Connection.{connection_key}

-- The reconciler's maps and its client objects.
pub record Memory (Conn : Type 0) : Type 0 where
  pub clients : Assoc ℕ
  pub started : Assoc Bool
  pub store : List (Client Conn Captured)

abbrev pub memory_of : {env : Env} → World env → Memory env.lib.Conn
memory_of w = record { clients = w.opamp_clients; started = w.opamp_started; store = w.store }

-- A client object at a place serves a monitor's key: its three handlers are set, they act for a
-- monitor of that key, and they answer on the connection of that place.
pub record Serves {Conn : Type 0} (key : Text) (p : ℕ) (c : Client Conn Captured) : Type 0 where
  pub captured : Captured
  pub place : captured.client ≡ p
  pub monitor : connection_key captured.monitor.namespace captured.monitor.name ≡ key
  pub updates : c.on_config_update ≡ some captured
  pub emergencies : c.on_emergency_cmd ≡ some captured
  pub logs : c.on_fetch_logs ≡ some captured

abbrev pub IsServed : {Conn : Type 0} → List (Client Conn Captured) → Text → ℕ → Type 0
IsServed {Conn} store key p =
    (c : Client Conn Captured) × (get_elem? store p ≡ some c) × Serves key p c

-- Every client in the map is an object that serves its key, and the keys of the two maps are the
-- same.
pub record IsConsistent {Conn : Type 0} (m : Memory Conn) : Type 0 where
  pub served : (key : Text) (p : ℕ) → lookup key m.clients ≡ some p → IsServed m.store key p
  pub started :
      (key : Text) → (lookup_or false key m.started ≡ true) ↔ (lookup key m.clients ≢ none)

module _ {Conn : Type 0} where
  IsServed-append :
      (store more : List (Client Conn Captured)) (key : Text) (p : ℕ)
      → IsServed store key p
      → IsServed (store ++ more) key p
  IsServed-append store more key p (c, h, s) = (c, get_elem?-append store more p c h, s)

  pub appended-IsConsistent :
      (m : Memory Conn) (c : Client Conn Captured)
      → IsConsistent m
      → IsConsistent (record m { store = m.store ++ c ∷ [] })
  appended-IsConsistent m c h = record {
    served = λ key p e. IsServed-append m.store (c ∷ []) key p (h.served key p e);
    started = h.started;
  }

  inserted-IsServed :
      (m : Memory Conn) (key : Text) (c : Client Conn Captured)
      → IsConsistent m
      → Serves key (length m.store) c
      → (j : Text) (p : ℕ) → lookup j (insert key (length m.store) m.clients) ≡ some p
      → IsServed (m.store ++ c ∷ []) j p
  inserted-IsServed m key c h s j p e =
      let places = lookup-insert j key (length m.store) m.clients in
      let store = m.store ++ c ∷ [] in
      elim (Bool-cases (key == j)) [
        | inl b ↦
            subst (λ q. IsServed store j q) (ground (arith, places, e, b))
              (subst (λ k. IsServed store k (length m.store)) ((==_iff key j).0 b)
                (c, get_elem?-last m.store c, s))
        | inr b ↦ IsServed-append m.store (c ∷ []) j p (h.served j p (ground (arith, places, e, b)))
      ]

  pub inserted-IsConsistent :
      (m : Memory Conn) (key : Text) (c : Client Conn Captured)
      → IsConsistent m
      → Serves key (length m.store) c
      → IsConsistent (record {
        clients = insert key (length m.store) m.clients;
        started = insert key true m.started;
        store = m.store ++ c ∷ [];
      })
  unfolding lookup_or
  inserted-IsConsistent m key c h s = record {
    served = inserted-IsServed m key c h s;
    started = λ j. ground (
      arith,
      lookup-insert j key (length m.store) m.clients,
      lookup-insert j key true m.started,
      h.started j,
    );
  }

  pub removed-IsConsistent :
      (m : Memory Conn) (key : Text)
      → IsConsistent m
      → IsConsistent (record m { clients = remove key m.clients; started = remove key m.started })
  unfolding lookup_or
  removed-IsConsistent m key h = record {
    served = λ j p e. h.served j p (ground (arith, lookup-remove j key m.clients));
    started = λ j.
        ground (arith, lookup-remove j key m.clients, lookup-remove j key m.started, h.started j);
  }

  pub forgotten-IsConsistent :
      (m : Memory Conn) (key : Text)
      → lookup key m.clients ≡ none
      → IsConsistent m
      → IsConsistent (record m { started = remove key m.started })
  unfolding lookup_or
  forgotten-IsConsistent m key missing h = record {
    served = h.served;
    started = λ j. ground (arith, lookup-remove j key m.started, h.started j, ==_iff key j);
  }

  -- An object with the same handlers.
  abbrev pub HasHandlersOf : Client Conn Captured → Client Conn Captured → Type 0
  HasHandlersOf c c' =
      (c'.on_config_update ≡ c.on_config_update)
      × (c'.on_emergency_cmd ≡ c.on_emergency_cmd)
      × (c'.on_fetch_logs ≡ c.on_fetch_logs)

  pub updated_Serves :
      (key : Text) (p : ℕ) (c c' : Client Conn Captured)
      → HasHandlersOf c c'
      → Serves key p c
      → Serves key p c'
  updated_Serves key p c c' same s = record {
    captured = s.captured;
    place = s.place;
    monitor = s.monitor;
    updates = same.0 ∙ s.updates;
    emergencies = same.1 ∙ s.emergencies;
    logs = same.2 ∙ s.logs;
  }

  same_object :
      (store : List (Client Conn Captured)) (p q : ℕ) (c d : Client Conn Captured)
      → get_elem? store p ≡ some c
      → get_elem? store q ≡ some d
      → p ≡ q
      → c ≡ d
  same_object store p q c d h k e = cc

  updated-IsServed :
      (store : List (Client Conn Captured)) (p : ℕ) (c c' : Client Conn Captured)
      → get_elem? store p ≡ some c
      → HasHandlersOf c c'
      → (key : Text) (q : ℕ) → IsServed store key q
      → IsServed (set store p c') key q
  updated-IsServed store p c c' at same key q (d, h, s) = elim (Bool-cases (eqb p q)) [
    | inl b ↦
        let e = (eqb_iff p q).0 b in
        let old = same_object store p q c d at h e in
        (
          c',
          subst (λ i. get_elem? (set store p c') i ≡ some c') e
              (get_elem?-set_same store p c c' at),
          updated_Serves key q c c' same (subst (Serves key q) (sym old) s),
        )
    | inr b ↦ (d, get_elem?-set_other store p q c' (λ e. absurd (ground arith)) ∙ h, s)
  ]

  pub updated-IsConsistent :
      (m : Memory Conn) (p : ℕ) (c c' : Client Conn Captured)
      → get_elem? m.store p ≡ some c
      → HasHandlersOf c c'
      → IsConsistent m
      → IsConsistent (record m { store = set m.store p c' })
  updated-IsConsistent m p c c' at same h = record {
    served = λ key q e. updated-IsServed m.store p c c' at same key q (h.served key q e);
    started = h.started;
  }
