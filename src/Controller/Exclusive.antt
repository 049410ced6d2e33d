-- ===== src/Controller/Exclusive.antt =====
-- The table of connections of operator/controllers/collectormonitor_controller.go, however its parts
-- are interleaved.
use collectorctrl_k8s_code.Common.{◌≡◌, refl, inl, subst, []}
use collectorctrl_k8s_code.Opamp.Session.{set_effective_config}
use collectorctrl_k8s_code.Controller.Action.{Env, World}
use collectorctrl_k8s_code.Controller.Consistency.{memory_of}
use collectorctrl_k8s_code.Controller.Connected.{IsOrderly}
use collectorctrl_k8s_code.Controller.Running.{IsFresh, fresh-IsOrderly}
use collectorctrl_k8s_code.Controller.Table.{
  AtMostOne, Makes, nothing, IsExclusive, Makes-IsExclusive,
}
use collectorctrl_k8s_code.Controller.Refining.{
  table_of, IsAt, IsWithinOne, memory_calls, update_client-table,
}
use collectorctrl_k8s_code.Controller.Refined.{
  ensure-Turns, cleanup-Turns, opened-table, extended, empty_world,
}
use collectorctrl_k8s_code.Controller.Interleaved.{
  Part, ensures, cleans, calls, configures, connects, meanwhile, Parts, done, part, Parts-IsOrderly,
}

module _ {env : Env} where
  table-IsAt : (v : World env) → IsOrderly v → IsAt (table_of (memory_of v)) (memory_of v)
  table-IsAt v h = record { consistent = h; table = refl }

  Part-AtMostOne :
      (v w : World env)
      → IsOrderly v
      → Part v w
      → AtMostOne (table_of (memory_of v)) (table_of (memory_of w))
  Part-AtMostOne _ _ h (ensures m wl v) =
      ((ensure-Turns (table_of (memory_of v)) (λ _. []) (λ t. t) m wl).turn v
        (table-IsAt v h)).table
  Part-AtMostOne _ _ h (cleans ns name v) =
      ((cleanup-Turns (table_of (memory_of v)) (λ _. []) (λ t. t) ns name).turn v
        (table-IsAt v h)).table
  Part-AtMostOne _ _ h (calls p method v) =
      let J = IsWithinOne (table_of (memory_of v)) in
      (((memory_calls J).method p method).keep v (record { table = inl refl })).table
  Part-AtMostOne _ _ h (configures p yaml v) = inl (
      update_client-table (λ t. table_of (memory_of v) ≡ t) p (set_effective_config env.lib yaml) v
        refl)
  Part-AtMostOne _ _ h (connects p v) = inl (opened-table (λ _. []) (λ t. t) p v)
  Part-AtMostOne _ _ h (meanwhile cluster lib v) = inl refl

  Parts-Makes : (v w : World env) → IsFresh v → Parts v w → Makes (table_of (memory_of w))
  Parts-Makes _ _ f (done v) = subst Makes (empty_world v f) nothing
  Parts-Makes _ _ f (part v w u ps p) =
      extended (table_of (memory_of w)) (table_of (memory_of u)) (Parts-Makes v w f ps)
        (Part-AtMostOne w u (Parts-IsOrderly v w ps (fresh-IsOrderly v f)) p)

  -- From a fresh controller, however the parts of its reconciliations and messages are interleaved,
  -- the table of connections is one that single openings, failed openings and closings make out of
  -- the empty one; so no two keys hold the same client, and each holds one that was made.
  pub interleaved-IsExclusive :
      (v w : World env)
      → IsFresh v
      → Parts v w
      → Makes (table_of (memory_of w)) × IsExclusive (table_of (memory_of w))
  interleaved-IsExclusive v w f ps =
      let m = Parts-Makes v w f ps in (m, Makes-IsExclusive (table_of (memory_of w)) m)
