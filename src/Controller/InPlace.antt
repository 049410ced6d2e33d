-- ===== src/Controller/InPlace.antt =====
-- `setCondition` of operator/controllers/collectormonitor_controller.go on Go's memory: it writes to
-- the array of the conditions in place.
use collectorctrl_k8s_code.Common.{
  ℕ, suc, Option, none, some, List, [], ◌∷◌, ◌++◌, ◌==◌, if◌then◌else◌, ltb, Outcome, ok, panic,
  length, get_elem?, set,
}
use collectorctrl_k8s_code.Common.Places.{take}
use collectorctrl_k8s_code.Monitor.{Condition}
use collectorctrl_k8s_code.Monitor.Memory.{Slice, MonitorObject, Memory, contents}
use collectorctrl_k8s_code.Controller.Status.{differ}

abbrev pub next_place : Option (ℕ × Condition) → Option (ℕ × Condition)
next_place none = none
next_place (some (i, c)) = some (suc i, c)

-- The loop: the index at which it writes, and what it leaves there.
unfoldable pub find_place : Condition → List Condition → Option (ℕ × Condition)
find_place cond [] = none
find_place cond (existing ∷ rest) =
    let later = next_place (find_place cond rest) in
    if existing.type == cond.type
    then some (
      0,
      (if differ existing.status cond.status
          then cond
          else record existing { message = cond.message }),
    )
    else later

abbrev pub with_slice : Slice → MonitorObject → MonitorObject
with_slice s o = record o { status = record o.status { conditions = some s } }

abbrev pub written :
    ℕ → Condition → Option (List Condition) → ℕ → List (List Condition) → List (List Condition)
written i c none a arrays = arrays
written i c (some cells) a arrays = set arrays a (set cells i c)

-- `monitor.Status.Conditions[i] = c`
abbrev pub write_at : ℕ → Condition → Option Slice → List (List Condition) → List (List Condition)
write_at i c none arrays = arrays
write_at i c (some s) arrays = written i c (get_elem? arrays s.array) s.array arrays

-- `spare` is what lies behind the end of a new array, by the length that it is to hold.
module _ (spare : ℕ → List Condition) where
  abbrev pub append_at :
      Condition
      → Slice
      → Option (List Condition)
      → List (List Condition)
      → Slice × List (List Condition)
  append_at cond s none arrays = (s, arrays)
  append_at cond s (some cells) arrays =
      if ltb s.len (length cells)
      then (record s { len = suc s.len }, set arrays s.array (set cells s.len cond))
      else (
        record { array = length arrays; len = suc s.len },
        arrays ++ ((take s.len cells ++ cond ∷ []) ++ spare (suc s.len)) ∷ [],
      )

  -- `append(s, cond)`: in place where the array has room, or in a new array.
  unfoldable pub append :
      Condition → Option Slice → List (List Condition) → Slice × List (List Condition)
  append cond none arrays =
      (record { array = length arrays; len = 1 }, arrays ++ (cond ∷ spare 1) ∷ [])
  append cond (some s) arrays = append_at cond s (get_elem? arrays s.array) arrays

  abbrev pub put_at :
      Condition
      → MonitorObject
      → List (List Condition)
      → Option (ℕ × Condition)
      → MonitorObject × List (List Condition)
  put_at cond o arrays (some (i, c)) = (o, write_at i c o.status.conditions arrays)
  put_at cond o arrays none =
      let (s, arrays') = append cond o.status.conditions arrays in (with_slice s o, arrays')

  unfoldable pub put_in_place :
      Condition → MonitorObject → List (List Condition) → MonitorObject × List (List Condition)
  unfolding find_place append
  put_in_place cond o arrays =
      put_at cond o arrays (find_place cond (contents arrays o.status.conditions))

  abbrev pub put_found : Condition → ℕ → Option MonitorObject → Memory → Outcome (Unit {0}) × Memory
  put_found cond p none mem = (panic, mem)
  put_found cond p (some o) mem =
      let (o', arrays) = put_in_place cond o mem.condition_arrays in
      (ok tt, record mem { monitors = set mem.monitors p o'; condition_arrays = arrays })

  -- `setCondition` of the object at a place, with the condition that it has made.
  unfoldable pub set_condition_at : Condition → ℕ → Memory → Outcome (Unit {0}) × Memory
  unfolding put_in_place
  set_condition_at cond p mem = put_found cond p (get_elem? mem.monitors p) mem
