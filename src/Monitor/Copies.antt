-- ===== src/Monitor/Copies.antt =====
-- What the copies of operator/api/v1alpha1/collectormonitor_types.go hold.
use collectorctrl_k8s_code.Common.{
  ℕ, Option, none, some, List, [], ◌∷◌, ◌++◌, ◌≡◌, ◌≤◌, refl, ap, sym, ◌∙◌, subst, ok, arith,
  length, get_elem?, set,
}
use collectorctrl_k8s_code.Common.Places.{
  take, length-take, get_elem?-append, get_elem?-set_other, get_elem?-lt_length,
}
use collectorctrl_k8s_code.Monitor.Memory.{
  Slice, MonitorObject, ListObject, Memory, MetaLib, CopiesMeta, contents, zero_monitor, zero_list,
  make_items, copy_into, copy_items, deep_copy, list_copy_into, list_deep_copy,
}

-- A slice that the run-time system makes: its array is there, and is long enough.
pub record IsSlice {A : Type 0} (arrays : List (List A)) (s : Slice) : Type 0 where
  pub cells : List A
  pub at : get_elem? arrays s.array ≡ some cells
  pub fits : s.len ≤ length cells

module _ {A : Type 0} where
  pub contents-at :
      (arrays : List (List A)) (s : Slice) (cells : List A)
      → get_elem? arrays s.array ≡ some cells
      → contents arrays (some s) ≡ take s.len cells
  contents-at arrays s cells h = rw (h)

module _ (lib : MetaLib) (copies : CopiesMeta lib) where
  copy_into-eq : (from out : MonitorObject) → copy_into lib from out ≡ from
  unfolding copy_into
  copy_into-eq from out = rw (copies.object_meta from.object_meta)

  copy_items-eq :
      (from : List MonitorObject) → copy_items lib from (make_items (length from)) ≡ from
  unfolding copy_items make_items
  copy_items-eq [] = refl
  copy_items-eq (o ∷ os) = rw (copy_into-eq o zero_monitor, copy_items-eq os)

  -- The copy of an object is a new object, with the fields of the old one: its conditions are the
  -- same slice of the same array. All that was in memory stays.
  pub deep_copy-eq :
      (p : ℕ) (from : MonitorObject) (mem : Memory)
      → get_elem? mem.monitors p ≡ some from
      → deep_copy lib (some p) mem
        ≡ (ok (some (length mem.monitors)), record mem { monitors = mem.monitors ++ from ∷ [] })
  unfolding deep_copy
  deep_copy-eq p from mem h = rw (h, copy_into-eq from zero_monitor)

-- The items of a list, if they are not nil, are a slice.
abbrev pub IsItems : List (List MonitorObject) → Option Slice → Type 0
IsItems arrays none = Unit
IsItems arrays (some s) = IsSlice arrays s

-- The list that is meant: nil items are nil, others get an array of their own.
abbrev pub own_items : ListObject → Option Slice → Memory → ListObject × Memory
own_items from none mem = (record from { items = none }, mem)
own_items from (some s) mem = (
  record from { items = some (record { array = length mem.monitor_arrays; len = s.len }) },
  record mem { monitor_arrays = mem.monitor_arrays ++ contents mem.monitor_arrays (some s) ∷ [] },
)

module _ (lib : MetaLib) (copies : CopiesMeta lib) where
  slice_items-eq :
      (mem : Memory) (s : Slice)
      → IsSlice mem.monitor_arrays s
      → copy_items lib (contents mem.monitor_arrays (some s)) (make_items s.len)
        ≡ contents mem.monitor_arrays (some s)
  slice_items-eq mem s h =
      let at = contents-at mem.monitor_arrays s h.cells h.at in
      let long = ap length at ∙ length-take s.len h.cells h.fits in
      subst
        (λ n.
          copy_items lib (contents mem.monitor_arrays (some s)) (make_items n)
          ≡ contents mem.monitor_arrays (some s))
        long (copy_items-eq lib copies (contents mem.monitor_arrays (some s)))

  pub list_copy_into-eq :
      (from : ListObject) (mem : Memory) (items : Option Slice)
      → from.items ≡ items
      → IsItems mem.monitor_arrays items
      → list_copy_into lib from zero_list mem ≡ own_items from items mem
  unfolding list_copy_into
  list_copy_into-eq from mem none e h = rw (e, copies.list_meta from.list_meta)
  list_copy_into-eq from mem (some s) e h =
      rw (e, copies.list_meta from.list_meta, slice_items-eq mem s h)

  own_items-new :
      (from : ListObject) (items : Option Slice) (mem : Memory)
      → (own_items from items mem).1.lists ≡ mem.lists
  own_items-new from none mem = refl
  own_items-new from (some s) mem = refl

  -- The copy of a list whose items are a slice of memory, or nil, is a new list with the same
  -- metadata and nil items if they were nil; otherwise its items are those of the old list, in an
  -- array of their own, which no object of memory knew before.
  pub list_deep_copy-eq :
      (p : ℕ) (from : ListObject) (mem : Memory)
      → get_elem? mem.lists p ≡ some from
      → IsItems mem.monitor_arrays from.items
      → list_deep_copy lib (some p) mem ≡ (
          let (out, v) = own_items from from.items mem in
          (ok (some (length mem.lists)), record v { lists = mem.lists ++ out ∷ [] }))
  unfolding list_deep_copy
  list_deep_copy-eq p from mem h items =
      rw (h, list_copy_into-eq from mem from.items refl items, own_items-new from from.items mem)

  -- Whatever is written to the new array, the slices that were there before hold what they held.
  pub fresh_array-contents :
      (arrays : List (List MonitorObject)) (new written : List MonitorObject) (s : Slice)
      → IsSlice arrays s
      → contents (set (arrays ++ new ∷ []) (length arrays) written) (some s)
        ≡ contents arrays (some s)
  fresh_array-contents arrays new written s h =
      contents-at (set (arrays ++ new ∷ []) (length arrays) written) s h.cells (
        get_elem?-set_other (arrays ++ new ∷ []) (length arrays) s.array written
          (λ e. absurd (omega (arith, get_elem?-lt_length arrays s.array h.cells h.at)))
        ∙ get_elem?-append arrays (new ∷ []) s.array h.cells h.at)
      ∙ sym (contents-at arrays s h.cells h.at)
