-- ===== src/Monitor/Tests.antt =====
-- The theorems on operator/api/v1alpha1/collectormonitor_types.go, at small cases.
use collectorctrl_k8s_code.Common.{
  Option, none, some, List, [], ◌∷◌, ◌++◌, ◌≡◌, refl, text, ◌⊎◌, inl, inr, GoError, ok, arith,
}
use collectorctrl_k8s_code.Monitor.Memory.{
  ListObject, Memory, MetaLib, CopiesMeta, zero_monitor, list_deep_copy,
}
use collectorctrl_k8s_code.Monitor.Copies.{own_items, list_deep_copy-eq}
use collectorctrl_k8s_code.Monitor.Scheme.{Kind, GoType, SchemeLib, SchemeLaws, init_scheme}
use collectorctrl_k8s_code.Monitor.Registered.{KnowsBoth, init_scheme-KnowsBoth}

abbrev list : ListObject
list = record {
  type_meta = record { kind = text "CollectorMonitorList"; api_version = text "v1alpha1" };
  list_meta = record { resource_version = text "7" };
  items = some (record { array = 0; len = 1 });
}

abbrev memory : Memory
memory = record {
  condition_arrays = [];
  monitor_arrays = (zero_monitor ∷ zero_monitor ∷ []) ∷ [];
  monitors = [];
  lists = list ∷ [];
}

abbrev plain : MetaLib
plain = record { copy_object_meta = λ m. m; copy_list_meta = λ m. m }

plain-CopiesMeta : CopiesMeta plain
plain-CopiesMeta = record { object_meta = λ m. refl; list_meta = λ m. refl }

list_deep_copy-eq_example : list_deep_copy plain (some 0) memory ≡ (
    let (out, v) = own_items list list.items memory in
    (ok (some 1), record v { lists = memory.lists ++ out ∷ [] }))
list_deep_copy-eq_example =
    list_deep_copy-eq plain plain-CopiesMeta 0 list memory refl
      (record { cells = zero_monitor ∷ zero_monitor ∷ []; at = refl; fits = omega arith })

-- A scheme as the list of what it was told, a builder as the list of its functions, last first.
abbrev Told : Type 0
Told = List (Kind × GoType)

abbrev Makes : Type 0
Makes = Told → Option GoError × Told

abbrev after_run : Makes → Option GoError × Told → Option GoError × Told
after_run f (none, s) = f s
after_run f (some e, s) = (some e, s)

run_all : List Makes → Told → Option GoError × Told
run_all [] s = (none, s)
run_all (f ∷ fs) s = after_run f (run_all fs s)

abbrev Knows : Told → Kind → GoType → Type 0
Knows [] k g = ⊥
Knows (e ∷ s) k g = (e ≡ (k, g)) ⊎ Knows s k g

abbrev small : SchemeLib
small = record {
  Scheme = Told;
  Builder = List Makes;
  new_scheme = [];
  empty_builder = [];
  register = λ f b. f ∷ b;
  run_builder = run_all;
  add_known_type = λ k g s. (k, g) ∷ s;
  add_to_group_version = λ v s. s;
  add_client_go = λ s. (none, s);
  knows = Knows;
}

run_all-next :
    (f : Makes) (fs : List Makes) (s t : Told) → run_all fs s ≡ (none, t) → run_all (f ∷ fs) s ≡ f t
unfolding run_all
run_all-next f fs s t h = rw (h)

small-SchemeLaws : SchemeLaws small
unfolding run_all
small-SchemeLaws = record {
  empty_run = λ s. refl;
  register_run = λ f b s t h. run_all-next f b s t h;
  added = λ k g s. inl refl;
  kept = λ j k g h s known. inr known;
  versioned = λ j g v s known. known;
}

init_scheme-KnowsBoth_example : (t : Told) × (init_scheme small ≡ ok t) × KnowsBoth small t
init_scheme-KnowsBoth_example = init_scheme-KnowsBoth small small-SchemeLaws [] refl
