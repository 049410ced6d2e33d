-- ===== src/Controller/Sharing.antt =====
-- `setCondition` of operator/controllers/collectormonitor_controller.go in place does to an object
-- what it is meant to do, and what it does to the object that this one was copied from.
use mathlib.Core.Path.{ap₂}
use collectorctrl_k8s_code.Common.{
  ℕ, suc, Bool, true, false, Option, none, some, List, [], ◌∷◌, ◌++◌, ◌==◌, if◌then◌else◌, ltb, ◌≡◌,
  refl, ap, sym, ◌∙◌, subst, inl, inr, arith, Text, ok, length, get_elem?, set, Bool-cases,
}
use collectorctrl_k8s_code.Common.Places.{
  take-set, take-set_end, take-set_next, take-append, take, length-take, length-snoc,
  get_elem?-last, set-last, get_elem?-append, get_elem?-set_same,
}
use collectorctrl_k8s_code.Monitor.{Condition, CollectorMonitor}
use collectorctrl_k8s_code.Monitor.Memory.{
  MetaLib, CopiesMeta, deep_copy, Slice, MonitorObject, Memory, contents, value_of,
}
use collectorctrl_k8s_code.Monitor.Copies.{deep_copy-eq, IsSlice}
use collectorctrl_k8s_code.Controller.Status.{put_condition, with_conditions, differ}
use collectorctrl_k8s_code.Controller.InPlace.{
  find_place, append, append_at, put_in_place, set_condition_at, next_place, write_at, put_at,
}

-- The write that the loop finds, on the values.
abbrev placed : Condition → List Condition → Option (ℕ × Condition) → List Condition
placed cond cs none = cs ++ cond ∷ []
placed cond cs (some (i, c)) = set cs i c

placed-next :
    (cond : Condition) (x : Condition) (cs : List Condition) (found : Option (ℕ × Condition))
    → placed cond (x ∷ cs) (next_place found) ≡ x ∷ placed cond cs found
placed-next cond x cs none = refl
placed-next cond x cs (some (i, c)) = refl

put_condition-placed :
    (cond : Condition) (cs : List Condition)
    → put_condition cond cs ≡ placed cond cs (find_place cond cs)
unfolding put_condition find_place
put_condition-placed cond [] = refl
put_condition-placed cond (x ∷ cs) = elim (Bool-cases (x.type == cond.type)) [
  | inl b ↦ elim (Bool-cases (differ x.status cond.status)) [
    | inl d ↦ rw (b, d)
    | inr d ↦ rw (b, d)
  ]
  | inr b ↦ rw (b, put_condition-placed cond cs, placed-next cond x cs (find_place cond cs))
]

-- The loop writes.
abbrev pub has_place : Option (ℕ × Condition) → Bool
has_place none = false
has_place (some p) = true

-- There is a condition of the type.
pub has_type : Text → List Condition → Bool
has_type ctype [] = false
has_type ctype (c ∷ cs) = if c.type == ctype then true else has_type ctype cs

has_place-next : (found : Option (ℕ × Condition)) → has_place (next_place found) ≡ has_place found
has_place-next none = refl
has_place-next (some (i, c)) = refl

has_place-find :
    (cond : Condition) (cs : List Condition)
    → has_place (find_place cond cs) ≡ has_type cond.type cs
unfolding find_place has_type
has_place-find cond [] = refl
has_place-find cond (x ∷ cs) = elim (Bool-cases (x.type == cond.type)) [
  | inl b ↦ rw (b)
  | inr b ↦ rw (b, has_place-next (find_place cond cs), has_place-find cond cs)
]

changed_if :
    (b : Bool) (f : List Condition → List Condition) (m : CollectorMonitor)
    → with_conditions (λ cs. if b then f cs else cs) m ≡ (if b then with_conditions f m else m)
changed_if true f m = refl
changed_if false f m = refl

-- A slice of conditions, or nil.
abbrev pub IsConditions : List (List Condition) → Option Slice → Type 0
IsConditions arrays none = Unit
IsConditions arrays (some s) = IsSlice arrays s

written-contents :
    (arrays : List (List Condition)) (s : Slice) (i : ℕ) (c : Condition)
    → IsSlice arrays s
    → contents (write_at i c (some s) arrays) (some s) ≡ set (contents arrays (some s)) i c
written-contents arrays s i c h = rw (
  h.at,
  get_elem?-set_same arrays s.array h.cells (set h.cells i c) h.at,
  take-set s.len h.cells i c,
)

write_at-contents :
    (arrays : List (List Condition)) (slice : Option Slice) (i : ℕ) (c : Condition)
    → IsConditions arrays slice
    → contents (write_at i c slice arrays) slice ≡ set (contents arrays slice) i c
write_at-contents arrays none i c h = refl
write_at-contents arrays (some s) i c h = written-contents arrays s i c h

module _ (spare : ℕ → List Condition) (cond : Condition) (arrays : List (List Condition)) where
  abbrev grown : (s : Slice) → IsSlice arrays s → List Condition
  grown s h = (take s.len h.cells ++ cond ∷ []) ++ spare (suc s.len)

  grown-contents :
      (s : Slice) (h : IsSlice arrays s)
      → take (suc s.len) ((take s.len h.cells ++ cond ∷ []) ++ spare (suc s.len))
        ≡ take s.len h.cells ++ cond ∷ []
  grown-contents s h =
      subst
        (λ n.
          take n ((take s.len h.cells ++ cond ∷ []) ++ spare (suc s.len))
          ≡ take s.len h.cells ++ cond ∷ [])
        (length-snoc (take s.len h.cells) cond ∙ ap suc (length-take s.len h.cells h.fits))
        (take-append (take s.len h.cells ++ cond ∷ []) (spare (suc s.len)))

  append_at-contents :
      (s : Slice) (h : IsSlice arrays s)
      → (let (s', arrays') = append_at spare cond s (some h.cells) arrays in
          (contents arrays' (some s') ≡ take s.len h.cells ++ cond ∷ [])
          × (contents arrays' (some s) ≡ take s.len h.cells))
  append_at-contents s h = elim (Bool-cases (ltb s.len (length h.cells))) [
    | inl b ↦ (
      rw (
        b,
        get_elem?-set_same arrays s.array h.cells (set h.cells s.len cond) h.at,
        take-set_next s.len h.cells cond (ground arith),
      ),
      rw (
        b,
        get_elem?-set_same arrays s.array h.cells (set h.cells s.len cond) h.at,
        take-set_end s.len h.cells cond,
      ),
    )
    | inr b ↦ (
      rw (b, get_elem?-last arrays (grown s h)) (grown-contents s h),
      rw (b, get_elem?-append arrays (grown s h ∷ []) s.array h.cells h.at),
    )
  ]

  -- The new slice ends in the condition, the old one reads as before.
  append-contents :
      (slice : Option Slice)
      → IsConditions arrays slice
      → (let (s', arrays') = append spare cond slice arrays in
          (contents arrays' (some s') ≡ contents arrays slice ++ cond ∷ [])
          × (contents arrays' slice ≡ contents arrays slice))
  unfolding append
  append-contents none h = (rw (get_elem?-last arrays (cond ∷ spare 1)), refl)
  append-contents (some s) h = rw (h.at) (append_at-contents s h)

  put_at-contents :
      (o : MonitorObject) (found : Option (ℕ × Condition))
      → IsConditions arrays o.status.conditions
      → (let (o', arrays') = put_at spare cond o arrays found in
          let before = contents arrays o.status.conditions in
          (contents arrays' o'.status.conditions ≡ placed cond before found)
          × (contents arrays' o.status.conditions
              ≡ (if has_place found then placed cond before found else before)))
  put_at-contents o none h = append-contents o.status.conditions h
  put_at-contents o (some (i, c)) h =
      let e = write_at-contents arrays o.status.conditions i c h in (e, e)

  put_at-value :
      (o : MonitorObject) (found : Option (ℕ × Condition))
      → (let (o', arrays') = put_at spare cond o arrays found in
          value_of arrays' o'
          ≡ with_conditions (λ _. contents arrays' o'.status.conditions) (value_of arrays o))
  unfolding value_of
  put_at-value o none = refl
  put_at-value o (some (i, c)) = refl

  -- In place, the object gets the conditions that it is meant to get. An object with the same slice
  -- gets them too if there was a condition of the type, and keeps its own otherwise.
  put_in_place-value :
      (o : MonitorObject)
      → IsConditions arrays o.status.conditions
      → (let (o', arrays') = put_in_place spare cond o arrays in
          (value_of arrays' o' ≡ with_conditions (put_condition cond) (value_of arrays o))
          × (value_of arrays' o ≡ (
              if has_type cond.type (contents arrays o.status.conditions)
              then with_conditions (put_condition cond) (value_of arrays o)
              else value_of arrays o)))
  unfolding put_in_place value_of
  put_in_place-value o h =
      let before = contents arrays o.status.conditions in
      let found = find_place cond before in
      let (o', arrays') = put_at spare cond o arrays found in
      let (new, old) = put_at-contents o found h in
      (
        put_at-value o found
            ∙ ap (λ cs. with_conditions (λ _. cs) (value_of arrays o))
                (new ∙ sym (put_condition-placed cond before)),
        ap (λ cs. with_conditions (λ _. cs) (value_of arrays o))
              (old
                ∙ ap₂ (λ b cs. if b then cs else before) (has_place-find cond before)
                    (sym (put_condition-placed cond before)))
            ∙ changed_if (has_type cond.type before) (put_condition cond) (value_of arrays o),
      )

module _ (spare : ℕ → List Condition) (lib : MetaLib) (copies : CopiesMeta lib) where
  -- The copy q of an object p takes a condition as it is meant to. But the copy shares its array
  -- with p: if p had a condition of that type, p gets the new one too, through no write to p.
  pub copy_shares :
      (cond : Condition) (p : ℕ) (from : MonitorObject) (mem : Memory)
      → get_elem? mem.monitors p ≡ some from
      → IsConditions mem.condition_arrays from.status.conditions
      → (let q = length mem.monitors in
          let v = (deep_copy lib (some p) mem).1 in
          let (r, u) = set_condition_at spare cond q v in
          let before = value_of mem.condition_arrays from in
          (r ≡ ok tt)
          × (copy : MonitorObject) × (get_elem? u.monitors q ≡ some copy)
          × (value_of u.condition_arrays copy ≡ with_conditions (put_condition cond) before)
          × (get_elem? u.monitors p ≡ some from)
          × (value_of u.condition_arrays from ≡ (
              if has_type cond.type before.status.conditions
              then with_conditions (put_condition cond) before
              else before)))
  unfolding set_condition_at value_of
  copy_shares cond p from mem at h =
      let arrays = mem.condition_arrays in
      let (o', arrays') = put_in_place spare cond from arrays in
      let (new, old) = put_in_place-value spare cond arrays from h in
      rw
        (
          deep_copy-eq lib copies p from mem at,
          get_elem?-last mem.monitors from,
          set-last mem.monitors from o',
        )
        (
          refl,
          o',
          get_elem?-last mem.monitors o',
          new,
          get_elem?-append mem.monitors (o' ∷ []) p from at,
          old,
        )
