-- ===== src/Validator/Names.antt =====
-- Component names, and when internal/validator/otel.go warns.
use mathlib.Core.Option.{some-injective}
use collectorctrl_k8s_code.Common.{
  Bool, true, false, some, List, [], ◌++◌, ◌≡◌, ◌↔◌, refl, sym, ap, ◌∙◌, inl, inr, Text, text,
  Assoc, gather, All, All-map, arith, Option-cases, append-eq-nil_iff, gather_in-eq-nil_iff,
  gather-eq-nil_iff, lookup_or, subst,
}
use collectorctrl_k8s_code.Common.Cut.{Lacks, split-head, split_whole}
use collectorctrl_k8s_code.Validator.Values.{Yaml, as_map, as_string}
use collectorctrl_k8s_code.Validator.{
  Report, component_name, first_part, is_known, pipeline_stages, component_sections, sub_list,
  sub_map, pipelines, validate_root,
}
use collectorctrl_k8s_code.Validator.Collected.{
  extend, reference_warning, stage_warnings, pipeline_warnings, component_warning, section_warnings,
  document_warnings, validate_root-collects,
}

component_name-variant :
    (base variant : Text) → Lacks b'/' base → component_name (base ++ (text "/" ++ variant)) ≡ base
unfolding component_name text
component_name-variant base variant h =
    let (rest, e) = split-head b'/' [] base variant h in ap first_part e

component_name_plain : (base : Text) → Lacks b'/' base → component_name base ≡ base
unfolding component_name text
component_name_plain base h = ap first_part (split_whole b'/' [] base h)

-- A named variant such as `otlp/2` is known exactly if its base name, which holds no slash, is.
pub is_known-variant :
    (known : Assoc Bool) (base variant : Text)
    → Lacks b'/' base
    → is_known known (base ++ (text "/" ++ variant)) ≡ is_known known base
unfolding is_known
is_known-variant known base variant h =
    ap (λ (name : Text). lookup_or false name known)
      (component_name-variant base variant h ∙ sym (component_name_plain base h))

module _ (known : Assoc Bool) where
  abbrev pub IsKnownItem : Yaml → Type 0
  IsKnownItem x = (name : Text) → as_string x ≡ some name → is_known known name ≡ true

  abbrev pub HasKnownItems : Assoc Yaml → Text → Type 0
  HasKnownItems p stage =
      (items : List Yaml) → sub_list stage p ≡ some items → All IsKnownItem items

  abbrev pub IsKnownPipeline : Text × Yaml → Type 0
  IsKnownPipeline q = (p : Assoc Yaml) → as_map q.1 ≡ some p → All (HasKnownItems p) pipeline_stages

  abbrev pub HasKnownComponents : Assoc Yaml → Text → Type 0
  HasKnownComponents root section =
      (components : Assoc Yaml)
      → sub_map section root ≡ some components
      → All (λ c. is_known known c.0 ≡ true) components

  -- Every component that a pipeline names or a section declares is in the registry.
  pub record IsAllKnown (root : Assoc Yaml) : Type 0 where
    pub referenced : All IsKnownPipeline (pipelines root)
    pub declared : All (HasKnownComponents root) component_sections

module _ (known : Assoc Bool) where
  reference_warning-nil_iff : (x : Yaml) → (reference_warning known x ≡ []) ↔ IsKnownItem known x
  reference_warning-nil_iff x = elim (Option-cases (as_string x)) [
    | inl e ↦ ((λ h name q. cc), (λ h. ground arith))
    | inr (name, e) ↦ ((λ h other q. ground arith), (λ h. ground (arith, h name)))
  ]

  stage_warnings-nil_iff :
      (p : Assoc Yaml) (stage : Text)
      → (stage_warnings known p stage ≡ []) ↔ HasKnownItems known p stage
  stage_warnings-nil_iff p stage =
      let whole = gather_in-eq-nil_iff (reference_warning known) (sub_list stage p) in
      (
        (λ h items q. All-map (λ x. (reference_warning-nil_iff x).0) items (whole.0 h items q)),
        (λ h.
            whole.1 (λ items q. All-map (λ x. (reference_warning-nil_iff x).1) items (h items q))),
      )

  pipeline_warnings-nil_iff :
      (q : Text × Yaml) → (pipeline_warnings known q ≡ []) ↔ IsKnownPipeline known q
  pipeline_warnings-nil_iff (name, v) = elim (Option-cases (as_map v)) [
    | inl e ↦ ((λ h p q. cc), (λ h. ground arith))
    | inr (stages, e) ↦
        rw (e, pipeline_warnings)
          (let whole = gather-eq-nil_iff (stage_warnings known stages) pipeline_stages in
            (
              (λ h p q.
                  subst (λ m. All (HasKnownItems known m) pipeline_stages)
                    (some-injective stages p q)
                    (All-map (λ s. (stage_warnings-nil_iff stages s).0) pipeline_stages
                      (whole.0 h))),
              (λ h. whole.1 (
                  All-map (λ s. (stage_warnings-nil_iff stages s).1) pipeline_stages
                    (h stages refl))),
            ))
  ]

  section_warnings-nil_iff :
      (root : Assoc Yaml) (section : Text)
      → (section_warnings known root section ≡ []) ↔ HasKnownComponents known root section
  section_warnings-nil_iff root section =
      let whole = gather_in-eq-nil_iff (component_warning known section) (sub_map section root) in
      let one : (c : Text × Yaml)
          → (component_warning known section c ≡ []) ↔ (is_known known c.0 ≡ true) =
        λ c. ((λ h. ground arith), (λ h. ground arith)) in
      (
        (λ h cs q. All-map (λ c. (one c).0) cs (whole.0 h cs q)),
        (λ h. whole.1 (λ cs q. All-map (λ c. (one c).1) cs (h cs q))),
      )

  document_warnings-nil_iff :
      (root : Assoc Yaml) → (document_warnings known root ≡ []) ↔ IsAllKnown known root
  unfolding document_warnings
  document_warnings-nil_iff root =
      let split =
        append-eq-nil_iff (gather (pipeline_warnings known) (pipelines root))
          (gather (section_warnings known root) component_sections) in
      let uses = gather-eq-nil_iff (pipeline_warnings known) (pipelines root) in
      let declares = gather-eq-nil_iff (section_warnings known root) component_sections in
      (
        (λ h. record {
          referenced =
              All-map (λ q. (pipeline_warnings-nil_iff q).0) (pipelines root)
                (uses.0 (split.0 h).0);
          declared =
              All-map (λ s. (section_warnings-nil_iff root s).0) component_sections
                (declares.0 (split.0 h).1);
        }),
        (λ h. split.1 (
          uses.1 (All-map (λ q. (pipeline_warnings-nil_iff q).1) (pipelines root) h.referenced),
          declares.1
              (All-map (λ s. (section_warnings-nil_iff root s).1) component_sections h.declared),
        )),
      )

  -- A document that decodes is reported without a warning exactly if every component that a
  -- pipeline names or a section declares is in the registry.
  pub validate_root-IsAllKnown :
      (sections : Assoc Bool) (root : Assoc Yaml)
      → ((validate_root known sections root).warnings ≡ []) ↔ IsAllKnown known root
  unfolding extend
  validate_root-IsAllKnown sections root =
      rw (ap (λ (r : Report). r.warnings) (validate_root-collects known sections root))
        (document_warnings-nil_iff root)
