-- ===== src/Validator/Collected.antt =====
-- What a validation run collects, as lists that are computed from the parsed document alone; the
-- loops of internal/validator/otel.go append them to the report that they are handed.
use mathlib.Core.List.{foldl, append_assoc, append-nil}
use collectorctrl_k8s_code.Common.{
  ℕ, suc, Bool, false, Option, none, some, List, [], ◌∷◌, ◌++◌, ◌≡◌, refl, sym, ap, ◌∙◌, Text, text,
  ◌==◌, if◌then◌else◌, Assoc, lookup, gather, gather_in, gather-nil, arith,
}
use collectorctrl_k8s_code.Validator.Values.{Yaml, as_map, as_string}
use collectorctrl_k8s_code.Validator.{
  ConfigError, Report, add_error, add_warning, missing_section, invalid_pipeline, invalid_stage,
  invalid_name, unknown_reference, unknown_component, component_name, pipeline_stages,
  component_sections, sub_map, sub_list, is_known, check_item, check_items, check_stage,
  check_section, check_pipeline, pipelines, check_component, check_components, empty_report,
  validate_root,
}

-- A report is valid until an error is added.
abbrev pub still_valid : Bool → List ConfigError → Bool
still_valid v [] = v
still_valid v (_ ∷ _) = false

-- A report with errors and warnings appended.
unfoldable pub extend : Report → List ConfigError → List Text → Report
extend r es ws = record {
  valid = still_valid r.valid es;
  errors = r.errors ++ es;
  warnings = r.warnings ++ ws;
}

still_valid-append :
    (v : Bool) (es fs : List ConfigError)
    → still_valid (still_valid v es) fs ≡ still_valid v (es ++ fs)
still_valid-append v [] fs = refl
still_valid-append v (e ∷ es) [] = refl
still_valid-append v (e ∷ es) (f ∷ fs) = refl

extend-extend :
    (r : Report) (es fs : List ConfigError) (ws us : List Text)
    → extend (extend r es ws) fs us ≡ extend r (es ++ fs) (ws ++ us)
unfolding extend
extend-extend r es fs ws us = λ i. record {
  valid = still_valid-append r.valid es fs i;
  errors = append_assoc r.errors es fs i;
  warnings = append_assoc r.warnings ws us i;
}

extend-nil : (r : Report) → extend r [] [] ≡ r
unfolding extend
extend-nil r = λ i. record {
  valid = r.valid;
  errors = append-nil r.errors i;
  warnings = append-nil r.warnings i;
}

add_error-extend : (r : Report) (e : ConfigError) → add_error r e ≡ extend r (e ∷ []) []
unfolding add_error extend
add_error-extend r e = λ i. record {
  valid = false;
  errors = r.errors ++ (e ∷ []);
  warnings = sym (append-nil r.warnings) i;
}

add_warning-extend : (r : Report) (w : Text) → add_warning r w ≡ extend r [] (w ∷ [])
unfolding add_warning extend
add_warning-extend r w = λ i. record {
  valid = r.valid;
  errors = sym (append-nil r.errors) i;
  warnings = r.warnings ++ (w ∷ []);
}

-- A loop each of whose rounds appends to the report appends what the rounds collect.
foldl-extend {ℓ} :
    {A : Type ℓ} (round : Report → A → Report) (es : A → List ConfigError) (ws : A → List Text)
    → ((r : Report) (a : A) → round r a ≡ extend r (es a) (ws a))
    → (r : Report) (l : List A) → foldl round r l ≡ extend r (gather es l) (gather ws l)
foldl-extend round es ws h r [] = sym (extend-nil r)
foldl-extend round es ws h r (a ∷ l) =
    ap (λ (s : Report). foldl round s l) (h r a)
    ∙ foldl-extend round es ws h (extend r (es a) (ws a)) l
    ∙ extend-extend r (es a) (gather es l) (ws a) (gather ws l)

-- The errors of a document.
abbrev pub item_error : Text → Text → ℕ → Yaml → List ConfigError
item_error path stage i x = elim (as_string x) [
  | none ↦ invalid_name path stage i ∷ []
  | some name ↦ []
]

abbrev pub item_errors : Text → Text → ℕ → List Yaml → List ConfigError
item_errors path stage i [] = []
item_errors path stage i (x ∷ xs) = item_error path stage i x ++ item_errors path stage (suc i) xs

-- The errors of a stage, by what stands under its key: a list, or something else or nothing.
abbrev pub stage_errors_in : Text → Text → Option (List Yaml) → List ConfigError
stage_errors_in path stage none =
    if stage == text "processors" then [] else invalid_stage path stage ∷ []
stage_errors_in path stage (some items) = item_errors path stage 0 items

abbrev pub stage_errors : Text → Assoc Yaml → Text → List ConfigError
stage_errors path p stage = stage_errors_in path stage (sub_list stage p)

abbrev pub pipeline_errors : Text × Yaml → List ConfigError
pipeline_errors (name, pipeline) =
    let path = text "service.pipelines." ++ name in
    elim (as_map pipeline) [
      | none ↦ invalid_pipeline path ∷ []
      | some p ↦ gather (stage_errors path p) pipeline_stages
    ]

abbrev pub section_errors : Assoc Yaml → Text × Bool → List ConfigError
section_errors root (section, required) = elim (lookup section root) [
  | none ↦ if required then missing_section section ∷ [] else []
  | some v ↦ []
]

unfoldable pub document_errors : Assoc Bool → Assoc Yaml → List ConfigError
document_errors sections root =
    gather (section_errors root) sections ++ gather pipeline_errors (pipelines root)

-- The warnings of a document.
module _ (known : Assoc Bool) where
  abbrev pub reference_warning : Yaml → List Text
  reference_warning x = elim (as_string x) [
    | none ↦ []
    | some name ↦ if is_known known name then [] else unknown_reference (component_name name) ∷ []
  ]

  abbrev pub stage_warnings : Assoc Yaml → Text → List Text
  stage_warnings p stage = gather_in reference_warning (sub_list stage p)

  abbrev pub pipeline_warnings : Text × Yaml → List Text
  pipeline_warnings (name, pipeline) = elim (as_map pipeline) [
    | none ↦ []
    | some p ↦ gather (stage_warnings p) pipeline_stages
  ]

  abbrev pub component_warning : Text → Text × Yaml → List Text
  component_warning section (name, _) =
      if is_known known name then [] else unknown_component section (component_name name) ∷ []

  abbrev pub section_warnings : Assoc Yaml → Text → List Text
  section_warnings root section = gather_in (component_warning section) (sub_map section root)

  unfoldable pub document_warnings : Assoc Yaml → List Text
  document_warnings root =
      gather pipeline_warnings (pipelines root) ++ gather (section_warnings root) component_sections

  check_item-extend :
      (path stage : Text) (i : ℕ) (r : Report) (x : Yaml)
      → check_item known path stage i r x
        ≡ extend r (item_error path stage i x) (reference_warning x)
  unfolding check_item
  check_item-extend path stage i r x =
      grind (arith, add_error-extend, add_warning-extend, extend-nil)

  check_items-extend :
      (path stage : Text) (i : ℕ) (r : Report) (xs : List Yaml)
      → check_items known path stage i r xs
        ≡ extend r (item_errors path stage i xs) (gather reference_warning xs)
  unfolding check_items
  check_items-extend path stage i r [] = sym (extend-nil r)
  check_items-extend path stage i r (x ∷ xs) =
      ap (λ (s : Report). check_items known path stage (suc i) s xs)
        (check_item-extend path stage i r x)
      ∙ check_items-extend path stage (suc i) _ xs
      ∙ extend-extend r (item_error path stage i x) (item_errors path stage (suc i) xs)
          (reference_warning x) (gather reference_warning xs)

  check_stage-extend :
      (path : Text) (p : Assoc Yaml) (r : Report) (stage : Text)
      → check_stage known path p r stage
        ≡ extend r (stage_errors path p stage) (stage_warnings p stage)
  unfolding check_stage
  check_stage-extend path p r stage =
      grind (arith, add_error-extend, extend-nil, check_items-extend)

  check_pipeline-extend :
      (r : Report) (p : Text × Yaml)
      → check_pipeline known r p ≡ extend r (pipeline_errors p) (pipeline_warnings p)
  unfolding check_pipeline
  check_pipeline-extend r (name, pipeline) =
      let path = text "service.pipelines." ++ name in
      grind (
        arith,
        add_error-extend,
        λ (p : Assoc Yaml).
            foldl-extend (check_stage known path p) (stage_errors path p) (stage_warnings p)
              (check_stage-extend path p) r pipeline_stages,
      )

  check_section-extend :
      (root : Assoc Yaml) (r : Report) (s : Text × Bool)
      → check_section root r s ≡ extend r (section_errors root s) []
  unfolding check_section
  check_section-extend root r s = grind (arith, add_error-extend, extend-nil)

  check_component-extend :
      (section : Text) (r : Report) (c : Text × Yaml)
      → check_component known section r c ≡ extend r [] (component_warning section c)
  unfolding check_component
  check_component-extend section r c = grind (arith, add_warning-extend, extend-nil)

  check_components-extend :
      (root : Assoc Yaml) (r : Report) (section : Text)
      → check_components known root r section ≡ extend r [] (section_warnings root section)
  unfolding check_components
  check_components-extend root r section = grind (
    arith,
    extend-nil,
    gather-nil {A = Text × Yaml} {B = ConfigError},
    λ (cs : Assoc Yaml).
        foldl-extend (check_component known section) (λ _. []) (component_warning section)
          (check_component-extend section) r cs,
  )

  -- Steps 2 to 4 collect exactly the errors and the warnings of the document, in that order.
  pub validate_root-collects :
      (sections : Assoc Bool) (root : Assoc Yaml)
      → validate_root known sections root
        ≡ extend empty_report (document_errors sections root) (document_warnings root)
  unfolding validate_root document_errors document_warnings
  validate_root-collects sections root =
      rw
        (
          foldl-extend (check_section root) (section_errors root) (λ _. [])
              (check_section-extend root),
          gather-nil,
          foldl-extend (check_pipeline known) pipeline_errors pipeline_warnings
              check_pipeline-extend,
          extend-extend,
        )
        (foldl-extend (check_components known root) (λ _. []) (section_warnings root)
            (check_components-extend root) _ component_sections
          ∙ extend-extend empty_report _ [] _ _
          ∙ ap (λ (es : List ConfigError). extend empty_report es (document_warnings root))
              (append-nil (document_errors sections root)))
