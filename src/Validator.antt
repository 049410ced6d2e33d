-- ===== src/Validator.antt =====
-- internal/validator/otel.go: the pre-flight check of an OpenTelemetry Collector configuration.
-- `yaml.Unmarshal` and the order in which the section table is visited are parameters.
pub mod Values
pub mod Registry
pub mod Collected
pub mod Names
pub mod Codes
mod Tests
pub mod Verdict
pub mod Order
use mathlib.Core.List.{foldl}
use collectorctrl_k8s_code.Common.{
  ℕ, suc, Bool, true, false, Option, none, some, List, [], ◌∷◌, ◌++◌, ◌⊎◌, inl, inr, Text, text,
  ◌==◌, split, show_nat, if◌then◌else◌, Assoc, lookup, lookup_or, GoError,
}
use collectorctrl_k8s_code.Validator.Values.{Yaml, as_map, as_seq, as_string}

-- A structured validation error.
pub record ConfigError : Type 0 where
  pub path : Text
  pub message : Text
  pub code : Text

-- The outcome of a validation run (`Result` in the source).
pub record Report : Type 0 where
  pub valid : Bool
  pub errors : List ConfigError
  pub warnings : List Text

-- `result.Valid = false` and `result.Errors = append(result.Errors, e)`
unfoldable pub add_error : Report → ConfigError → Report
add_error r e = record r { valid = false; errors = r.errors ++ (e ∷ []) }

unfoldable pub add_warning : Report → Text → Report
add_warning r w = record r { warnings = r.warnings ++ (w ∷ []) }

abbrev pub first_part : List Text → Text
first_part [] = []
first_part (part ∷ _) = part

-- `strings.Split(name, "/")[0]`
unfoldable pub component_name : Text → Text
component_name name = first_part (split (text "/") name)

-- The dotted path of what stands below a place of the configuration.
unfoldable pub below : Text → Text → Text
below path key = path ++ (text "." ++ key)

abbrev pub yaml_parse_error : GoError → ConfigError
yaml_parse_error e = record {
  path = [];
  message = text "YAML parse error: " ++ e.message;
  code = text "YAML_PARSE_ERROR";
}

abbrev pub missing_section : Text → ConfigError
missing_section section = record {
  path = section;
  message = text "missing required section: " ++ section;
  code = text "MISSING_SECTION";
}

abbrev pub invalid_pipeline : Text → ConfigError
invalid_pipeline path = record {
  path = path;
  message = text "pipeline must be a map";
  code = text "INVALID_PIPELINE_TYPE";
}

abbrev pub invalid_stage : Text → Text → ConfigError
invalid_stage path stage = record {
  path = below path stage;
  message = stage ++ text " must be a list";
  code = text "INVALID_STAGE_TYPE";
}

abbrev pub invalid_name : Text → Text → ℕ → ConfigError
invalid_name path stage i = record {
  path = below (below path stage) (show_nat i);
  message = text "component name must be a string";
  code = text "INVALID_COMPONENT_NAME";
}

abbrev pub unknown_reference : Text → Text
unknown_reference name = text "Unknown component referenced in pipeline: " ++ name

abbrev pub unknown_component : Text → Text → Text
unknown_component section name = text "Unknown component in " ++ (section ++ (text ": " ++ name))

abbrev pub pipeline_stages : List Text
pipeline_stages = text "receivers" ∷ text "processors" ∷ text "exporters" ∷ []

abbrev pub component_sections : List Text
component_sections =
    text "receivers" ∷ text "processors" ∷ text "exporters" ∷ text "extensions" ∷ []

-- The table of the top-level sections, true where one is required, in the order of the source.
abbrev pub section_table : Assoc Bool
section_table =
    (text "receivers", true)
    ∷ (text "exporters", true)
    ∷ (text "service", true)
    ∷ (text "processors", false)
    ∷ (text "extensions", false)
    ∷ []

-- `m[key].(map[string]interface{})`
unfoldable pub sub_map : Text → Assoc Yaml → Option (Assoc Yaml)
sub_map key m = elim (lookup key m) [ none ↦ none | some v ↦ as_map v ]

-- `m[key].([]interface{})`
unfoldable pub sub_list : Text → Assoc Yaml → Option (List Yaml)
sub_list key m = elim (lookup key m) [ none ↦ none | some v ↦ as_seq v ]

-- Step 2: the sections that must be there.
pub check_section : Assoc Yaml → Report → Text × Bool → Report
check_section root r (section, required) = elim (lookup section root) [
  | none ↦ if required then add_error r (missing_section section) else r
  | some v ↦ r
]

-- The pipelines that step 3 ranges over.
pub pipelines : Assoc Yaml → Assoc Yaml
pipelines root = elim (sub_map (text "service") root) [
  | none ↦ []
  | some svc ↦ elim (sub_map (text "pipelines") svc) [ none ↦ [] | some ps ↦ ps ]
]

abbrev empty_report : Report
empty_report = record { valid = true; errors = []; warnings = [] }

-- A validator is its registry of known components.
module _ (known_components : Assoc Bool) where
  unfoldable pub is_known : Text → Bool
  is_known name = lookup_or false (component_name name) known_components

  -- One round of the loop over the items of a stage.
  check_item : Text → Text → ℕ → Report → Yaml → Report
  check_item path stage i r item = elim (as_string item) [
    | none ↦ add_error r (invalid_name path stage i)
    | some name ↦
        if is_known name then r else add_warning r (unknown_reference (component_name name))
  ]

  check_items : Text → Text → ℕ → Report → List Yaml → Report
  check_items path stage i r [] = r
  check_items path stage i r (item ∷ items) =
      check_items path stage (suc i) (check_item path stage i r item) items

  -- One round of the loop over the stages; a failed assertion leaves `items` nil.
  check_stage : Text → Assoc Yaml → Report → Text → Report
  check_stage path p r stage = elim (sub_list stage p) [
    | none ↦ if stage == text "processors" then r else add_error r (invalid_stage path stage)
    | some items ↦ check_items path stage 0 r items
  ]

  pub validate_pipeline : Report → Text → Yaml → Report
  unfolding check_stage check_items check_item
  validate_pipeline r path pipeline = elim (as_map pipeline) [
    | none ↦ add_error r (invalid_pipeline path)
    | some p ↦ foldl (check_stage path p) r pipeline_stages
  ]

  -- Step 3: the pipelines.
  check_pipeline : Report → Text × Yaml → Report
  unfolding validate_pipeline
  check_pipeline r (name, pipeline) =
      validate_pipeline r (text "service.pipelines." ++ name) pipeline

  -- Step 4: the components that are declared.
  check_component : Text → Report → Text × Yaml → Report
  check_component section r (name, _) =
      if is_known name then r else add_warning r (unknown_component section (component_name name))

  check_components : Assoc Yaml → Report → Text → Report
  unfolding check_component
  check_components root r section = elim (sub_map section root) [
    | none ↦ r
    | some components ↦ foldl (check_component section) r components
  ]

  -- Steps 2 to 4 on a parsed document, the section table visited in the order given.
  pub validate_root : Assoc Bool → Assoc Yaml → Report
  unfolding check_section check_pipeline pipelines check_components
  validate_root sections root =
      foldl (check_components root)
        (foldl check_pipeline (foldl (check_section root) empty_report sections) (pipelines root))
        component_sections

  pub validate_decoded : Assoc Bool → GoError ⊎ Assoc Yaml → Report
  unfolding validate_root
  validate_decoded sections (inl e) = add_error empty_report (yaml_parse_error e)
  validate_decoded sections (inr root) = validate_root sections root

  pub validate : (Text → GoError ⊎ Assoc Yaml) → Assoc Bool → Text → Report
  unfolding validate_decoded
  validate unmarshal sections config_yaml = validate_decoded sections (unmarshal config_yaml)
