-- ===== src/Validator/Tests.antt =====
-- Runs of the validator on small documents, and its theorems at those.
use mathlib.Core.List.{Perm, perm_append_comm}
use mathlib.Core.List.Perm
use collectorctrl_k8s_code.Common.{
  true, false, [], ◌∷◌, ◌≡◌, ◌↔◌, none, refl, ◌⊎◌, inl, inr, Text, text, ◌==◌, Assoc, GoError,
  lookup, lookup_or, split, show_nat, All, errorf, arith,
}
use collectorctrl_k8s_code.Validator.Values.{
  Yaml, null, string, number, seq, mapping, nil, item, end, entry, as_map, as_seq, as_string,
}
use collectorctrl_k8s_code.Validator.Registry.{default_known_components}
use collectorctrl_k8s_code.Validator.Verdict.{IsWellFormed, validate-IsWellFormed}
use collectorctrl_k8s_code.Validator.Codes.{
  HasDocumentCode, validate_consistent, validate_root_codes,
}
use collectorctrl_k8s_code.Validator.Order.{SameContents, SameReport, validate_root-SameReport}
use collectorctrl_k8s_code.Validator.Names.{IsAllKnown, validate_root-IsAllKnown}
use collectorctrl_k8s_code.Validator.{
  add_error, add_warning, below, component_name, is_known, section_table, sub_map, sub_list,
  pipelines, validate_root, validate,
}

-- One component with no settings.
abbrev lone : Text → Yaml
lone name = mapping (entry name null end)

abbrev stages : Yaml → Yaml → Yaml
stages receivers exporters =
    mapping (entry (text "receivers") receivers (entry (text "exporters") exporters end))

abbrev document : Yaml → Assoc Yaml
document pipeline =
    (text "receivers", lone (text "otlp/2"))
    ∷ (text "exporters", lone (text "debug"))
    ∷ (
      text "service",
      mapping (entry (text "pipelines") (mapping (entry (text "traces") pipeline end)) end),
    )
    ∷ []

abbrev good : Assoc Yaml
good =
    document
      (stages (seq (item (string (text "otlp/2")) nil)) (seq (item (string (text "debug")) nil)))

abbrev bad : Assoc Yaml
bad = document (
    stages (seq (item (string (text "nosuch")) (item (number (text "7")) nil)))
      (string (text "debug")))

-- Two pipelines, the second one with an item that is no string, in either order.
abbrev traces : Yaml
traces = stages (seq (item (string (text "otlp/2")) nil)) (seq (item (string (text "debug")) nil))

abbrev metrics : Yaml
metrics = stages (seq (item (number (text "7")) nil)) (seq (item (string (text "debug")) nil))

abbrev service_of : Text → Yaml → Text → Yaml → Yaml
service_of name pipeline other_name other_pipeline = mapping (
    entry (text "pipelines") (mapping (entry name pipeline (entry other_name other_pipeline end)))
      end)

abbrev ordered : Assoc Yaml
ordered =
    (text "receivers", lone (text "otlp/2"))
    ∷ (text "exporters", lone (text "debug"))
    ∷ (text "service", service_of (text "traces") traces (text "metrics") metrics)
    ∷ []

-- The same sections and the same pipelines in another order.
abbrev reordered : Assoc Yaml
reordered =
    (text "exporters", lone (text "debug"))
    ∷ (text "receivers", lone (text "otlp/2"))
    ∷ (text "service", service_of (text "metrics") metrics (text "traces") traces)
    ∷ []

good_report :
    validate_root default_known_components section_table good
    ≡ record { valid = true; errors = []; warnings = [] }
unfolding validate_root validate default_known_components text ◌==◌ lookup sub_map sub_list as_map
    as_seq as_string is_known component_name split lookup_or add_error add_warning pipelines
good_report = refl

bad_report : validate_root default_known_components section_table bad ≡ record {
  valid = false;
  errors =
      record {
        path = text "service.pipelines.traces.receivers.1";
        message = text "component name must be a string";
        code = text "INVALID_COMPONENT_NAME";
      }
      ∷ record {
        path = text "service.pipelines.traces.exporters";
        message = text "exporters must be a list";
        code = text "INVALID_STAGE_TYPE";
      }
      ∷ [];
  warnings = text "Unknown component referenced in pipeline: nosuch" ∷ [];
}
unfolding validate_root validate default_known_components text ◌==◌ lookup sub_map sub_list as_map
    as_seq as_string is_known component_name split lookup_or add_error add_warning pipelines below
    show_nat
bad_report = refl

abbrev decodes : Assoc Yaml → Text → GoError ⊎ Assoc Yaml
decodes root config = inr root

abbrev fails : Text → GoError ⊎ Assoc Yaml
fails config = inl (errorf config)

validate-IsWellFormed_example :
    ((validate default_known_components (decodes good) section_table (text "a")).valid ≡ true)
    ↔ ((root : Assoc Yaml) × (decodes good (text "a") ≡ inr root) × IsWellFormed root)
validate-IsWellFormed_example =
    validate-IsWellFormed default_known_components (decodes good) section_table (text "a")
      (Perm.refl section_table)

validate_consistent_example :
    ((validate default_known_components fails section_table (text "a")).valid ≡ true)
    ↔ ((validate default_known_components fails section_table (text "a")).errors ≡ [])
validate_consistent_example =
    validate_consistent default_known_components fails section_table (text "a")

validate_root_codes_example :
    All HasDocumentCode (validate_root default_known_components section_table bad).errors
validate_root_codes_example = validate_root_codes default_known_components section_table bad

reordered-sections : (s : Text) → (lookup s ordered ≡ none) ↔ (lookup s reordered ≡ none)
unfolding lookup
reordered-sections s = (λ h. ground arith, λ h. ground arith)

reordered-pipelines : Perm (pipelines ordered) (pipelines reordered)
unfolding pipelines sub_map lookup text ◌==◌ as_map
reordered-pipelines =
    perm_append_comm ((text "traces", traces) ∷ []) ((text "metrics", metrics) ∷ [])

reordered-SameContents : SameContents ordered reordered
unfolding sub_map lookup text ◌==◌ as_map
reordered-SameContents = record {
  sections = reordered-sections;
  pipelines_same = reordered-pipelines;
  components = (Perm.refl _, (Perm.refl _, (Perm.refl _, (Perm.refl _, tt))));
}

validate_root-SameReport_example :
    SameReport
      (validate_root default_known_components section_table ordered)
      (validate_root default_known_components section_table reordered)
validate_root-SameReport_example =
    validate_root-SameReport default_known_components section_table section_table ordered reordered
      (Perm.refl section_table) reordered-SameContents

validate_root-IsAllKnown_example :
    ((validate_root default_known_components section_table bad).warnings ≡ [])
    ↔ IsAllKnown default_known_components bad
validate_root-IsAllKnown_example =
    validate_root-IsAllKnown default_known_components section_table bad
