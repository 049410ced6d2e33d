-- ===== src/Validator/Order.antt =====
-- What the outcome of internal/validator/otel.go does not depend on: the order in which maps are
-- visited, and, for the errors, the registry.
use mathlib.Core.List.{Perm}
use mathlib.Core.List.Perm
use collectorctrl_k8s_code.Common.{
  Bool, Option, none, some, List, [], ◌∷◌, ◌≡◌, ◌↔◌, refl, ap, ◌⊎◌, inl, inr, Text, Assoc, lookup,
  GoError, gather, arith, gather-perm, gather-perm_pointwise, gather-perm_all, All, All-map, subst,
}
use collectorctrl_k8s_code.Validator.Values.{Yaml}
use collectorctrl_k8s_code.Validator.{
  ConfigError, Report, component_sections, sub_map, pipelines, empty_report, validate_root,
  validate_decoded, validate,
}
use collectorctrl_k8s_code.Validator.Collected.{
  extend, still_valid, section_errors, pipeline_errors, pipeline_warnings, section_warnings,
  component_warning, document_errors, document_warnings, validate_root-collects,
}

-- The components that a section declares.
abbrev pub entries_of : Option (Assoc Yaml) → Assoc Yaml
entries_of none = []
entries_of (some cs) = cs

-- Two documents that hold the same, up to the order of the maps that the validator ranges over:
-- those of the pipelines, and of the components of the four sections.
pub record SameContents (left right : Assoc Yaml) : Type 0 where
  pub sections : (s : Text) → (lookup s left ≡ none) ↔ (lookup s right ≡ none)
  pub pipelines_same : Perm (pipelines left) (pipelines right)
  pub components :
      All
        (λ s. Perm (entries_of (sub_map s left)) (entries_of (sub_map s right)))
        component_sections

-- Two reports that differ at most in the order of their entries.
pub record SameReport (left right : Report) : Type 0 where
  pub valid : left.valid ≡ right.valid
  pub errors : Perm left.errors right.errors
  pub warnings : Perm left.warnings right.warnings

still_valid-perm :
    (v : Bool) {es fs : List ConfigError} → Perm es fs → still_valid v es ≡ still_valid v fs
still_valid-perm v {es = []} {fs = fs} p = ap (still_valid v) (Perm.nil-eq p)
still_valid-perm v {es = e ∷ es} {fs = []} p = ap (still_valid v) (Perm.eq-nil p)
still_valid-perm v {es = e ∷ es} {fs = f ∷ fs} p = refl

extend-SameReport :
    (r : Report) {es fs : List ConfigError} {ws us : List Text}
    → Perm es fs
    → Perm ws us
    → SameReport (extend r es ws) (extend r fs us)
unfolding extend
extend-SameReport r p q = record {
  valid = still_valid-perm r.valid p;
  errors = Perm.append_left r.errors p;
  warnings = Perm.append_left r.warnings q;
}

section_errors_same :
    (left right : Assoc Yaml)
    → SameContents left right
    → (s : Text × Bool) → section_errors left s ≡ section_errors right s
section_errors_same left right same (s, required) =
    ground (arith, (same.sections s).0, (same.sections s).1)

section_warnings_lem :
    (known : Assoc Bool) (root : Assoc Yaml) (s : Text)
    → section_warnings known root s
      ≡ gather (component_warning known s) (entries_of (sub_map s root))
section_warnings_lem known root s = ground arith

section_warnings_same :
    (known : Assoc Bool) (left right : Assoc Yaml) (s : Text)
    → Perm (entries_of (sub_map s left)) (entries_of (sub_map s right))
    → Perm (section_warnings known left s) (section_warnings known right s)
section_warnings_same known left right s h =
    rw (section_warnings_lem known left s, section_warnings_lem known right s)
      (gather-perm (component_warning known s) h)

module _ {left right : Assoc Yaml} (same : SameContents left right) where
  document_errors_same :
      {sections table : Assoc Bool}
      → Perm sections table
      → Perm (document_errors sections left) (document_errors table right)
  unfolding document_errors
  document_errors_same {sections} {table} visit =
      Perm.append
        (Perm.trans (gather-perm (section_errors left) visit) (
          gather-perm_pointwise (section_errors left) (section_errors right)
            (λ s.
              subst (Perm (section_errors left s)) (section_errors_same left right same s)
                (Perm.refl _))
            table))
        (gather-perm pipeline_errors same.pipelines_same)

  document_warnings_same :
      (known : Assoc Bool) → Perm (document_warnings known left) (document_warnings known right)
  unfolding document_warnings
  document_warnings_same known =
      Perm.append (gather-perm (pipeline_warnings known) same.pipelines_same) (
        gather-perm_all (section_warnings known left) (section_warnings known right)
          component_sections
          (All-map (section_warnings_same known left right) component_sections same.components))

-- Two documents with the same contents, checked with the section table visited in any two orders,
-- have reports that differ at most in the order of the errors and of the warnings.
pub validate_root-SameReport :
    (known : Assoc Bool) (sections table : Assoc Bool) (left right : Assoc Yaml)
    → Perm sections table
    → SameContents left right
    → SameReport (validate_root known sections left) (validate_root known table right)
validate_root-SameReport known sections table left right visit same =
    rw (validate_root-collects known sections left, validate_root-collects known table right)
      (extend-SameReport empty_report (document_errors_same same visit)
        (document_warnings_same same known))

validate_decoded_registry :
    (known other sections : Assoc Bool) (decoded : GoError ⊎ Assoc Yaml)
    → ((validate_decoded known sections decoded).valid
        ≡ (validate_decoded other sections decoded).valid)
      × ((validate_decoded known sections decoded).errors
          ≡ (validate_decoded other sections decoded).errors)
unfolding validate_decoded extend
validate_decoded_registry known other sections (inl e) = (refl, refl)
validate_decoded_registry known other sections (inr root) =
    rw (validate_root-collects known sections root, validate_root-collects other sections root)
      (refl, refl)

-- The registry of known components has no part in the verdict or in the errors: an unknown
-- component leads to warnings only.
pub validate_registry :
    (known other : Assoc Bool) (unmarshal : Text → GoError ⊎ Assoc Yaml) (sections : Assoc Bool)
    (config : Text)
    → ((validate known unmarshal sections config).valid
        ≡ (validate other unmarshal sections config).valid)
      × ((validate known unmarshal sections config).errors
          ≡ (validate other unmarshal sections config).errors)
unfolding validate
validate_registry known other unmarshal sections config =
    validate_decoded_registry known other sections (unmarshal config)
