-- ===== src/Validator/Codes.antt =====
-- The verdict against the errors of a report, and the codes that internal/validator/otel.go gives.
use collectorctrl_k8s_code.Common.{
  ℕ, suc, Bool, true, Option, none, some, List, [], ◌∷◌, ◌++◌, ◌≡◌, ◌↔◌, refl, ◌⊎◌, inl, inr, Text,
  text, Assoc, GoError, All, All-append, All-gather, gather, Option-cases, arith,
}
use collectorctrl_k8s_code.Validator.Values.{Yaml, as_map}
use collectorctrl_k8s_code.Validator.{
  ConfigError, pipelines, pipeline_stages, validate_root, validate_decoded, validate, add_error,
  sub_list,
}
use collectorctrl_k8s_code.Validator.Collected.{
  extend, item_errors, item_error, stage_errors, stage_errors_in, pipeline_errors, section_errors,
  document_errors, validate_root-collects,
}
use collectorctrl_k8s_code.Validator.Verdict.{still_valid_iff}

validate_decoded_consistent :
    (known sections : Assoc Bool) (decoded : GoError ⊎ Assoc Yaml)
    → ((validate_decoded known sections decoded).valid ≡ true)
      ↔ ((validate_decoded known sections decoded).errors ≡ [])
unfolding validate_decoded add_error extend
validate_decoded_consistent known sections (inl e) = ((λ h. cc), (λ h. cc))
validate_decoded_consistent known sections (inr root) =
    rw (validate_root-collects known sections root)
      (still_valid_iff (document_errors sections root))

-- A report is marked valid exactly if it holds no error.
pub validate_consistent :
    (known : Assoc Bool) (unmarshal : Text → GoError ⊎ Assoc Yaml) (sections : Assoc Bool)
    (config : Text)
    → ((validate known unmarshal sections config).valid ≡ true)
      ↔ ((validate known unmarshal sections config).errors ≡ [])
unfolding validate
validate_consistent known unmarshal sections config =
    validate_decoded_consistent known sections (unmarshal config)

-- The codes that the errors of a decoded document carry.
abbrev pub HasDocumentCode : ConfigError → Type 0
HasDocumentCode e =
    (e.code ≡ text "MISSING_SECTION")
    ⊎ (e.code ≡ text "INVALID_PIPELINE_TYPE")
    ⊎ (e.code ≡ text "INVALID_STAGE_TYPE")
    ⊎ (e.code ≡ text "INVALID_COMPONENT_NAME")

item_errors_code :
    (path stage : Text) (i : ℕ) (xs : List Yaml) → All HasDocumentCode (item_errors path stage i xs)
item_errors_code path stage i [] = tt
item_errors_code path stage i (x ∷ xs) =
    All-append HasDocumentCode (item_error path stage i x) (item_errors path stage (suc i) xs)
      (ground arith) (item_errors_code path stage (suc i) xs)

stage_errors_code :
    (path stage : Text) (found : Option (List Yaml))
    → All HasDocumentCode (stage_errors_in path stage found)
stage_errors_code path stage none = ground arith
stage_errors_code path stage (some items) = item_errors_code path stage 0 items

pipeline_errors_code : (p : Text × Yaml) → All HasDocumentCode (pipeline_errors p)
pipeline_errors_code (name, v) = elim (Option-cases (as_map v)) [
  | inl e ↦ rw (e, pipeline_errors) (inr (inl refl), tt)
  | inr (p, e) ↦
      rw (e, pipeline_errors)
        (All-gather HasDocumentCode (stage_errors (text "service.pipelines." ++ name) p)
          (λ s. stage_errors_code _ s (sub_list s p)) pipeline_stages)
]

section_errors_code :
    (root : Assoc Yaml) (s : Text × Bool) → All HasDocumentCode (section_errors root s)
section_errors_code root (s, required) = ground arith

-- Every error of a decoded document has one of four codes: none is for an unknown component or
-- for an endpoint.
pub validate_root_codes :
    (known sections : Assoc Bool) (root : Assoc Yaml)
    → All HasDocumentCode (validate_root known sections root).errors
unfolding document_errors extend
validate_root_codes known sections root = rw (validate_root-collects known sections root) (
    All-append HasDocumentCode (gather (section_errors root) sections) _
      (All-gather HasDocumentCode (section_errors root) (section_errors_code root) sections)
      (All-gather HasDocumentCode pipeline_errors pipeline_errors_code (pipelines root)))
