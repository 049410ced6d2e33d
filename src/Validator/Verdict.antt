-- ===== src/Validator/Verdict.antt =====
-- When internal/validator/otel.go accepts a configuration.
use mathlib.Core.Option.{some-injective}
use mathlib.Core.Sum.{inr-injective}
use mathlib.Core.List.{Perm}
use mathlib.Core.List.Perm
use collectorctrl_k8s_code.Common.{
  ℕ, suc, Bool, true, false, Option, none, some, List, [], ◌∷◌, ◌++◌, ◌≡◌, ◌≢◌, ◌↔◌, refl, sym, ap,
  ◌⊎◌, inl, inr, Text, text, ◌==◌, Assoc, lookup, GoError, gather, All, arith, Option-cases,
  All-map, ==_refl, subst, append-eq-nil_iff, gather-eq-nil_iff, gather-perm,
}
use collectorctrl_k8s_code.Validator.Values.{Yaml, as_map, as_string}
use collectorctrl_k8s_code.Validator.{
  ConfigError, Report, pipeline_stages, section_table, sub_list, pipelines, validate_decoded,
  validate, add_error,
}
use collectorctrl_k8s_code.Validator.Collected.{
  extend, still_valid, item_error, item_errors, stage_errors, stage_errors_in, pipeline_errors,
  section_errors, document_errors, validate_root-collects,
}

-- What makes a configuration acceptable, stated without the order of any map or any message.
abbrev pub IsName : Yaml → Type 0
IsName x = (name : Text) × (as_string x ≡ some name)

-- A stage that must be there: a list of names.
abbrev pub IsStage : Assoc Yaml → Text → Type 0
IsStage p stage = (items : List Yaml) × (sub_list stage p ≡ some items) × All IsName items

-- The stage that may be left out, or be something else than a list.
abbrev pub IsOptionalStage : Assoc Yaml → Text → Type 0
IsOptionalStage p stage = (items : List Yaml) → sub_list stage p ≡ some items → All IsName items

-- All three are read from one map.
abbrev pub HasStages : Assoc Yaml → Type 0
HasStages p =
    IsStage p (text "receivers")
    × IsOptionalStage p (text "processors")
    × IsStage p (text "exporters")

abbrev pub IsPipeline : Yaml → Type 0
IsPipeline v = (p : Assoc Yaml) × (as_map v ≡ some p) × HasStages p

pub record IsWellFormed (root : Assoc Yaml) : Type 0 where
  pub receivers : lookup (text "receivers") root ≢ none
  pub exporters : lookup (text "exporters") root ≢ none
  pub service : lookup (text "service") root ≢ none
  pub pipelines_fit : All (λ p. IsPipeline p.1) (pipelines root)

item_error-nil_iff :
    (path stage : Text) (i : ℕ) (x : Yaml) → (item_error path stage i x ≡ []) ↔ IsName x
item_error-nil_iff path stage i x = elim (Option-cases (as_string x)) [
  | inl e ↦ ((λ h. ground arith), (λ h. ground arith))
  | inr (n, e) ↦ ((λ h. (n, e)), (λ h. ground arith))
]

item_errors-nil_iff :
    (path stage : Text) (i : ℕ) (xs : List Yaml)
    → (item_errors path stage i xs ≡ []) ↔ All IsName xs
item_errors-nil_iff path stage i [] = ((λ e. tt), (λ h. refl))
item_errors-nil_iff path stage i (x ∷ xs) =
    let split = append-eq-nil_iff (item_error path stage i x) (item_errors path stage (suc i) xs) in
    let one = item_error-nil_iff path stage i x in
    let rest = item_errors-nil_iff path stage (suc i) xs in
    ((λ e. (one.0 (split.0 e).0, rest.0 (split.0 e).1)), (λ h. split.1 (one.1 h.0, rest.1 h.1)))

stage_errors-nil_iff :
    (path stage : Text) (found : Option (List Yaml))
    → (stage == text "processors") ≡ false
    → (stage_errors_in path stage found ≡ [])
      ↔ ((items : List Yaml) × (found ≡ some items) × All IsName items)
stage_errors-nil_iff path stage none ne = rw ne ((λ h. cc), (λ h. cc (h.1)))
stage_errors-nil_iff path stage (some items) ne =
    let fit = item_errors-nil_iff path stage 0 items in
    (
      (λ h. (items, refl, fit.0 h)),
      (λ h. fit.1 (subst (All IsName) (sym (some-injective items h.0 h.1)) h.2)),
    )

processors-nil_iff :
    (path : Text) (found : Option (List Yaml))
    → (stage_errors_in path (text "processors") found ≡ [])
      ↔ ((items : List Yaml) → found ≡ some items → All IsName items)
processors-nil_iff path none = rw ==_refl ((λ h items q. cc), (λ h. refl))
processors-nil_iff path (some items) =
    let fit = item_errors-nil_iff path (text "processors") 0 items in
    (
      (λ h items' q. subst (All IsName) (some-injective items items' q) (fit.0 h)),
      (λ h. fit.1 (h items refl)),
    )

stage_names_differ :
    ((text "receivers" == text "processors") ≡ false)
    × ((text "exporters" == text "processors") ≡ false)
unfolding text ◌==◌
stage_names_differ = (refl, refl)

pipeline_errors-nil_iff : (p : Text × Yaml) → (pipeline_errors p ≡ []) ↔ IsPipeline p.1
pipeline_errors-nil_iff (name, v) =
    let path = text "service.pipelines." ++ name in
    elim (Option-cases (as_map v)) [
      | inl e ↦ rw (e, pipeline_errors) ((λ h. cc), (λ h. cc (h.1)))
      | inr (stages, e) ↦
          rw (e, pipeline_errors)
            (let split = gather-eq-nil_iff (stage_errors path stages) pipeline_stages in
              let first = stage_errors-nil_iff path (text "receivers") _ stage_names_differ.0 in
              let second = processors-nil_iff path (sub_list (text "processors") stages) in
              let third = stage_errors-nil_iff path (text "exporters") _ stage_names_differ.1 in
              (
                (λ h.
                    let parts = split.0 h in
                    (stages, refl, (first.0 parts.0, second.0 parts.1.0, third.0 parts.1.1.0))),
                (λ h.
                    let fit = subst HasStages (sym (some-injective stages h.0 h.1)) h.2 in
                    split.1 (first.1 fit.0, (second.1 fit.1, (third.1 fit.2, tt)))),
              ))
    ]

section_errors-nil_iff :
    (root : Assoc Yaml) (section : Text)
    → (section_errors root (section, true) ≡ []) ↔ (lookup section root ≢ none)
section_errors-nil_iff root section = elim (Option-cases (lookup section root)) [
  | inl e ↦ rw (e, section_errors) ((λ h. cc), (λ h. absurd (h refl)))
  | inr (v, e) ↦ rw (e, section_errors) ((λ h q. cc), (λ h. refl))
]

section_errors-optional :
    (root : Assoc Yaml) (section : Text) → section_errors root (section, false) ≡ []
section_errors-optional root section = elim (Option-cases (lookup section root)) [
  | inl e ↦ rw (e, section_errors)
  | inr (v, e) ↦ rw (e, section_errors)
]

-- The sections and the pipelines raise no error exactly if the document is well-formed.
pub document_errors-nil_iff :
    (root : Assoc Yaml) → (document_errors section_table root ≡ []) ↔ IsWellFormed root
unfolding document_errors
document_errors-nil_iff root =
    let split = append-eq-nil_iff (gather (section_errors root) section_table) _ in
    let table = gather-eq-nil_iff (section_errors root) section_table in
    let lines = gather-eq-nil_iff pipeline_errors (pipelines root) in
    let present = section_errors-nil_iff root in
    let optional = section_errors-optional root in
    (
      (λ h.
          let tops = table.0 (split.0 h).0 in
          record {
            receivers = (present (text "receivers")).0 tops.0;
            exporters = (present (text "exporters")).0 tops.1.0;
            service = (present (text "service")).0 tops.1.1.0;
            pipelines_fit =
                All-map (λ p. (pipeline_errors-nil_iff p).0) (pipelines root)
                  (lines.0 (split.0 h).1);
          }),
      (λ h. split.1 (
        table.1 (
          (present (text "receivers")).1 h.receivers,
          (
            (present (text "exporters")).1 h.exporters,
            (
              (present (text "service")).1 h.service,
              (optional (text "processors"), (optional (text "extensions"), tt)),
            ),
          ),
        ),
        lines.1 (All-map (λ p. (pipeline_errors-nil_iff p).1) (pipelines root) h.pipelines_fit),
      )),
    )

pub still_valid_iff : (es : List ConfigError) → (still_valid true es ≡ true) ↔ (es ≡ [])
still_valid_iff [] = ((λ h. refl), (λ h. refl))
still_valid_iff (e ∷ es) = ((λ h. cc), (λ h. cc))

pub document_errors-perm :
    {sections table : Assoc Bool} (root : Assoc Yaml)
    → Perm sections table
    → Perm (document_errors sections root) (document_errors table root)
unfolding document_errors
document_errors-perm root visit = Perm.append_right _ (gather-perm (section_errors root) visit)

validate_decoded-IsWellFormed :
    (known sections : Assoc Bool) (decoded : GoError ⊎ Assoc Yaml)
    → Perm sections section_table
    → ((validate_decoded known sections decoded).valid ≡ true)
      ↔ ((root : Assoc Yaml) × (decoded ≡ inr root) × IsWellFormed root)
unfolding validate_decoded add_error extend
validate_decoded-IsWellFormed known sections (inl e) visit = ((λ h. cc), (λ h. cc (h.1)))
validate_decoded-IsWellFormed known sections (inr root) visit =
    let count = still_valid_iff (document_errors sections root) in
    let fit = document_errors-nil_iff root in
    let same = document_errors-perm root visit in
    rw (ap (λ (r : Report). r.valid) (validate_root-collects known sections root)) (
      (λ h. (
        root,
        refl,
        fit.0 (
            sym (
              Perm.nil-eq
                (subst (λ es. Perm es (document_errors section_table root)) (count.0 h) same))),
      )),
      (λ h.
          let at_root = subst IsWellFormed (sym (inr-injective root h.0 h.1)) h.2 in
          count.1
            (Perm.eq-nil (subst (Perm (document_errors sections root)) (fit.1 at_root) same))),
    )

-- Whatever the registry and the order in which the section table is visited, a text is reported
-- valid exactly if it decodes to a document that has the three required sections and whose
-- pipelines are all maps with a list of names under `receivers` and under `exporters`, and with
-- only names in `processors` where that is a list.
pub validate-IsWellFormed :
    (known : Assoc Bool) (unmarshal : Text → GoError ⊎ Assoc Yaml) (sections : Assoc Bool)
    (config : Text)
    → Perm sections section_table
    → ((validate known unmarshal sections config).valid ≡ true)
      ↔ ((root : Assoc Yaml) × (unmarshal config ≡ inr root) × IsWellFormed root)
unfolding validate
validate-IsWellFormed known unmarshal sections config visit =
    validate_decoded-IsWellFormed known sections (unmarshal config) visit
