-- ===== src/Opamp/Requests.antt =====
-- What a message of the server that holds a custom part alone makes pkg/opamp/client.go run.
use collectorctrl_k8s_code.Common.{
  false, Option, none, some, [], ◌∷◌, map, ◌≡◌, refl, sym, ◌∙◌, Text, text, inl, inr, equal_fold,
  fold_rune, trim_space, arith, Bool-cases,
}
use collectorctrl_k8s_code.Common.Cut.{Lacks}
use collectorctrl_k8s_code.Opamp.Protocol.{MessageData}
use collectorctrl_k8s_code.Opamp.{
  Client, emergency, fetch_logs, remote_config_invocations, on_message,
}
use collectorctrl_k8s_code.Opamp.Messages.{
  emergency_content, emergency_command-content, equal_fold_iff,
}

-- A message with a custom part alone.
abbrev pub custom : Text → Text → Text → MessageData
custom capability type content = record {
  remote_config = none;
  custom_message = some (record { capability = capability; type = type; content = content });
}

no_remote_config : {H : Type 0} (handler : Option H) → remote_config_invocations handler none ≡ []
unfolding remote_config_invocations
no_remote_config none = refl
no_remote_config (some h) = refl

types_differ : map fold_rune (text "fetch_logs") ≡ map fold_rune (text "emergency") → ⊥
unfolding text fold_rune
types_differ h = ground arith

not_emergency :
    (type : Text)
    → map fold_rune type ≡ map fold_rune (text "fetch_logs")
    → equal_fold type (text "emergency") ≡ false
not_emergency type h = elim (Bool-cases (equal_fold type (text "emergency"))) [
  | inr b ↦ b
  | inl b ↦ absurd (types_differ (sym h ∙ (equal_fold_iff type (text "emergency")).0 b))
]

module _ {Conn H : Type 0} (c : Client Conn H) (h : H) (capability type : Text)
    (ours : map fold_rune capability ≡ map fold_rune (text "collectorctrl")) where
  -- A client with an emergency handler runs that handler alone, with the configuration as the
  -- server wrote it.
  pub on_message_emergency :
      c.on_emergency_cmd ≡ some h
      → map fold_rune type ≡ map fold_rune (text "emergency")
      → (reason config_yaml : Text) → Lacks 10 reason
      → on_message c (custom capability type (emergency_content reason config_yaml))
        ≡ emergency h (record { config_yaml = config_yaml; reason = trim_space reason }) ∷ []
  unfolding on_message
  on_message_emergency r t reason config_yaml lacks = ground (
    arith,
    (equal_fold_iff capability (text "collectorctrl")).1 ours,
    (equal_fold_iff type (text "emergency")).1 t,
    emergency_command-content reason config_yaml lacks,
    no_remote_config c.on_config_update,
  )

  -- A client with a handler for logs runs that handler alone, for the pod that is named.
  pub on_message_logs :
      c.on_fetch_logs ≡ some h
      → map fold_rune type ≡ map fold_rune (text "fetch_logs")
      → (pod : Text) → on_message c (custom capability type pod) ≡ fetch_logs h pod ∷ []
  unfolding on_message
  on_message_logs r t pod = ground (
    arith,
    (equal_fold_iff capability (text "collectorctrl")).1 ours,
    (equal_fold_iff type (text "fetch_logs")).1 t,
    not_emergency type t,
    no_remote_config c.on_config_update,
  )
