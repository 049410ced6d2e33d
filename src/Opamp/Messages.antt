-- ===== src/Opamp/Messages.antt =====
-- What pkg/opamp/client.go makes of the messages of the server.
use collectorctrl_k8s_code.Common.{
  ℕ, Bool, true, false, Option, none, some, List, [], ◌∷◌, ◌++◌, map, ◌≡◌, ◌↔◌, refl, sym, ap, ◌∙◌,
  ◌⊎◌, inl, inr, Text, text, trim_prefix, trim_space, cut, equal_fold, fold_rune, All, All-append,
  arith, Option-cases, Bool-cases, ◌≤◌, length, length-append, show_hex, Assoc,
}
use collectorctrl_k8s_code.Common.Cut.{
  Lacks, cut-append, cut-eq-none, cut_sound, split_n-two, split_n_whole, strip_prefix-append,
}
use collectorctrl_k8s_code.Opamp.Protocol.{
  CustomMessage, MessageData, RemoteConfig, AgentConfigFile,
}
use collectorctrl_k8s_code.Opamp.{
  Client, Invocation, emergency, fetch_logs, config_update, custom_message_invocations,
  remote_config_invocations, emergency_command, emergency_parts, on_message,
}
use collectorctrl_k8s_code.Opamp.{when_set}

abbrev pub separator : Text
separator = text "\n---\n"

-- An emergency message as the server writes it.
abbrev pub emergency_content : Text → Text → Text
emergency_content reason config_yaml = (text "emergency:" ++ reason) ++ (separator ++ config_yaml)

trim_prefix-append : (p s : Text) → trim_prefix (p ++ s) p ≡ s
unfolding trim_prefix
trim_prefix-append p s = rw strip_prefix-append

head-Lacks_newline : (reason : Text) → Lacks 10 reason → Lacks 10 (text "emergency:" ++ reason)
unfolding text
head-Lacks_newline reason h =
    All-append (λ d. ◌≡◌ {A = ℕ} 10 d → ⊥) (text "emergency:") reason (omega arith) h

cut-separator : (a b : Text) → Lacks 10 a → cut separator (a ++ (separator ++ b)) ≡ some (a, b)
unfolding text
cut-separator a b h = cut-append 10 (text "---\n") a b h

cut-separator-none : (s : Text) → Lacks 10 s → cut separator s ≡ none
unfolding text
cut-separator-none s h = cut-eq-none 10 (text "---\n") s h

-- Reading an emergency message gives back the configuration as it was written, and the reason,
-- which may hold no newline, with the white space at its ends taken off.
pub emergency_command-content :
    (reason config_yaml : Text)
    → Lacks 10 reason
    → emergency_command (emergency_content reason config_yaml)
      ≡ record { config_yaml = config_yaml; reason = trim_space reason }
unfolding emergency_command
emergency_command-content reason config_yaml h =
    let head = text "emergency:" ++ reason in
    let content = emergency_content reason config_yaml in
    ap (emergency_parts content) (
      split_n-two separator content head config_yaml
        (cut-separator head config_yaml (head-Lacks_newline reason h)))
    ∙ ap (λ (r : Text). record { config_yaml = config_yaml; reason = trim_space r })
        (trim_prefix-append (text "emergency:") reason)

-- Of every content there is either no separator in it, and then all of it is the configuration and
-- the reason is the default, or the configuration is all that stands behind a separator.
pub emergency_command_cases :
    (content : Text)
    → ((cut separator content ≡ none)
        × (emergency_command content
            ≡ record { config_yaml = content; reason = text "emergency override" }))
      ⊎ ((head : Text) × (content ≡ head ++ (separator ++ (emergency_command content).config_yaml)))
unfolding emergency_command
emergency_command_cases content = elim (Option-cases (cut separator content)) [
  | inl e ↦ inl (e, ap (emergency_parts content) (split_n_whole 1 separator content e))
  | inr ((head, body), e) ↦ inr (
    head,
    cut_sound separator content head body e
        ∙ ap
            (λ (parts : List Text).
              head ++ (separator ++ (emergency_parts content parts).config_yaml))
            (sym (split_n-two separator content head body e)),
  )
]

-- Case does not matter to the comparison exactly as far as folding goes.
pub equal_fold_iff : (s t : Text) → (equal_fold s t ≡ true) ↔ (map fold_rune s ≡ map fold_rune t)
unfolding equal_fold
equal_fold_iff [] [] = ground arith
equal_fold_iff [] (d ∷ t) = ground arith
equal_fold_iff (c ∷ s) [] = ground arith
equal_fold_iff (c ∷ s) (d ∷ t) = ground (arith, equal_fold_iff s t)

abbrev pub AtMostOne {ℓ} : {A : Type 0} → (A → Type ℓ) → List A → Type ℓ
AtMostOne P l = All P l × (length l ≤ 1)

when_set-AtMostOne :
    {H : Type 0} (P : Invocation H → Type 0) (b : Bool) (o : Option H) (f : H → Invocation H)
    (other : List (Invocation H))
    → ((h : H) → b ≡ true → o ≡ some h → P (f h))
    → AtMostOne P other
    → AtMostOne P (when_set b o f other)
unfolding when_set
when_set-AtMostOne P true (some h) f other k rest = ((k h refl refl, tt), omega arith)
when_set-AtMostOne P true none f other k rest = rest
when_set-AtMostOne P false o f other k rest = rest

module _ {Conn H : Type 0} (c : Client Conn H) where
  -- Of a message whose custom part has another capability, that part runs no handler, whatever its
  -- type: the message is handled as it would be without it.
  pub on_message_foreign :
      (msg : MessageData) (cm : CustomMessage)
      → msg.custom_message ≡ some cm
      → equal_fold cm.capability (text "collectorctrl") ≡ false
      → on_message c msg ≡ on_message c (record msg { custom_message = none })
  unfolding on_message
  on_message_foreign msg cm e h = ground arith

  -- What a message must hold for a handler to be run.
  abbrev pub IsRequested : MessageData → Invocation H → Type 0
  IsRequested msg (config_update h u) =
      (c.on_config_update ≡ some h)
      × (rc : RemoteConfig) × (msg.remote_config ≡ some rc)
      × (name : Text) × (file : AgentConfigFile) × (rest : Assoc AgentConfigFile) × (rc.config
          ≡ some ((name, file) ∷ rest))
      × (u.config_yaml ≡ file.body)
      × (u.config_hash ≡ show_hex rc.config_hash)
      × (u.rollout_strategy ≡ none)
  IsRequested msg (emergency h cmd) =
      (c.on_emergency_cmd ≡ some h)
      × (cm : CustomMessage) × (msg.custom_message ≡ some cm)
      × (map fold_rune cm.capability ≡ map fold_rune (text "collectorctrl"))
      × (map fold_rune cm.type ≡ map fold_rune (text "emergency"))
      × (cmd ≡ emergency_command cm.content)
  IsRequested msg (fetch_logs h pod) =
      (c.on_fetch_logs ≡ some h)
      × (cm : CustomMessage) × (msg.custom_message ≡ some cm)
      × (map fold_rune cm.capability ≡ map fold_rune (text "collectorctrl"))
      × (map fold_rune cm.type ≡ map fold_rune (text "fetch_logs"))
      × (pod ≡ cm.content)

  custom_message-IsRequested :
      (msg : MessageData) (found : Option CustomMessage)
      → msg.custom_message ≡ found
      → AtMostOne (IsRequested msg) (custom_message_invocations c found)
  unfolding custom_message_invocations
  custom_message-IsRequested msg none e = (tt, omega arith)
  custom_message-IsRequested msg (some cm) e =
      elim (Bool-cases (equal_fold cm.capability (text "collectorctrl"))) [
        | inr b ↦ rw b (tt, omega arith)
        | inl b ↦ rw b (
            when_set-AtMostOne (IsRequested msg) _ c.on_emergency_cmd _ _
              (λ h t r. (r, cm, e, (equal_fold_iff _ _).0 b, (equal_fold_iff _ _).0 t, refl))
              (when_set-AtMostOne (IsRequested msg) (equal_fold cm.type (text "fetch_logs"))
                c.on_fetch_logs (λ h. fetch_logs h cm.content) []
                (λ h t r. (r, cm, e, (equal_fold_iff _ _).0 b, (equal_fold_iff _ _).0 t, refl))
                (tt, omega arith)))
      ]

  remote_config-IsRequested :
      (msg : MessageData) (handler : Option H) (found : Option RemoteConfig)
      → c.on_config_update ≡ handler
      → msg.remote_config ≡ found
      → AtMostOne (IsRequested msg) (remote_config_invocations handler found)
  unfolding remote_config_invocations
  remote_config-IsRequested msg none found r e = (tt, omega arith)
  remote_config-IsRequested msg (some h) none r e = (tt, omega arith)
  remote_config-IsRequested msg (some h) (some rc) r e = elim (Option-cases rc.config) [
    | inl k ↦ rw k (tt, omega arith)
    | inr ([], k) ↦ rw k (tt, omega arith)
    | inr ((name, file) ∷ rest, k) ↦
        rw k (((r, rc, e, name, file, rest, k, refl, refl, refl), tt), omega arith)
  ]

  -- A message runs at most two handlers, each one registered, and each for what the message holds.
  -- The handler for a configuration is handed the body of the first file that the range visits and
  -- the hash in hexadecimal; for the two others, without regard to case, the capability and the type
  -- are those of the handler, which is handed the parsed content.
  pub on_message-IsRequested :
      (msg : MessageData)
      → All (IsRequested msg) (on_message c msg) × (length (on_message c msg) ≤ 2)
  unfolding on_message
  on_message-IsRequested msg =
      let (first, short) = remote_config-IsRequested msg _ _ refl refl in
      let (second, brief) = custom_message-IsRequested msg _ refl in
      let front = remote_config_invocations c.on_config_update msg.remote_config in
      let back = custom_message_invocations c msg.custom_message in
      (
        All-append (IsRequested msg) front back first second,
        omega (arith, length-append front back),
      )
