-- ===== src/Validator/Values.antt =====
-- The dynamic values that yaml.v3 decodes into, as far as the type assertions of
-- internal/validator/otel.go tell them apart.
use collectorctrl_k8s_code.Common.{Bool, Option, none, some, List, [], ◌∷◌, Text, Assoc}

mutual
  pub data Yaml : Type 0 where
    null : Yaml
    boolean : Bool → Yaml
    number : Text → Yaml
    string : Text → Yaml
    seq : Items → Yaml
    mapping : Entries → Yaml
    -- a timestamp, or a map whose keys are not all strings
    other : Yaml

  pub data Items : Type 0 where
    nil : Items
    item : Yaml → Items → Items

  pub data Entries : Type 0 where
    end : Entries
    entry : Text → Yaml → Entries → Entries

items_list : Items → List Yaml
items_list nil = []
items_list (item v vs) = v ∷ items_list vs

entries_list : Entries → Assoc Yaml
entries_list end = []
entries_list (entry k v es) = (k, v) ∷ entries_list es

-- v.(string)
unfoldable pub as_string : Yaml → Option Text
as_string (string s) = some s
as_string _ = none

-- v.([]interface{})
unfoldable pub as_seq : Yaml → Option (List Yaml)
unfolding items_list
as_seq (seq vs) = some (items_list vs)
as_seq _ = none

-- v.(map[string]interface{})
unfoldable pub as_map : Yaml → Option (Assoc Yaml)
unfolding entries_list
as_map (mapping es) = some (entries_list es)
as_map _ = none
