-- ===== src/Config/Yaml.antt =====
-- What yaml.safe_load gives, with the reads that config.py makes of it.
use githost_mcp.Base.{
  Text, Bool, true, false, Option, none, some, List, [], ◌∷◌, ℕ, text_eq, if◌then◌else◌,
}

-- `other` is a scalar of another type (a float, a date), with its truth value. A mapping's keys
-- that are no text are left out: the code looks up texts only.
mutual
  pub data Yaml : Type 0 where
    null : Yaml
    bool : Bool → Yaml
    int : Bool → ℕ → Yaml
    str : Text → Yaml
    other : Bool → Yaml
    seq : Items → Yaml
    mapping : Entries → Yaml

  pub data Items : Type 0 where
    nil : Items
    item : Yaml → Items → Items

  pub data Entries : Type 0 where
    end : Entries
    entry : Text → Yaml → Entries → Entries

unfoldable pub items : Items → List Yaml
items Items.nil = []
items (Items.item v vs) = v ∷ items vs

-- `d.get(key)`, `none` where the key is missing.
unfoldable pub get : Text → Entries → Option Yaml
get k Entries.end = none
get k (Entries.entry j v rest) = if text_eq j k then some v else get k rest

-- Truth of a value.
abbrev pub truthy : Yaml → Bool
truthy Yaml.null = false
truthy (Yaml.bool b) = b
truthy (Yaml.int negative ℕ.zero) = false
truthy (Yaml.int negative (ℕ.suc n)) = true
truthy (Yaml.str []) = false
truthy (Yaml.str (_ ∷ _)) = true
truthy (Yaml.other b) = b
truthy (Yaml.seq Items.nil) = false
truthy (Yaml.seq (Items.item _ _)) = true
truthy (Yaml.mapping Entries.end) = false
truthy (Yaml.mapping (Entries.entry _ _ _)) = true

abbrev pub is_true : Option Yaml → Bool
is_true (some (Yaml.bool b)) = b
is_true _ = false

abbrev pub is_truthy : Option Yaml → Bool
is_truthy none = false
is_truthy (some v) = truthy v

-- `isinstance(v, dict)`, `isinstance(v, list)`, `v == text`
abbrev pub as_mapping : Option Yaml → Option Entries
as_mapping (some (Yaml.mapping m)) = some m
as_mapping _ = none

abbrev pub as_seq : Option Yaml → Option (List Yaml)
as_seq (some (Yaml.seq vs)) = some (items vs)
as_seq _ = none

abbrev pub is_text : Text → Option Yaml → Bool
is_text t (some (Yaml.str s)) = text_eq s t
is_text t _ = false
