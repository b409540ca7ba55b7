-- ===== src/Domain/Json.antt =====
-- `serde_json::Value` as the audit log uses it. A `Uuid` is written as its text, which is kept as
-- the number that it stands for; numbers are the integers that the code writes.
use edustell.Common.{ℕ, String, Option, none, some, ℤ, Bool}

mutual
  pub data Json : Type 0 where
    null : Json
    bool : Bool → Json
    number : ℤ → Json
    string : String → Json
    uuid : ℕ → Json
    array : Items → Json
    object : Members → Json

  pub data Items : Type 0 where
    nil : Items
    item : Json → Items → Items

  pub data Members : Type 0 where
    end : Members
    member : String → Json → Members → Members

-- How `json!` writes an `Option`.
abbrev pub optional_string : Option String → Json
optional_string none = null
optional_string (some s) = string s

abbrev pub optional_uuid : Option ℕ → Json
optional_uuid none = null
optional_uuid (some u) = uuid u
