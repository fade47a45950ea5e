-- ===== src/Worker/Json.antt =====
-- The values that `JSON.parse` gives, as far as the worker (services/worker/src) looks into them.
use trapchat.Prelude.{ℕ, Bool, Option, none, some, String, str_eq, if◌then◌else◌}

mutual
  pub data Json : Type 0 where
    null : Json
    bool : Bool → Json
    number : ℕ → Json
    text : String → Json
    array : Items → Json
    object : Fields → Json

  pub data Items : Type 0 where
    nil : Items
    cons : Json → Items → Items

  pub data Fields : Type 0 where
    end : Fields
    field : String → Json → Fields → Fields

-- A property of an object; `none` is `undefined`.
unfoldable pub property : String → Fields → Option Json
property k end = none
property k (field j v fs) = if str_eq j k then some v else property k fs
