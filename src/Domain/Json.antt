-- ===== src/Domain/Json.antt =====
-- Values of `unknown` type: what `JSON.parse` hands to the request handlers, and payment metadata.
use queue_system.Prelude.{ℕ, Bool, String}

-- A JavaScript number as the validator tells them apart: a whole one, at least 0 or below it, or a
-- number that `Number.isInteger` refuses. `negative n` is -(n + 1).
pub data JsNumber : Type 0 where
  whole : ℕ → JsNumber
  negative : ℕ → JsNumber
  fractional : JsNumber

mutual
  pub data Json : Type 0 where
    null : Json
    boolean : Bool → Json
    number : JsNumber → Json
    text : String → Json
    array : Items → Json
    object : Fields → Json

  pub data Items : Type 0 where
    nil : Items
    cons : Json → Items → Items

  pub data Fields : Type 0 where
    end : Fields
    field : String → Json → Fields → Fields
