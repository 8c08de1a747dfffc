-- ===== src/Json.antt =====
-- The values of type `unknown` and `Record<string, unknown>` that the program passes on: what
-- `JSON.parse` returns. A number is held as its JSON text, since nothing computes with it. The
-- entries of an object stand in their order of enumeration.
use bm_agents_world.Common.{String, Bool}

mutual
  pub data Json : Type 0 where
    null : Json
    boolean : Bool → Json
    number : String → Json
    text : String → Json
    arr : Items → Json
    obj : Fields → Json

  pub data Items : Type 0 where
    nil : Items
    cons : Json → Items → Items

  pub data Fields : Type 0 where
    end : Fields
    field : String → Json → Fields → Fields
