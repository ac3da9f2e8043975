-- ===== src/Mpas/Json.antt =====
-- `JsonValue` of sdk/protocol/src/types/mpas.ts, over a type of numbers. An object is a list of its
-- members; `JSON.parse` gives an object whose keys are distinct.
use mpas.Prelude.{Bool, String, List, [], ◌∷◌}

mutual
  pub data Json (N : Type 0) : Type 0 where
    null : Json N
    bool : Bool → Json N
    num : N → Json N
    str : String → Json N
    arr : Items N → Json N
    obj : Members N → Json N

  pub data Items (N : Type 0) : Type 0 where
    nil : Items N
    cons : Json N → Items N → Items N

  pub data Members (N : Type 0) : Type 0 where
    end : Members N
    member : String → Json N → Members N → Members N

abbrev pub items : {N : Type 0} → Items N → List (Json N)
items nil = []
items (cons v vs) = v ∷ items vs

abbrev pub members : {N : Type 0} → Members N → List (String × Json N)
members end = []
members (member k v ms) = (k, v) ∷ members ms
