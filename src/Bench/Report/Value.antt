-- ===== src/Bench/Report/Value.antt =====
-- JSON values, as the crate serde_json has them; numbers are u64 or `f64`.
use pulsemq_cli.Base.{ℕ, Bool, Bytes}

mutual
  pub data Json (F : Type 0) : Type 0 where
    null : Json F
    boolean : Bool → Json F
    number : ℕ → Json F
    real : F → Json F
    string : Bytes → Json F
    array : Items F → Json F
    object : Fields F → Json F

  pub data Items (F : Type 0) : Type 0 where
    no_items : Items F
    item : Json F → Items F → Items F

  pub data Fields (F : Type 0) : Type 0 where
    no_fields : Fields F
    field : Bytes → Json F → Fields F → Fields F
