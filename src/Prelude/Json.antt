-- ===== src/Prelude/Json.antt =====
-- What serde is given: values with their fields in order.
use Prim.Native.Nat.{ℕ}
use mathlib.Core.Bool.{Bool}
use mathlib.Core.List.{List, [], ◌∷◌}
use scrutinizer.Prelude.Text.{Text}

mutual
  pub data Json : Type 0 where
    string : Text → Json
    boolean : Bool → Json
    number : ℕ → Json
    array : Items → Json
    object : Fields → Json

  pub data Items : Type 0 where
    nil : Items
    item : Json → Items → Items

  pub data Fields : Type 0 where
    end : Fields
    field : Text → Json → Fields → Fields

-- `collect_vec` of serialized elements.
abbrev pub items {ℓ} : {A : Type ℓ} → (A → Json) → List A → Items
items f [] = nil
items f (x ∷ xs) = item (f x) (items f xs)
