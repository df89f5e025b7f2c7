-- ===== src/Dashboard/Parse/Order.antt =====
-- The conditions come back in the order of their sort keys.
use buchi_maker.Common.{String, ◌≡◌, ◌≢◌, ◌⊎◌, true, List, [], ◌∷◌}
use Prim.Native.Nat.{Ordering, compare}
use Prim.Native.Nat.compare
use Prim.Native.String.compare as text_compare
use Prim.Native.String
use mathlib.Core.List.{Perm}
use mathlib.Core.List.Perm
use buchi_maker.Json.{Json}
use buchi_maker.Dashboard.{Condition, column_of, operator_of}
use buchi_maker.Dashboard.Parse.{Encoding, key_le}

unfoldable flip : Ordering → Ordering
flip Ordering.lt = Ordering.gt
flip Ordering.eq = Ordering.eq
flip Ordering.gt = Ordering.lt

module _ (enc : Encoding) where
  -- The column comes first, or it is the same and the operator comes first, or both are the same and the JSON
  -- text of the value does not come later.
  abbrev pub IsBefore : Condition → Condition → Type 0
  IsBefore c d =
      (String.compare (column_of c) (column_of d) ≡ Ordering.lt)
      ⊎ (column_of c ≡ column_of d)
        × ((String.compare (operator_of c) (operator_of d) ≡ Ordering.lt)
            ⊎ (operator_of c ≡ operator_of d)
              × (String.compare (enc.dumps_value c) (enc.dumps_value d) ≢ Ordering.gt))

  -- Each condition is before the next one.
  abbrev pub IsOrdered : List Condition → Type 0
  IsOrdered [] = Unit
  IsOrdered (c ∷ []) = Unit
  IsOrdered (c ∷ d ∷ ds) = IsBefore c d × IsOrdered (d ∷ ds)

  -- Each condition's key is at most the next one's.
  abbrev IsSorted : List Condition → Type 0
  IsSorted [] = Unit
  IsSorted (c ∷ []) = Unit
  IsSorted (c ∷ d ∷ ds) = (key_le enc c d ≡ true) × IsSorted (d ∷ ds)
