-- ===== src/Dashboard/Load/Grid.antt =====
-- What the check of a widget's place establishes.
use buchi_maker.Common.{
  Bool-cases, OnOk, OnOk-map, ℕ, ◌+◌, ◌≤◌, String, ◌≡◌, subst, inl, inr, true, false, ◌&&◌, Option,
  none, some, arith,
}
use buchi_maker.Json.{Json, null, bool, num, str, arr, obj, Fields, fields}
use buchi_maker.Python.Number.{ℤ, pos, negsuc}
use buchi_maker.Dashboard.Load.Base.{
  Python, is_number, whole_of, sum_above, either_above, goes_beyond,
}
use buchi_maker.Dashboard.Load.Layout.{Names, got, check_cells, check_grid}

-- x + w ≤ n, for whole numbers.
abbrev pub IsWithin : ℤ → ℤ → ℕ → Type 0
IsWithin (pos x) (pos w) n = x + w ≤ n
IsWithin (pos x) (negsuc w) n = x ≤ n + (w + 1)
IsWithin (negsuc x) (pos w) n = w ≤ n + (x + 1)
IsWithin (negsuc x) (negsuc w) n = Unit

sum_above-IsWithin : (x w : ℤ) (n : ℕ) → sum_above x w n ≡ false → IsWithin x w n
unfolding sum_above
sum_above-IsWithin (pos x) (pos w) n h = ground (arith, h)
sum_above-IsWithin (pos x) (negsuc w) n h = ground (arith, h)
sum_above-IsWithin (negsuc x) (pos w) n h = ground (arith, h)
sum_above-IsWithin (negsuc x) (negsuc w) n h = tt

module _ (py : Python) (names : Names) where
  -- A widget lies within the columns, where its place and its width are whole numbers; where one of them is a
  -- fraction, the comparison of Python has said so.
  abbrev pub IsPlace : Option ℤ → Option ℤ → (x w : Json) → Type 0
  IsPlace (some a) (some b) x w = IsWithin a b names.grid_columns
  IsPlace (some a) none x w = py.exceeds x w names.grid_columns ≡ false
  IsPlace none b x w = py.exceeds x w names.grid_columns ≡ false

  -- A widget with two numbers for its place lies within the columns.
  abbrev pub IsOnGrid : Option Json → Type 0
  IsOnGrid grid =
      (fs : Fields)
      → grid ≡ some (obj fs)
      → is_number (got "x" (fields fs)) ≡ true
      → is_number (got "w" (fields fs)) ≡ true
      → IsPlace (whole_of (got "x" (fields fs))) (whole_of (got "w" (fields fs)))
          (got "x" (fields fs)) (got "w" (fields fs))

  either-IsPlace :
      (a b : Option ℤ) (x w : Json)
      → either_above (py.exceeds x w names.grid_columns) a b names.grid_columns ≡ false
      → IsPlace a b x w
  either-IsPlace (some a) (some b) x w h = sum_above-IsWithin a b names.grid_columns h
  either-IsPlace (some a) none x w h = h
  either-IsPlace none b x w h = h

  goes_beyond-IsPlace :
      (x w : Json)
      → goes_beyond py x w names.grid_columns ≡ false
      → IsPlace (whole_of x) (whole_of w) x w
  unfolding goes_beyond
  goes_beyond-IsPlace x w h = either-IsPlace (whole_of x) (whole_of w) x w h

  cells_lem :
      (kind id : String) (x w : Json)
      → OnOk
          (λ _. is_number x ≡ true → is_number w ≡ true → IsPlace (whole_of x) (whole_of w) x w)
          (check_cells py names kind id x w)
  unfolding check_cells
  cells_lem kind id x w =
      elim (Bool-cases (is_number x && is_number w && goes_beyond py x w names.grid_columns)) [
        | inl e ↦ rw e tt
        | inr e ↦ rw e (λ a b.
            let h : goes_beyond py x w names.grid_columns ≡ false = ground (arith, a, b, e) in
            goes_beyond-IsPlace x w h)
      ]

  pub check_grid-IsOnGrid :
      (kind id : String) (grid : Option Json)
      → OnOk (λ _. IsOnGrid grid) (check_grid py names kind id grid)
  unfolding check_grid
  check_grid-IsOnGrid kind id none = λ fs e. absurd (cc)
  check_grid-IsOnGrid kind id (some (obj gs)) =
      OnOk-map
        (λ _.
          is_number (got "x" (fields gs)) ≡ true
          → is_number (got "w" (fields gs)) ≡ true
          → IsPlace (whole_of (got "x" (fields gs))) (whole_of (got "w" (fields gs)))
              (got "x" (fields gs)) (got "w" (fields gs)))
        (λ _. IsOnGrid (some (obj gs))) (check_cells py names kind id _ _)
        (λ u h fs e.
          subst
            (λ hs.
              is_number (got "x" (fields hs)) ≡ true
              → is_number (got "w" (fields hs)) ≡ true
              → IsPlace (whole_of (got "x" (fields hs))) (whole_of (got "w" (fields hs)))
                  (got "x" (fields hs)) (got "w" (fields hs)))
            (cc) h)
        (cells_lem kind id (got "x" (fields gs)) (got "w" (fields gs)))
  check_grid-IsOnGrid kind id (some null) = tt
  check_grid-IsOnGrid kind id (some (bool b)) = tt
  check_grid-IsOnGrid kind id (some (num n)) = tt
  check_grid-IsOnGrid kind id (some (str s)) = tt
  check_grid-IsOnGrid kind id (some (arr vs)) = tt
