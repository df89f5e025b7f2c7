-- ===== src/Dashboard/Filters/Data.antt =====
-- Filter.get_data, and Dashboard.get_dashboard_data without a transport: the rows of a cached filter, cut off where
-- their JSON text gets too long.
use buchi_maker.Common.{
  ltb, if◌then◌else◌, Bool-cases, Option-cases, OnSome, lookup, insert, ℕ, ◌+◌, ◌*◌, ◌/◌, ◌≤◌, ◌<◌,
  String, ◌≡◌, refl, ap, subst, inl, inr, Bool, true, false, Option, none, some, List, [], ◌∷◌,
  ◌++◌, arith, ◌==◌,
}
use buchi_maker.Dashboard.Filters.{Filter, State}

-- DuckDB's rows of a table (`none` is an exception), and the bytes of the JSON text of a row and of all rows
-- (`none` for a value that json.dumps refuses).
pub record Reader (Row : Type 0) : Type 0 where
  pub select : String → Option (List Row)
  pub bytes : Row → Option ℕ
  pub payload_bytes : List Row → Option ℕ

pub record FilterData (Row : Type 0) : Type 0 where
  pub rows : List Row
  pub truncated : Bool
  pub truncated_at_mb : Option ℕ

module _ {Row : Type 0} (reader : Reader Row) where
  abbrev pub after : Row → Option (List Row) → Option (List Row)
  after row none = none
  after row (some rows) = some (row ∷ rows)

  -- the loop: `running` bytes have been taken
  unfoldable pub fitting : (limit running : ℕ) → List Row → Option (List Row)
  fitting limit running [] = some []
  fitting limit running (row ∷ rows) = elim (reader.bytes row) [
    | none ↦ none
    | some chunk ↦
        let rest = fitting limit (running + chunk) rows in
        if ltb limit (running + chunk) then some [] else after row rest
  ]

  abbrev pub nothing : FilterData Row
  nothing = record { rows = []; truncated = false; truncated_at_mb = none }

  abbrev pub cut : ℕ → Option (List Row) → FilterData Row
  cut truncate_mb none = nothing
  cut truncate_mb (some rows) = record {
    rows = rows;
    truncated = true;
    truncated_at_mb = some truncate_mb;
  }

  -- what the `try` returns; every exception ends in no rows
  unfoldable pub sized : ℕ → List Row → Option ℕ → FilterData Row
  sized truncate_mb rows none = nothing
  sized truncate_mb rows (some size) =
      if ltb (truncate_mb * (1024 * 1024)) size
      then cut truncate_mb (fitting (truncate_mb * (1024 * 1024)) 0 rows)
      else record { rows = rows; truncated = false; truncated_at_mb = none }

  unfoldable pub read_rows : ℕ → Option (List Row) → FilterData Row
  read_rows truncate_mb none = nothing
  read_rows truncate_mb (some rows) = sized truncate_mb rows (reader.payload_bytes rows)

  -- Filter.get_data, with the filter after it; `now` is in milliseconds
  unfoldable pub get_data : (now : ℕ) → ℕ → Filter → Filter × FilterData Row
  get_data now truncate_mb f =
      (record f { last_queried = now / 1000 }, read_rows truncate_mb (reader.select f.view_name))

  -- the filter part of get_dashboard_data: `hash` names a filter, or there are no rows
  unfoldable pub filter_part : (now : ℕ) → ℕ → Option String → State → State × FilterData Row
  filter_part now truncate_mb none s = (s, nothing)
  filter_part now truncate_mb (some hash) s =
      elim (if hash == "" then none else lookup hash s.filters) [
        | none ↦ (s, nothing)
        | some f ↦
            let (used, found) = get_data now truncate_mb f in
            (record s { filters = insert hash used s.filters }, found)
      ]

  abbrev size_of : Row → ℕ
  size_of row = elim (reader.bytes row) [ none ↦ 0 | some n ↦ n ]

  abbrev total : List Row → ℕ
  total [] = 0
  total (row ∷ rows) = size_of row + total rows

  -- The next row, if there is one, is too long.
  abbrev IsFull : ℕ → ℕ → List Row → Type 0
  IsFull limit used [] = Unit
  IsFull limit used (row ∷ rows) = limit < used + size_of row

  -- `kept` is a part at the start of the rows that fits on top of `running` bytes, and no longer one does.
  abbrev pub IsLongest : (limit running : ℕ) → List Row → List Row → Type 0
  IsLongest limit running rows kept =
      (rest : List Row) × ((rows ≡ kept ++ rest)
        × ((running + total kept ≤ limit) × IsFull limit (running + total kept) rest))

  after-OnSome :
      (P Q : List Row → Type 0) (row : Row) (o : Option (List Row))
      → OnSome P o
      → ((kept : List Row) → P kept → Q (row ∷ kept))
      → OnSome Q (after row o)
  after-OnSome P Q row none h k = tt
  after-OnSome P Q row (some kept) h k = k kept h

  longer-IsLongest :
      (limit running chunk : ℕ) (row : Row) (rows kept : List Row)
      → size_of row ≡ chunk
      → IsLongest limit (running + chunk) rows kept
      → IsLongest limit running (row ∷ rows) (row ∷ kept)
  longer-IsLongest limit running chunk row rows kept e (rest, (same, (fits, full))) =
      let sum : running + chunk + total kept ≡ running + (size_of row + total kept) =
        omega (arith, e) in
      (
        rest,
        (
          ap (λ (x : List Row). row ∷ x) same,
          (subst (λ (n : ℕ). n ≤ limit) sum fits, subst (λ (n : ℕ). IsFull limit n rest) sum full),
        ),
      )

  -- The rows that the loop keeps are the longest part at the start of all rows whose texts fit together.
  pub fitting-IsLongest :
      (limit running : ℕ) (rows : List Row)
      → running ≤ limit
      → OnSome (IsLongest limit running rows) (fitting limit running rows)
  unfolding fitting
  fitting-IsLongest limit running [] h = ([], (refl, (omega arith, tt)))
  fitting-IsLongest limit running (row ∷ rows) h = elim (Option-cases (reader.bytes row)) [
    | inl e ↦ rw (e, fitting) tt
    | inr (chunk, e) ↦
        let size : size_of row ≡ chunk = rw (e, size_of) refl in
        elim (Bool-cases (ltb limit (running + chunk))) [
          | inl q ↦ rw (e, q, fitting) (row ∷ rows, (refl, (omega arith, ground (arith, q, size))))
          | inr q ↦
              rw (e, q, fitting)
                (after-OnSome (IsLongest limit (running + chunk) rows)
                  (IsLongest limit running (row ∷ rows)) row _
                  (fitting-IsLongest limit (running + chunk) rows (ground (arith, q)))
                  λ kept. longer-IsLongest limit running chunk row rows kept size)
        ]
  ]
