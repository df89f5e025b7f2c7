-- ===== src/Dashboard/Page/Paging.antt =====
-- Pages cut the widget's rows into pieces without gaps or overlaps.
use buchi_maker.Common.{
  ltb, length, take, drop, format, ok_injective, ok, ℕ, zero, suc, ◌+◌, String, ◌≡◌, refl, sym, ap,
  ◌∙◌, some, List, [], ◌∷◌, ◌++◌, map, arith,
}
use Prim.Native.Nat.add
use buchi_maker.Json.{Json}
use buchi_maker.Python.Replace.{show_nat}
use buchi_maker.Dashboard.{Definition, Widget, Condition}
use buchi_maker.Dashboard.Where.{Part, build_sql_where}
use buchi_maker.Dashboard.Query.{row_dict}
use buchi_maker.Dashboard.Page.{
  Plan, bound, plan_of, Page, Counting, fetch_page, resolve_widget, get_widget_page,
}
use buchi_maker.Dashboard.Page.Relation.{relation_of, Reads, plan_of-Reads, paged_query-Reads}

-- SQL's LIMIT, OFFSET and COUNT(*) over one relation, whose rows are `all_rows`: a page is a piece of
-- them, and the count is their number.
pub record Serves (c : Counting) (relation : String) (params columns : List String)
    (all_rows : List (List Json)) (limit offset : ℕ) : Type 0 where
  pub page :
      c.db.execute
        (format (
          "SELECT * FROM "
          ∷ relation
          ∷ " LIMIT "
          ∷ show_nat limit
          ∷ " OFFSET "
          ∷ show_nat offset
          ∷ []))
        params
      ≡ some (record { columns = columns; rows = take limit (drop offset all_rows) })
  pub counts :
      c.count (format ("SELECT COUNT(*) FROM " ∷ relation ∷ [])) params ≡ some (length all_rows)

length-page :
    (limit offset : ℕ) (xs : List (List Json))
    → ltb (offset + length (take limit (drop offset xs))) (length xs)
      ≡ ltb (offset + limit) (length xs)
length-page zero zero xs = refl
length-page (suc l) zero [] = ground arith
length-page (suc l) zero (x ∷ xs) = ground (arith, length-page l zero xs)
length-page zero (suc o) [] = ground arith
length-page (suc l) (suc o) [] = ground arith
length-page l (suc o) (x ∷ xs) = ground (arith, length-page l o xs)

length-map {ℓ κ} :
    {A : Type ℓ} {B : Type κ} (f : A → B) (xs : List A) → length (map f xs) ≡ length xs
length-map f [] = refl
length-map f (x ∷ xs) = ap suc (length-map f xs)

take-add {ℓ} :
    {A : Type ℓ} (a b : ℕ) (xs : List A) → take (a + b) xs ≡ take a xs ++ take b (drop a xs)
take-add zero b xs = rw add.zero
take-add (suc a) zero [] = rw (add.suc a zero)
take-add (suc a) (suc b) [] = rw (add.suc a (suc b))
take-add (suc a) b (x ∷ xs) = rw (add.suc a b) (ap (λ t. x ∷ t) (take-add a b xs))

drop-drop {ℓ} : {A : Type ℓ} (o l : ℕ) (xs : List A) → drop (o + l) xs ≡ drop l (drop o xs)
drop-drop zero l xs = rw add.zero
drop-drop (suc o) zero [] = rw (add.suc o zero)
drop-drop (suc o) (suc l) [] = rw (add.suc o (suc l))
drop-drop (suc o) l (x ∷ xs) = rw (add.suc o l) (drop-drop o l xs)

map-append' {ℓ κ} :
    {A : Type ℓ} {B : Type κ} (f : A → B) (xs ys : List A) → map f (xs ++ ys) ≡ map f xs ++ map f ys
map-append' f [] ys = refl
map-append' f (x ∷ xs) ys = ap (λ t. f x ∷ t) (map-append' f xs ys)

-- the page that `Serves` promises
abbrev pub page_at : Plan → String → List String → List (List Json) → ℕ → ℕ → Page
page_at plan data_key columns all_rows limit offset = record {
  data_key = data_key;
  rows = map (row_dict plan.column_aliases [] columns) (take limit (drop offset all_rows));
  total_count = length all_rows;
  has_more = ltb (offset + limit) (length all_rows);
}

fetch_page-served :
    (c : Counting) (widget_id data_key : String) (plan : Plan) (relation : String) (part : Part)
    (columns : List String) (all_rows : List (List Json)) (limit offset : ℕ)
    → Reads plan relation
    → Serves c relation (bound plan part) columns all_rows limit offset
    → fetch_page c widget_id data_key plan part limit offset
      ≡ ok (page_at plan data_key columns all_rows limit offset)
unfolding fetch_page
fetch_page-served c widget_id data_key plan relation part columns all_rows limit offset k s =
    rw (paged_query-Reads plan relation limit offset k) (
      rw k.count_is (
        rw s.page (
          rw s.counts (
            rw
              (length-map (row_dict plan.column_aliases [] columns)
                (take limit (drop offset all_rows)))
              (rw (length-page limit offset all_rows) refl)))))

module _ (c : Counting) (repr : Json → String) (dash : Definition) (widget_id : String)
    (conditions : List Condition) (found : Widget × String) (part : Part) (columns : List String)
    (all_rows : List (List Json))
    (is_data : resolve_widget repr dash widget_id "Pagination is only supported for data widgets."
        "Only widgets backed by an aggregate or raw datasource can be paginated."
      ≡ ok found)
    (has_where : build_sql_where conditions ≡ some part) where
  abbrev pub IsServed : ℕ → ℕ → Type 0
  IsServed =
      Serves c (relation_of dash found.0 found.1 part)
        (bound (plan_of dash found.0 found.1 part) part) columns all_rows

  -- For a data widget, and conditions that have a WHERE clause, and a database in which SELECT with LIMIT and OFFSET
  -- cuts pages out of what the widget reads from, and COUNT(*) counts it, the page holds the rows from `offset` on, `limit` of them at most, with the display
  -- names; the total is the number of all rows, and there is more exactly if `offset + limit` is
  -- below it.
  pub get_widget_page-served :
      (limit offset : ℕ)
      → IsServed limit offset
      → get_widget_page c repr dash widget_id conditions limit offset
        ≡ ok (page_at (plan_of dash found.0 found.1 part) found.1 columns all_rows limit offset)
  unfolding get_widget_page
  get_widget_page-served limit offset s = rw is_data (
      rw has_where (
        fetch_page-served c widget_id found.1 (plan_of dash found.0 found.1 part)
          (relation_of dash found.0 found.1 part) part columns all_rows limit offset
          (plan_of-Reads dash found.0 found.1 part) s))

  is_page :
      (limit offset : ℕ) (p : Page)
      → IsServed limit offset
      → get_widget_page c repr dash widget_id conditions limit offset ≡ ok p
      → p ≡ page_at (plan_of dash found.0 found.1 part) found.1 columns all_rows limit offset
  is_page limit offset p s h = ok_injective (sym h ∙ get_widget_page-served limit offset s)

  -- For the same widget and database: the rows of a page and of the page after it are, one after the
  -- other, the rows of the single page that is as long as both.
  pub get_widget_page-append :
      (limit more offset : ℕ) (p q r : Page)
      → IsServed limit offset
      → IsServed more (offset + limit)
      → IsServed (limit + more) offset
      → get_widget_page c repr dash widget_id conditions limit offset ≡ ok p
      → get_widget_page c repr dash widget_id conditions more (offset + limit) ≡ ok q
      → get_widget_page c repr dash widget_id conditions (limit + more) offset ≡ ok r
      → p.rows ++ q.rows ≡ r.rows
  get_widget_page-append limit more offset p q r sp sq sr hp hq hr =
      rw
        (
          is_page limit offset p sp hp,
          is_page more (offset + limit) q sq hq,
          is_page (limit + more) offset r sr hr,
        )
        (rw (take-add limit more (drop offset all_rows))
          (rw (drop-drop offset limit all_rows) (rw map-append' refl)))
