-- ===== src/Audit/Log/Placeholders.antt =====
-- Every placeholder of the audit log's queries has its parameter.
use buchi_maker.Common.{
  Bool-cases, length, All, All-append, length-append, marks, marks-append, ℕ, String, ◌≡◌, refl,
  inl, inr, Option, none, some, List, [], ◌∷◌, arith, ◌==◌,
}
use buchi_maker.Audit.Log.{
  Param, number, time, Filters, Query, search_part, method_part, value_part, parts, all_params,
  joined, build_where, count_query, page_query, export_query,
}

abbrev pub IsBalanced : Query → Type 0
IsBalanced q = marks q.0 ≡ length q.1

search-IsBalanced : (o : Option String) → All IsBalanced (search_part o)
search-IsBalanced none = tt
search-IsBalanced (some s) = elim (Bool-cases (s == "")) [
  | inl e ↦ rw e tt
  | inr e ↦ rw e (refl, tt)
]

method-IsBalanced : (o : Option String) → All IsBalanced (method_part o)
method-IsBalanced none = tt
method-IsBalanced (some s) = elim (Bool-cases (s == "")) [
  | inl e ↦ rw e tt
  | inr e ↦ rw e (refl, tt)
]

value-IsBalanced :
    (condition : String) (param : ℕ → Param) (o : Option ℕ)
    → marks condition ≡ 1
    → All IsBalanced (value_part condition param o)
value-IsBalanced condition param none h = tt
value-IsBalanced condition param (some v) h = (h, tt)

parts-IsBalanced : (f : Filters) → All IsBalanced (parts f)
unfolding parts
parts-IsBalanced f =
    All-append IsBalanced _ _
      (All-append IsBalanced _ _
        (All-append IsBalanced _ _
          (All-append IsBalanced _ _ (search-IsBalanced f.search) (method-IsBalanced f.method))
          (value-IsBalanced "status_code = ?" number f.status_code refl))
        (value-IsBalanced "ts >= ?" time f.date_from refl))
      (value-IsBalanced "ts <= ?" time f.date_to refl)

joined-IsBalanced : (ps : List Query) → All IsBalanced ps → IsBalanced (joined ps)
joined-IsBalanced [] h = refl
joined-IsBalanced (p ∷ []) h = ground (arith, h.0, length-append p.1 [])
joined-IsBalanced (p ∷ q ∷ ps) (h, k) =
    simp (marks-append, length-append)
      (ground (arith, h, joined-IsBalanced (q ∷ ps) k, length-append q.1 (all_params ps)))

build_where-IsBalanced : (f : Filters) → IsBalanced (build_where f)
unfolding build_where
build_where-IsBalanced f = joined-IsBalanced (parts f) (parts-IsBalanced f)

-- Whatever filters are set, each query of the audit log holds as many placeholders as there are
-- parameters: the count and the page of a listing, and the export.
pub queries-IsBalanced :
    (f : Filters) (limit offset : ℕ)
    → IsBalanced (count_query f)
      × IsBalanced (page_query f limit offset)
      × IsBalanced (export_query f limit)
unfolding count_query page_query export_query
queries-IsBalanced f limit offset =
    let balanced = build_where-IsBalanced f in
    (
      simp marks-append (ground (arith, balanced)),
      simp (marks-append, length-append) (ground (arith, balanced)),
      simp (marks-append, length-append) (ground (arith, balanced)),
    )
