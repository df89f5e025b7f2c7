-- ===== src/Dashboard/Page/Relation.antt =====
-- What the two queries of a page read from.
use buchi_maker.Common.{
  if◌then◌else◌, Bool-cases, Option-cases, format, ℕ, String, ◌≡◌, sym, ap, ◌∙◌, inl, inr, not,
  ◌&&◌, none, some, [], ◌∷◌, ◌==◌,
}
use Prim.Native.String
use text.Mathlib.TextLemmas.{append-nil, append_assoc}
use buchi_maker.Python.Replace.{show_nat}
use buchi_maker.Dashboard.{Definition, Widget, Aggregate}
use buchi_maker.Dashboard.Where.{Part}
use buchi_maker.Dashboard.Widgets.{is_flagged}
use buchi_maker.Dashboard.Query.{applies, inject}
use buchi_maker.Dashboard.Page.{
  Plan, find_aggregate, plan_of_aggregate, plan_of_source, plan_of, paged_query,
}

-- What the widget's queries read from: the aggregate's query, filtered unless it is exempt, as a derived table; or a
-- raw source, by its name, with the clause behind it.
abbrev pub relation_of_aggregate : Definition → Widget → Part → Aggregate → String
relation_of_aggregate dash w part agg =
    if applies dash part.0 && not agg.unfiltered && not (is_flagged w)
    then format ("(" ∷ inject dash part.0 agg.query ∷ ") __agg" ∷ [])
    else format ("(" ∷ agg.query ∷ ") __agg" ∷ [])

abbrev pub relation_of_source : String → Widget → Part → String
relation_of_source data_key w part =
    if not (part.0 == "1=1") && not (is_flagged w)
    then format (data_key ∷ " WHERE " ∷ part.0 ∷ [])
    else data_key

abbrev pub relation_of : Definition → Widget → String → Part → String
relation_of dash w data_key part = elim (find_aggregate data_key dash.aggregates) [
  | some agg ↦ relation_of_aggregate dash w part agg
  | none ↦ relation_of_source data_key w part
]

-- The two queries of a plan read from this relation.
pub record Reads (plan : Plan) (relation : String) : Type 0 where
  pub body_is : plan.body ≡ format ("SELECT * FROM " ∷ relation ∷ [])
  pub count_is : plan.count_query ≡ format ("SELECT COUNT(*) FROM " ∷ relation ∷ [])

derived :
    (head inner : String)
    → format (String.◌++◌ head "(" ∷ inner ∷ ") __agg" ∷ [])
      ≡ format (head ∷ format ("(" ∷ inner ∷ ") __agg" ∷ []) ∷ [])
derived head inner =
    append_assoc head "(" (format (inner ∷ ") __agg" ∷ []))
    ∙ ap (λ x. String.◌++◌ head x) (sym (append-nil (format ("(" ∷ inner ∷ ") __agg" ∷ []))))

plan_of_aggregate-Reads :
    (dash : Definition) (w : Widget) (part : Part) (agg : Aggregate)
    → Reads (plan_of_aggregate dash w part agg) (relation_of_aggregate dash w part agg)
plan_of_aggregate-Reads dash w part agg =
    let filtered = inject dash part.0 agg.query in
    elim (Bool-cases (applies dash part.0 && not agg.unfiltered && not (is_flagged w))) [
      | inl e ↦ rw e (record {
        body_is = derived "SELECT * FROM " filtered;
        count_is = derived "SELECT COUNT(*) FROM " filtered;
      })
      | inr e ↦ rw e (record {
        body_is = derived "SELECT * FROM " agg.query;
        count_is = derived "SELECT COUNT(*) FROM " agg.query;
      })
    ]

plan_of_source-Reads :
    (data_key : String) (w : Widget) (part : Part)
    → Reads (plan_of_source data_key w part) (relation_of_source data_key w part)
plan_of_source-Reads data_key w part =
    elim (Bool-cases (not (part.0 == "1=1") && not (is_flagged w))) [
      | inl e ↦ rw e (record {
        body_is = simp (append-nil, append_assoc);
        count_is = simp (append-nil, append_assoc);
      })
      | inr e ↦ rw e (record {
        body_is = simp (append-nil, append_assoc);
        count_is = simp (append-nil, append_assoc);
      })
    ]

pub plan_of-Reads :
    (dash : Definition) (w : Widget) (data_key : String) (part : Part)
    → Reads (plan_of dash w data_key part) (relation_of dash w data_key part)
unfolding plan_of
plan_of-Reads dash w data_key part = elim (Option-cases (find_aggregate data_key dash.aggregates)) [
  | inl e ↦ rw (e, plan_of, relation_of) (plan_of_source-Reads data_key w part)
  | inr (agg, e) ↦ rw (e, plan_of, relation_of) (plan_of_aggregate-Reads dash w part agg)
]

pub paged_query-Reads :
    (plan : Plan) (relation : String) (limit offset : ℕ)
    → Reads plan relation
    → paged_query plan limit offset
      ≡ format (
          "SELECT * FROM "
          ∷ relation
          ∷ " LIMIT "
          ∷ show_nat limit
          ∷ " OFFSET "
          ∷ show_nat offset
          ∷ [])
paged_query-Reads plan relation limit offset r = rw r.body_is (simp (append-nil, append_assoc))
