-- ===== src/Audit/Log.antt =====
-- backend/app/core/audit_db.py: the queries of the audit log.
pub mod Placeholders
use buchi_maker.Common.{
  if◌then◌else◌, all, format, join, ℕ, ◌+◌, ◌-◌, ◌*◌, ◌/◌, ◌%◌, ◌<◌, String, ap, Option, none, some,
  List, [], ◌∷◌, ◌++◌, map, ◌==◌,
}

-- What is bound to a placeholder: a text, a number, or a time, which the driver passes on as it is.
pub data Param : Type 0 where
  text : String → Param
  number : ℕ → Param
  time : ℕ → Param

-- the filters of the audit log; each may be missing
pub record Filters : Type 0 where
  pub search : Option String
  pub method : Option String
  pub status_code : Option ℕ
  pub date_from : Option ℕ
  pub date_to : Option ℕ

-- a query or a part of one, and its parameters
abbrev pub Query : Type 0
Query = String × List Param

abbrev pub search_part : Option String → List Query
search_part none = []
search_part (some s) =
    let like = text (format ("%" ∷ s ∷ "%" ∷ [])) in
    if s == "" then [] else ("(path ILIKE ? OR client_ip ILIKE ?)", like ∷ like ∷ []) ∷ []

abbrev pub method_part : Option String → List Query
method_part none = []
method_part (some m) = if m == "" then [] else ("method = ?", text m ∷ []) ∷ []

-- a filter that counts unless it is None
abbrev pub value_part : String → (ℕ → Param) → Option ℕ → List Query
value_part condition param none = []
value_part condition param (some v) = (condition, param v ∷ []) ∷ []

unfoldable pub parts : Filters → List Query
parts f =
    search_part f.search
    ++ method_part f.method
    ++ value_part "status_code = ?" number f.status_code
    ++ value_part "ts >= ?" time f.date_from
    ++ value_part "ts <= ?" time f.date_to

abbrev pub all_params : List Query → List Param
all_params [] = []
all_params (p ∷ ps) = p.1 ++ all_params ps

abbrev pub joined : List Query → Query
joined [] = ("1=1", [])
joined (p ∷ ps) = (join " AND " (map (λ (q : Query). q.0) (p ∷ ps)), all_params (p ∷ ps))

-- _build_where
unfoldable pub build_where : Filters → Query
unfolding parts
build_where f = joined (parts f)

-- the two queries of `query_page`
unfoldable pub count_query : Filters → Query
unfolding build_where
count_query f =
    let where_part = build_where f in
    (format ("SELECT COUNT(*) FROM audit_log WHERE " ∷ where_part.0 ∷ []), where_part.1)

unfoldable pub page_query : Filters → (limit offset : ℕ) → Query
unfolding build_where
page_query f limit offset =
    let where_part = build_where f in
    (
      format (
          "SELECT id, ts, client_ip, method, path, query, status_code, duration_ms, user_email FROM audit_log WHERE "
          ∷ where_part.0 ∷ " ORDER BY ts DESC LIMIT ? OFFSET ?" ∷ []),
      where_part.1 ++ number limit ∷ number offset ∷ [],
    )

-- the query of `export_csv`
unfoldable pub export_query : Filters → (limit : ℕ) → Query
unfolding build_where
export_query f limit =
    let where_part = build_where f in
    (
      format (
          "SELECT id, ts, client_ip, method, path, query, status_code, duration_ms, user_email FROM audit_log WHERE "
          ∷ where_part.0 ∷ " ORDER BY ts DESC LIMIT ?" ∷ []),
      where_part.1 ++ number limit ∷ [],
    )
