-- ===== src/Endpoint/Widget.antt =====
-- backend/app/api/dashboards.py: get_widget_page and export_widget_csv, one widget's rows past the cache.
use buchi_maker.Common.{
  format, Dict, Result, ◌>>=◌, ◌>>◌, map_err, ok, ℕ, String, some, List, [], ◌∷◌,
}
use buchi_maker.Json.{Json}
use buchi_maker.Validator.{HttpError, raise_if_invalid_name}
use buchi_maker.Dashboard.{Definition, Condition}
use buchi_maker.Dashboard.Parse.{parse_widget_filters}
use buchi_maker.Dashboard.Page.{
  Failure, value_error, key_error, Counting, Page, Export, get_widget_page, export_widget_csv,
}
use buchi_maker.Endpoint.{Server, Codec, Body, found_dashboard, check_body, parse_failed}

-- TablePageRequest
pub record PageRequest : Type 0 where
  pub filters : Dict Json
  pub limit : ℕ
  pub offset : ℕ

-- What is written into the response, before it is compressed.
pub record PagePayload : Type 0 where
  pub dashboard_id : String
  pub widget_id : String
  pub limit : ℕ
  pub offset : ℕ
  pub page : Page

-- a ValueError is the caller's fault, any other exception the server's
unfoldable pub http_of : Codec → Failure → HttpError
http_of codec (value_error detail) = record { status = 400; detail = detail }
http_of codec key_error = record {
  status = 500;
  detail = format ("Query failed: " ∷ codec.query_error ∷ []);
}

-- the file name of an export, and what it holds
pub record Attachment : Type 0 where
  pub filename : String
  pub export : Export

abbrev pub export_limit : ℕ
export_limit = 100000

module _ (codec : Codec) (server : Server) where
  -- the conditions of the request's filters
  unfoldable pub parsed : Definition → Dict Json → Result HttpError (List Condition)
  parsed dash filters = do
    r ← map_err parse_failed (parse_widget_filters codec.encoding dash filters)
    ok r.0

  -- `counting` is the database, with the numbers that its counts give
  unfoldable pub post_widget_page :
      Counting → (dashboard_id widget_id : String) → PageRequest → Result HttpError PagePayload
  post_widget_page counting dashboard_id widget_id body = do
    raise_if_invalid_name dashboard_id "dashboard_id"
    raise_if_invalid_name widget_id "widget_id"
    dash ← found_dashboard codec server dashboard_id
    conditions ← parsed dash body.filters
    page ← map_err (http_of codec) (
        get_widget_page counting codec.encoding.repr dash widget_id conditions body.limit
          body.offset)
    ok (record {
      dashboard_id = dashboard_id;
      widget_id = widget_id;
      limit = body.limit;
      offset = body.offset;
      page = page;
    })

  unfoldable pub post_widget_export :
      (dashboard_id widget_id : String) → Body → Result HttpError Attachment
  post_widget_export dashboard_id widget_id body = do
    raise_if_invalid_name dashboard_id "dashboard_id"
    raise_if_invalid_name widget_id "widget_id"
    dash ← found_dashboard codec server dashboard_id
    check_body codec server (some body) dashboard_id
    conditions ← parsed dash body.filters
    export ← map_err (http_of codec) (
        export_widget_csv server.database codec.encoding.repr dash widget_id conditions
          export_limit)
    ok (record {
      filename = format ("export_" ∷ dashboard_id ∷ "_" ∷ widget_id ∷ ".csv" ∷ []);
      export = export;
    })
