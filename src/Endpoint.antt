-- ===== src/Endpoint.antt =====
-- backend/app/api/dashboards.py: post_dashboard_data, the request for a dashboard's data.
pub mod Pinned
pub mod Answers
pub mod Fresh
pub mod Widget
mod Examples
use buchi_maker.Common.{
  eqb, if◌then◌else◌, format, Dict, lookup, insert, Result, ◌>>=◌, ◌>>◌, map_err, ok, err, ℕ, ◌-◌,
  ◌/◌, String, ap, Bool, true, false, not, ◌&&◌, Option, none, some, List, [], ◌∷◌, map, ◌==◌,
}
use Prim.Native.Char.{code}
use Prim.Native.String
use buchi_maker.Json.{Json, str}
use buchi_maker.Redis.{Redis}
use buchi_maker.Cache.{Client, get, set}
use buchi_maker.Validator.{HttpError, raise_if_invalid_name}
use buchi_maker.Python.Replace.{starts}
use buchi_maker.Dashboard.{Definition, Condition}
use buchi_maker.Dashboard.Parse.{
  Encoding, ParseError, value_error, type_error, parse_widget_filters,
}
use buchi_maker.Dashboard.Query.{Database, Data, get_data_for_filters}

-- the text before a final "]"
unfoldable pub before_bracket : String → Option String
before_bracket String.[] = none
before_bracket (String.◌∷◌ c s) = elim (before_bracket s) [
  | some t ↦ some (String.◌∷◌ c t)
  | none ↦ if eqb (code c) b']' && s == "" then some "" else none
]

-- the widget id of a query parameter `f[widget_id]`
unfoldable pub pinned_id : String → Option String
unfolding before_bracket
pinned_id (String.◌∷◌ a (String.◌∷◌ b s)) =
    if eqb (code a) b'f' && eqb (code b) b'[' then before_bracket s else none
pinned_id _ = none

-- merged_filters: the body's filters, updated with those of the query parameters
unfoldable pub pin : Dict Json → Dict String → Dict Json
unfolding pinned_id
pin found [] = found
pin found ((key, value) ∷ params) =
    pin (elim (pinned_id key) [ none ↦ found | some id ↦ insert id (str value) found ]) params

-- DashboardDataRequest
pub record Body : Type 0 where
  pub dashboard : Option String
  pub filters : Dict Json

abbrev pub body_filters : Option Body → Dict Json
body_filters none = []
body_filters (some b) = b.filters

-- what the server holds: the dashboards, the general settings and the database
pub record Server : Type 0 where
  pub dashboards : Dict Definition
  pub row_limit : ℕ
  pub redis_ttl_seconds : ℕ
  pub database : Database

pub record Payload : Type 0 where
  pub dashboard_id : String
  pub filter_hash : String
  pub from_cache : Bool
  pub row_limit : ℕ
  pub content : Data

-- gzip, which may raise on bytes that it has not written, json.dumps, the text of an exception, and bytes.replace(.., .., 1)
pub record Codec : Type 0 where
  pub encoding : Encoding
  pub gzip : String → String
  pub gunzip : String → Option String
  pub dumps : Payload → String
  pub replace_once : String → String → String → String
  pub query_error : String

pub record Response : Type 0 where
  pub content : String
  pub x_cache : String

pub record Reply (r : Redis) : Type 0 where
  pub answer : Result HttpError Response
  pub client : Client r

-- What a valid request asks for.
pub record Question : Type 0 where
  pub dashboard : Definition
  pub conditions : List Condition
  pub filter_hash : String

abbrev pub unprocessable : String → HttpError
unprocessable detail = record { status = 422; detail = detail }

-- how a request ends with an exception that is caught nowhere
abbrev pub internal_error : HttpError
internal_error = record { status = 500; detail = "Internal Server Error" }

-- how a request ends whose filters cannot be parsed: a TypeError is caught nowhere
abbrev pub parse_failed : ParseError → HttpError
parse_failed (value_error detail) = unprocessable detail
parse_failed type_error = internal_error

abbrev pub mismatch : Option Body → String → Option String
mismatch none dashboard_id = none
mismatch (some b) dashboard_id = elim b.dashboard [
  | none ↦ none
  | some d ↦ if not (d == "") && not (d == dashboard_id) then some d else none
]

module _ (codec : Codec) (server : Server) where
  unfoldable pub found_dashboard : String → Result HttpError Definition
  found_dashboard dashboard_id = elim (lookup dashboard_id server.dashboards) [
    | none ↦ err (record {
      status = 404;
      detail = format ("Dashboard '" ∷ dashboard_id ∷ "' not found." ∷ []);
    })
    | some dash ↦ ok dash
  ]

  unfoldable pub check_body : Option Body → String → Result HttpError (Unit {0})
  check_body body dashboard_id = elim (mismatch body dashboard_id) [
    | none ↦ ok tt
    | some d ↦ err (record {
      status = 400;
      detail = format (
          "Body 'dashboard' field '" ∷ d ∷ "' does not match path 'dashboard_id' '" ∷ dashboard_id
          ∷ "'." ∷ []);
    })
  ]

  -- everything before the cache
  unfoldable pub question_of : String → Option Body → Dict String → Result HttpError Question
  question_of dashboard_id body params = do
    raise_if_invalid_name dashboard_id "dashboard_id"
    dash ← found_dashboard dashboard_id
    check_body body dashboard_id
    parsed ←
        map_err parse_failed
          (parse_widget_filters codec.encoding dash (pin (body_filters body) params))
    ok (record { dashboard = dash; conditions = parsed.0; filter_hash = parsed.1 })

  -- the bytes of the cache, with the mark of a hit
  unfoldable pub patched : String → Option String
  patched cached = elim (codec.gunzip cached) [
    | none ↦ none
    | some text ↦
        some (codec.gzip (codec.replace_once "\"from_cache\": false" "\"from_cache\": true" text))
  ]

  abbrev pub hit : Option String → Result HttpError Response
  hit none = err internal_error
  hit (some content) = ok (record { content = content; x_cache = "HIT" })

  abbrev pub payload_of : String → String → Data → Payload
  payload_of dashboard_id filter_hash content = record {
    dashboard_id = dashboard_id;
    filter_hash = filter_hash;
    from_cache = false;
    row_limit = server.row_limit;
    content = content;
  }

  unfoldable pub compressed : String → String → Data → String
  compressed dashboard_id filter_hash content =
      codec.gzip (codec.dumps (payload_of dashboard_id filter_hash content))

  abbrev pub data_of : Question → Option Data
  data_of q =
      get_data_for_filters server.database codec.encoding.repr q.dashboard q.conditions
        server.row_limit

  module _ (r : Redis) where
    -- a response that was not in the cache is stored, whether the server of the cache fails or not
    unfoldable pub store : Option ℕ → Client r → String → Question → Option Data → Reply r
    store outage c dashboard_id q none = record {
      answer = err (record {
        status = 500;
        detail = format ("Data query failed: " ∷ codec.query_error ∷ []);
      });
      client = c;
    }
    store outage c dashboard_id q (some found) = record {
      answer =
          ok (record { content = compressed dashboard_id q.filter_hash found; x_cache = "MISS" });
      client =
          set r outage c dashboard_id q.filter_hash (compressed dashboard_id q.filter_hash found)
            found.source_tables server.redis_ttl_seconds;
    }

    unfoldable pub answer_question : Bool → Option ℕ → Client r → String → Question → Reply r
    answer_question fails outage c dashboard_id q =
        elim (get r fails c dashboard_id q.filter_hash) [
          | some cached ↦ record { answer = hit (patched cached); client = c }
          | none ↦ store outage c dashboard_id q (data_of q)
        ]

    -- `fails` and `outage` are the exceptions of the cache's server
    unfoldable pub post_dashboard_data :
        Bool → Option ℕ → Client r → String → Option Body → Dict String → Reply r
    post_dashboard_data fails outage c dashboard_id body params =
        elim (question_of dashboard_id body params) [
          | err e ↦ record { answer = err e; client = c }
          | ok q ↦ answer_question fails outage c dashboard_id q
        ]
