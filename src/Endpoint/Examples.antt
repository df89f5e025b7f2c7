-- ===== src/Endpoint/Examples.antt =====
-- Requests for the data of one small dashboard, with a cache in memory.
use buchi_maker.Common.{
  if◌then◌else◌, all, drop, join, marks, Dict, lookup, insert, values, ok, err, ◌-◌, ◌*◌, String,
  ◌≡◌, refl, ap, true, false, not, Option, none, some, [], ◌∷◌, map, arith, ◌==◌,
}
use buchi_maker.Json.{Json, str, obj, end, field}
use buchi_maker.Redis.Memory.{memory, empty}
use buchi_maker.Cache.{Client, get, invalidate_datasource}
use buchi_maker.Cache.Index.{Sources}
use buchi_maker.Cache.Kept.{IsKept}
use buchi_maker.Cache.Evicts.{empty-IsKept}
use buchi_maker.Python.Replace.{replace}
use buchi_maker.Dashboard.{Definition, Condition, compare, member, column_of}
use buchi_maker.Dashboard.Query.{Data}
use buchi_maker.Endpoint.{
  Body, Server, Codec, Question, Reply, pin, question_of, data_of, compressed, post_dashboard_data,
}
use buchi_maker.Endpoint.Pinned.{parameter, latest, pinned_or, pin-lookup}
use buchi_maker.Endpoint.Fresh.{IsCodec, IsServedTwice, post-twice, post-reloaded}

abbrev codec : Codec
codec = record {
  encoding = record {
    repr = λ v. "{}";
    dumps_value = λ c. elim c [
      | compare column operator value widget_id ↦ value
      | member column negated values widget_id ↦ join "," values
    ];
    digest = λ cs. join "," (map column_of cs);
  };
  gzip = λ s. s;
  gunzip = λ s. some s;
  dumps = λ p. if p.from_cache then "{\"from_cache\": true}" else "{\"from_cache\": false}";
  replace_once = replace;
  query_error = "";
}

codec-IsCodec : IsCodec codec
unfolding replace
codec-IsCodec = record { restores = λ s. refl; marks = λ p. refl }

abbrev dash : Definition
dash = record {
  id = "sales";
  source_table = "orders_view";
  summaries =
      record { name = "orders"; query = "SELECT COUNT(*) FROM orders_view"; unfiltered = false }
      ∷ [];
  aggregates = [];
  mappings = [];
  layout =
      record { kind = "dropdown_single"; id = "f1"; config = ("mapping", str "region") ∷ [] }
      ∷ record { kind = "tile"; id = "t1"; config = ("value", str "orders") ∷ [] }
      ∷ [];
}

abbrev server : Server
server = record {
  dashboards = ("sales", dash) ∷ [];
  row_limit = 1000;
  redis_ttl_seconds = 300;
  database = record { execute = λ sql ps. none; error = "no table" };
}

abbrev cache : Client memory
cache = record { available = true; store = empty }

abbrev params : Dict String
params = ("f[f1]", "north") ∷ ("page", "2") ∷ []

abbrev body : Option Body
body = some (record { dashboard = some "sales"; filters = ("f1", str "south") ∷ [] })

abbrev question : Question
question = record {
  dashboard = dash;
  conditions = compare "region" "eq" "north" "f1" ∷ [];
  filter_hash = "region";
}

asked : question_of codec server "sales" body params ≡ ok question
unfolding question_of buchi_maker.Validator.raise_if_invalid_name
    buchi_maker.Endpoint.found_dashboard lookup buchi_maker.Endpoint.check_body
    buchi_maker.Dashboard.Parse.parse_widget_filters pin buchi_maker.Common.insert
    buchi_maker.Json.str_of
asked = refl

nothing_yet : (k : String) → memory.value cache.store k ≡ none
unfolding lookup
nothing_yet k = refl

not_cached : get memory false cache "sales" "region" ≡ none
unfolding get lookup
not_cached = refl

abbrev uses : Sources
uses key name = "orders_view" == name

cache-IsKept : IsKept memory 300 uses (omega arith) cache
cache-IsKept = empty-IsKept memory 300 uses (omega arith) cache nothing_yet (λ k. refl)

pin-lookup_example :
    lookup "f1" (pin (("f1", str "south") ∷ []) params)
    ≡ pinned_or (lookup "f1" (("f1", str "south") ∷ [])) (latest (parameter "f1") params)
pin-lookup_example = pin-lookup (("f1", str "south") ∷ []) params "f1"

post-twice_example :
    (d : Data) × ((data_of codec server question ≡ some d)
      × IsServedTwice codec server memory cache "sales" body params question d)
post-twice_example =
    post-twice codec server memory cache "sales" body params question codec-IsCodec refl asked
      not_cached

post-reloaded_example :
    (d : Data) × ((data_of codec server question ≡ some d)
      × ((post_dashboard_data codec server memory false none
            (invalidate_datasource memory false cache "orders_view")
            "sales"
            body
            params).answer
          ≡ ok (record { content = compressed codec server "sales" "region" d; x_cache = "MISS" })))
post-reloaded_example =
    post-reloaded codec server memory uses (omega arith) cache "sales" "orders_view" body params
      question cache-IsKept asked refl
