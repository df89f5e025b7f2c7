-- ===== src/Endpoint/Answers.antt =====
-- post_dashboard_data: a valid request has data, and a request that is not valid leaves the cache alone.
use buchi_maker.Common.{
  Option-cases, is_some, Dict, Result, map_err, OnOk, OnOk-bind, OnOk-at, OnOk-true, ok, err, ℕ,
  String, ◌≡◌, refl, inl, inr, Bool, true, Option, some, List,
}
use buchi_maker.Redis.{Redis}
use buchi_maker.Cache.{Client}
use buchi_maker.Validator.{HttpError, raise_if_invalid_name}
use buchi_maker.Dashboard.{Condition, Definition}
use buchi_maker.Dashboard.Parse.{parse_widget_filters}
use buchi_maker.Dashboard.Parse.Total.{parse-build_sql_where}
use buchi_maker.Dashboard.Where.{build_sql_where}
use buchi_maker.Dashboard.Query.{get_data_for_filters, Data}
use buchi_maker.Endpoint.{
  parse_failed, Body, Server, Codec, Question, pin, body_filters, found_dashboard, check_body,
  question_of, data_of, answer_question, post_dashboard_data,
}

OnOk-map_err {κ} :
    {E F A : Type 0} (P : A → Type κ) (g : E → F) (r : Result E A) → OnOk P r → OnOk P (map_err g r)
OnOk-map_err P g (ok a) h = h
OnOk-map_err P g (err e) h = tt

module _ (codec : Codec) (server : Server) where
  data_of-some :
      (q : Question)
      → is_some (build_sql_where q.conditions) ≡ true
      → is_some (data_of codec server q) ≡ true
  unfolding get_data_for_filters
  data_of-some q h = elim (Option-cases (build_sql_where q.conditions)) [
    | inl p ↦ absurd (cc (rw p at h))
    | inr (part, p) ↦ rw p refl
  ]

  -- a valid question has a WHERE clause
  question_of-data :
      (id : String) (body : Option Body) (params : Dict String)
      → OnOk
          (λ q. is_some (data_of codec server q) ≡ true)
          (question_of codec server id body params)
  unfolding question_of
  question_of-data id body params =
      let Q : Question → Type 0 = λ q. is_some (data_of codec server q) ≡ true in
      OnOk-bind (λ (n : String). Unit {0}) Q (raise_if_invalid_name id "dashboard_id") _
        (OnOk-true _)
        λ name _.
          OnOk-bind (λ (d : Definition). Unit {0}) Q (found_dashboard codec server id) _
            (OnOk-true _)
            λ dash _.
              OnOk-bind (λ (u : Unit {0}). Unit {0}) Q (check_body codec server body id) _
                (OnOk-true _)
                λ u _.
                  OnOk-bind (λ (p : List Condition × String). is_some (build_sql_where p.0) ≡ true)
                    Q
                    (map_err parse_failed
                      (parse_widget_filters codec.encoding dash (pin (body_filters body) params)))
                    _
                    (OnOk-map_err _ parse_failed
                      (parse_widget_filters codec.encoding dash (pin (body_filters body) params))
                      (parse-build_sql_where codec.encoding dash (pin (body_filters body) params)))
                    λ parsed h.
                      data_of-some
                        (record { dashboard = dash; conditions = parsed.0; filter_hash = parsed.1 })
                        h

module _ (codec : Codec) (server : Server) (r : Redis) where
  pub post-valid :
      (fails : Bool) (outage : Option ℕ) (c : Client r) (id : String) (body : Option Body)
      (params : Dict String) (q : Question)
      → question_of codec server id body params ≡ ok q
      → post_dashboard_data codec server r fails outage c id body params
        ≡ answer_question codec server r fails outage c id q
  unfolding post_dashboard_data
  post-valid fails outage c id body params q p = rw (p, post_dashboard_data) refl

  pub refused :
      (fails : Bool) (outage : Option ℕ) (c : Client r) (id : String) (body : Option Body)
      (params : Dict String) (e : HttpError)
      → question_of codec server id body params ≡ err e
      → post_dashboard_data codec server r fails outage c id body params
        ≡ record { answer = err e; client = c }
  unfolding post_dashboard_data
  refused fails outage c id body params e p = rw (p, post_dashboard_data) refl

  valid-data :
      (id : String) (body : Option Body) (params : Dict String) (q : Question)
      → question_of codec server id body params ≡ ok q
      → is_some (data_of codec server q) ≡ true
  valid-data id body params q p =
      OnOk-at (λ q. is_some (data_of codec server q) ≡ true)
        (question_of codec server id body params) q p (question_of-data codec server id body params)

  pub has_data :
      (id : String) (body : Option Body) (params : Dict String) (q : Question)
      → question_of codec server id body params ≡ ok q
      → (d : Data) × (data_of codec server q ≡ some d)
  has_data id body params q p =
      let h = valid-data id body params q p in
      elim (Option-cases (data_of codec server q)) [
        | inl e ↦ absurd (cc (rw e at h))
        | inr found ↦ found
      ]
