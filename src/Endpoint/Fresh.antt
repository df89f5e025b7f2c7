-- ===== src/Endpoint/Fresh.antt =====
-- post_dashboard_data with the cache: the second answer is the first one, until a data source is reloaded.
use buchi_maker.Common.{
  Option-cases, OnSome, elem, Dict, Result-cases, OnOk, OnOk-at, ok, ◌<◌, String, ◌≡◌, refl, ap,
  ◌∙◌, inl, inr, true, false, Option, none, some,
}
use buchi_maker.Redis.{Redis}
use buchi_maker.Cache.Stored.{get-set}
use buchi_maker.Cache.{Client, get, data_key, invalidate_datasource}
use buchi_maker.Cache.Index.{Sources}
use buchi_maker.Cache.Kept.{IsKept, set-IsKept}
use buchi_maker.Cache.Evicts.{evicted}
use buchi_maker.Dashboard.Query.{Data}
use buchi_maker.Endpoint.{
  Body, Server, Payload, Codec, Question, question_of, patched, hit, payload_of, compressed,
  data_of, store, answer_question, post_dashboard_data,
}
use buchi_maker.Endpoint.Answers.{post-valid, has_data, refused}

-- What gzip and json.dumps are documented to do: decompressing restores the bytes, and the only difference
-- that the mark makes to the text is the one word.
pub record IsCodec (codec : Codec) : Type 0 where
  pub restores : (s : String) → codec.gunzip (codec.gzip s) ≡ some s
  pub marks :
      (p : Payload)
      → codec.replace_once "\"from_cache\": false" "\"from_cache\": true"
          (codec.dumps (record p { from_cache = false }))
        ≡ codec.dumps (record p { from_cache = true })

module _ (codec : Codec) (server : Server) (r : Redis) where
  answer-miss :
      (c : Client r) (id : String) (q : Question) (d : Data)
      → get r false c id q.filter_hash ≡ none
      → data_of codec server q ≡ some d
      → answer_question codec server r false none c id q ≡ store codec server r none c id q (some d)
  unfolding answer_question
  answer-miss c id q d p e = rw (p, e, answer_question) refl

  answer-hit :
      (c : Client r) (id : String) (q : Question) (cached : String)
      → get r false c id q.filter_hash ≡ some cached
      → answer_question codec server r false none c id q
        ≡ record { answer = hit codec server (patched codec server cached); client = c }
  unfolding answer_question
  answer-hit c id q cached p = rw (p, answer_question) refl

  patched-compressed :
      (id h : String) (d : Data)
      → IsCodec codec
      → patched codec server (compressed codec server id h d)
        ≡ some (
            codec.gzip
              (codec.dumps (record (payload_of codec server id h d) { from_cache = true })))
  unfolding patched compressed
  patched-compressed id h d k =
      rw (k.restores (codec.dumps (payload_of codec server id h d)), patched, compressed)
        (ap (λ t. some (codec.gzip t)) (k.marks (payload_of codec server id h d)))

  first-miss :
      (c : Client r) (id : String) (body : Option Body) (params : Dict String) (q : Question)
      (d : Data)
      → question_of codec server id body params ≡ ok q
      → get r false c id q.filter_hash ≡ none
      → data_of codec server q ≡ some d
      → post_dashboard_data codec server r false none c id body params
        ≡ store codec server r none c id q (some d)
  first-miss c id body params q d p nothing e =
      post-valid codec server r false none c id body params q p ∙ answer-miss c id q d nothing e

  stored-found :
      (c : Client r) (id : String) (q : Question) (d : Data)
      → c.available ≡ true
      → get r false (store codec server r none c id q (some d)).client id q.filter_hash
        ≡ some (compressed codec server id q.filter_hash d)
  unfolding store
  stored-found c id q d on =
      get-set r c id q.filter_hash (compressed codec server id q.filter_hash d) d.source_tables
        server.redis_ttl_seconds on

  second-hit :
      (c : Client r) (id : String) (body : Option Body) (params : Dict String) (q : Question)
      (d : Data)
      → IsCodec codec
      → c.available ≡ true
      → question_of codec server id body params ≡ ok q
      → post_dashboard_data codec server r false none
          (store codec server r none c id q (some d)).client
          id
          body
          params
        ≡ record {
          answer = ok (record {
            content = codec.gzip (
                codec.dumps
                  (record (payload_of codec server id q.filter_hash d) { from_cache = true }));
            x_cache = "HIT";
          });
          client = (store codec server r none c id q (some d)).client;
        }
  second-hit c id body params q d k on p =
      let later = (store codec server r none c id q (some d)).client in
      post-valid codec server r false none later id body params q p
      ∙ answer-hit later id q (compressed codec server id q.filter_hash d)
          (stored-found c id q d on)
      ∙ ap (λ t. record { answer = hit codec server t; client = later })
          (patched-compressed id q.filter_hash d k)

  -- What the two answers to one request are, for the data `d`.
  abbrev pub IsServedTwice :
      Client r → String → Option Body → Dict String → Question → Data → Type 0
  IsServedTwice c id body params q d =
      let first = post_dashboard_data codec server r false none c id body params in
      let second = post_dashboard_data codec server r false none first.client id body params in
      let payload = payload_of codec server id q.filter_hash d in
      (first.answer ≡ ok (record { content = codec.gzip (codec.dumps payload); x_cache = "MISS" }))
      × ((second.answer
            ≡ ok (record {
              content = codec.gzip (codec.dumps (record payload { from_cache = true }));
              x_cache = "HIT";
            }))
          × (second.client ≡ first.client))

  -- A valid request that is not in the cache is answered from the database, and the same request right after it
  -- from the cache, with the same data and the mark of a hit; the second request leaves the cache as it is. The
  -- cache is connected and its server raises nothing.
  pub post-twice :
      (c : Client r) (id : String) (body : Option Body) (params : Dict String) (q : Question)
      → IsCodec codec
      → c.available ≡ true
      → question_of codec server id body params ≡ ok q
      → get r false c id q.filter_hash ≡ none
      → (d : Data) × ((data_of codec server q ≡ some d) × IsServedTwice c id body params q d)
  unfolding store compressed
  post-twice c id body params q k on p nothing =
      let (d, e) = has_data codec server r id body params q p in
      let first = first-miss c id body params q d p nothing e in
      let second = second-hit c id body params q d k on p in
      (d, (e, rw first (refl, (ap (λ x. x.answer) second, ap (λ x. x.client) second))))

  -- the payload's sources are among those that it is stored with
  abbrev pub IsCovered : Sources → String → Question → Type 0
  IsCovered uses id q =
      OnSome
        (λ (d : Data).
          (n : String) → uses (data_key id q.filter_hash) n ≡ true → elem n d.source_tables ≡ true)
        (data_of codec server q)

  answer-IsKept :
      (uses : Sources) (pos : 0 < server.redis_ttl_seconds) (c : Client r) (id : String)
      (q : Question) (d : Data)
      → data_of codec server q ≡ some d
      → ((n : String) → uses (data_key id q.filter_hash) n ≡ true → elem n d.source_tables ≡ true)
      → IsKept r server.redis_ttl_seconds uses pos c
      → IsKept r server.redis_ttl_seconds uses pos
          (answer_question codec server r false none c id q).client
  answer-IsKept uses pos c id q d e cover inv =
      elim (Option-cases (get r false c id q.filter_hash)) [
        | inr (cached, p) ↦ rw (answer-hit c id q cached p) inv
        | inl p ↦ rw (answer-miss c id q d p e) (
            unfold store in
            set-IsKept r server.redis_ttl_seconds uses pos c id q.filter_hash
              (compressed codec server id q.filter_hash d) d.source_tables cover inv)
      ]

  -- After a request, the index lists its answer under every source that it uses, if those are among the ones that
  -- the answer is stored with.
  pub post-IsKept :
      (uses : Sources) (pos : 0 < server.redis_ttl_seconds) (c : Client r) (id : String)
      (body : Option Body) (params : Dict String)
      → OnOk (IsCovered uses id) (question_of codec server id body params)
      → IsKept r server.redis_ttl_seconds uses pos c
      → IsKept r server.redis_ttl_seconds uses pos
          (post_dashboard_data codec server r false none c id body params).client
  post-IsKept uses pos c id body params covers inv =
      elim (Result-cases (question_of codec server id body params)) [
        | inr (x, p) ↦ rw (refused codec server r false none c id body params x p) inv
        | inl (q, p) ↦
            let (d, e) = has_data codec server r id body params q p in
            let cover =
              OnOk-at (IsCovered uses id) (question_of codec server id body params) q p covers in
            rw (post-valid codec server r false none c id body params q p)
              (answer-IsKept uses pos c id q d e (rw e at cover) inv)
      ]

  -- After a data source is reloaded, a request whose payload uses it is answered from the database as it is then.
  pub post-reloaded :
      (uses : Sources) (pos : 0 < server.redis_ttl_seconds) (c : Client r) (id n : String)
      (body : Option Body) (params : Dict String) (q : Question)
      → IsKept r server.redis_ttl_seconds uses pos c
      → question_of codec server id body params ≡ ok q
      → uses (data_key id q.filter_hash) n ≡ true
      → (d : Data) × ((data_of codec server q ≡ some d)
          × ((post_dashboard_data codec server r false none
                (invalidate_datasource r false c n)
                id
                body
                params).answer
              ≡ ok (record {
                content = compressed codec server id q.filter_hash d;
                x_cache = "MISS";
              })))
  unfolding store
  post-reloaded uses pos c id n body params q inv p u =
      let (d, e) = has_data codec server r id body params q p in
      (
        d,
        (
          e,
          ap (λ x. x.answer)
              (first-miss (invalidate_datasource r false c n) id body params q d p
                (evicted r server.redis_ttl_seconds uses pos c id q.filter_hash n u inv) e),
        ),
      )
