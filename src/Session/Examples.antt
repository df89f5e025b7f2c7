-- ===== src/Session/Examples.antt =====
-- The theorems on sessions and login states at concrete inputs.
use buchi_maker.Common.{ltb, if◌then◌else◌, ◌≡◌, refl, false, none, some, arith}
use buchi_maker.Redis.Memory.{memory, empty}
use buchi_maker.Session.{
  SessionData, FlowData, session_ttl_seconds, create_session, get_session, create_flow_state,
  pop_flow_state, wait, connected,
}
use buchi_maker.Session.Text.{sessions, flows}
use buchi_maker.Session.Lifetime.{get_session-create_session, pop_flow_state-once}

abbrev ann : SessionData
ann = record {
  subject = "u1";
  email = some "ann@example.org";
  name = "Ann";
  role = "Viewer";
  issued_at = 12;
}

abbrev login : FlowData
login = record { code_verifier = "v1"; nonce = "n1"; next_path = "/dashboards" }

get_session-create_session_example :
    get_session memory sessions flows false
      (wait memory sessions flows 28_799
        (create_session memory sessions flows false
          (connected memory sessions flows empty)
          "s1"
          ann).0)
      "s1"
    ≡ (if ltb 28_799 session_ttl_seconds then some ann else none)
get_session-create_session_example =
    get_session-create_session memory sessions flows empty "s1" ann 28_799 refl

pop_flow_state-once_example :
    let created =
      (create_flow_state memory sessions flows false
        (connected memory sessions flows empty)
        "st"
        login).0 in
    let first =
      pop_flow_state memory sessions flows false (wait memory sessions flows 299 created) "st" in
    (first.1 ≡ some login)
    × ((pop_flow_state memory sessions flows false (wait memory sessions flows 1 first.0) "st").1
        ≡ none)
pop_flow_state-once_example =
    pop_flow_state-once memory sessions flows empty "st" login 299 1 refl (omega arith)
