-- ===== src/System/Rate.antt =====
-- SystemManager.global_refresh: at most two refreshes a minute where a limit is asked for. Times are in milliseconds.
use buchi_maker.Common.{
  ltb, leb, if◌then◌else◌, length, keep, ℕ, ◌+◌, ◌≤◌, ◌≡◌, Bool, true, false, ◌&&◌, List, [], ◌∷◌,
  ◌++◌,
}

-- now - t < 60
abbrev pub is_recent : (now t : ℕ) → Bool
is_recent now t = ltb now (t + 60000)

-- The history after a call, and whether the call goes on.
unfoldable pub admit : (rate_limit : Bool) (now : ℕ) → List ℕ → List ℕ × Bool
admit rate_limit now history =
    let recent = keep (is_recent now) history in
    if rate_limit && leb 2 (length recent)
    then (recent, false)
    else if rate_limit
    then (recent ++ now ∷ [], true)
    else (recent, true)

-- Calls with a limit, one after the other: the history, and all the times at which one went on.
unfoldable pub calls : List ℕ → List ℕ → List ℕ → List ℕ
unfolding admit
calls history log [] = log
calls history log (now ∷ ts) =
    let (later, goes) = admit true now history in
    calls later (if goes then log ++ now ∷ [] else log) ts

-- No call comes before the one in front of it.
abbrev pub IsInOrder : ℕ → List ℕ → Type 0
IsInOrder before [] = Unit
IsInOrder before (t ∷ ts) = (before ≤ t) × IsInOrder t ts

-- the time of the last call
abbrev pub last_call : ℕ → List ℕ → ℕ
last_call before [] = before
last_call before (t ∷ ts) = last_call t ts

-- From the time `before` on, the history has the same recent times as the log, and these are two at most.
record IsLimited (before : ℕ) (history log : List ℕ) : Type 0 where
  agrees : (now : ℕ) → before ≤ now → keep (is_recent now) history ≡ keep (is_recent now) log
  few : (now : ℕ) → before ≤ now → length (keep (is_recent now) log) ≤ 2
