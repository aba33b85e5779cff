-- ===== src/Session/Lifecycle/Progress.antt =====
-- What a session object can go through.
use yoru_speech.Common.{ℕ, ◌+◌, ◌≤◌, ◌≡◌, refl, true, false, List, [], ◌∷◌, has_value, arith}
use yoru_speech.Core.Event.{SessionId}
use yoru_speech.Session.Lifecycle.{
  SessionState, created, recording, processing, completed, failed, is_terminal, Session, create,
  try_transition,
}

-- Attempts to transition, with the number that succeeded.
unfoldable pub attempts : Session → List (SessionState × ℕ) → Session × ℕ
attempts s [] = (s, 0)
attempts s ((next, now) ∷ rest) =
    let (s', moved) = try_transition s next now in
    let (s'', n) = attempts s' rest in (s'', (elim moved [ true ↦ 1 | false ↦ 0 ]) + n)

-- How many transitions a state has before it at least.
abbrev rank : SessionState → ℕ
rank created = 0
rank recording = 1
rank processing = 2
rank completed = 3
rank failed = 3

abbrev IsStamped : Session → Type 0
IsStamped s = has_value s.finished_at ≡ is_terminal s.state

rank-le : (st : SessionState) → rank st ≤ 3
rank-le created = omega arith
rank-le _ = omega arith

try_transition_lem :
    (s : Session) (next : SessionState) (now : ℕ) (st : SessionState)
    → s.state ≡ st
    → IsStamped s
    → let (s', moved) = try_transition s next now in
      IsStamped s'
      × (s'.id ≡ s.id)
      × (s'.created_at ≡ s.created_at)
      × (rank s.state + (elim moved [ true ↦ 1 | false ↦ 0 ]) ≤ rank s'.state)
unfolding try_transition
try_transition_lem s created now created e h = ground arith
try_transition_lem s created now _ e h = ground arith
try_transition_lem s recording now created e h = ground arith
try_transition_lem s recording now _ e h = ground arith
try_transition_lem s processing now created e h = ground arith
try_transition_lem s processing now _ e h = ground arith
try_transition_lem s completed now created e h = ground arith
try_transition_lem s completed now _ e h = ground arith
try_transition_lem s failed now created e h = ground arith
try_transition_lem s failed now _ e h = ground arith

attempts_from :
    (s : Session) (as' : List (SessionState × ℕ))
    → IsStamped s
    → let (s', n) = attempts s as' in
      IsStamped s'
      × (s'.id ≡ s.id)
      × (s'.created_at ≡ s.created_at)
      × (rank s.state + n ≤ rank s'.state)
unfolding attempts
attempts_from s [] h = (h, refl, refl, omega arith)
attempts_from s ((next, now) ∷ rest) h =
    let p = try_transition_lem s next now s.state refl h in
    ground (arith, p, attempts_from (try_transition s next now).0 rest p.0)

-- Whatever transitions are attempted on a new session, it keeps its id and creation time, has a
-- finishing time exactly when it is Completed or Failed, and at most three attempts succeed.
pub attempts-create :
    (id : SessionId) (now : ℕ) (as' : List (SessionState × ℕ))
    → let (s, n) = attempts (create id now) as' in
      (has_value s.finished_at ≡ is_terminal s.state) × (s.id ≡ id) × (s.created_at ≡ now) × (n ≤ 3)
unfolding create
attempts-create id now as' =
    let p = attempts_from (create id now) as' refl in
    ground (arith, p, rank-le (attempts (create id now) as').0.state)
