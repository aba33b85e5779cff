-- ===== src/Session/Lifecycle.antt =====
-- domains/session/service_state.hpp, service_state.cpp, session.hpp and session.cpp.
pub mod Progress
use yoru_speech.Common.{ℕ, Bool, true, false, Option, none, some, if◌then◌else◌}
use yoru_speech.Core.Event.{SessionId}

pub data ServiceState : Type 0 where
  idle recording processing error : ServiceState

-- can_transition(ServiceState, ServiceState).
unfoldable pub can_change : ServiceState → ServiceState → Bool
can_change idle recording = true
can_change idle _ = false
can_change recording processing = true
can_change recording idle = true
can_change recording error = true
can_change recording _ = false
can_change processing idle = true
can_change processing error = true
can_change processing _ = false
can_change error idle = true
can_change error _ = false

pub data SessionState : Type 0 where
  created recording processing completed failed : SessionState

unfoldable pub can_transition : SessionState → SessionState → Bool
can_transition created recording = true
can_transition created _ = false
can_transition recording processing = true
can_transition recording failed = true
can_transition recording _ = false
can_transition processing completed = true
can_transition processing failed = true
can_transition processing _ = false
can_transition completed _ = false
can_transition failed _ = false

abbrev pub is_terminal : SessionState → Bool
is_terminal completed = true
is_terminal failed = true
is_terminal _ = false

pub record Session : Type 0 where
  pub id : SessionId
  pub state : SessionState
  pub created_at : ℕ
  pub finished_at : Option ℕ

unfoldable pub create : SessionId → ℕ → Session
create id now = record { id = id; state = created; created_at = now; finished_at = none }

unfoldable pub try_transition : Session → SessionState → ℕ → Session × Bool
unfolding can_transition
try_transition s next now =
    if can_transition s.state next
    then (
      record s { state = next; finished_at = if is_terminal next then some now else s.finished_at },
      true,
    )
    else (s, false)
