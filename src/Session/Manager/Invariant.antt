-- ===== src/Session/Manager/Invariant.antt =====
-- The session manager never dereferences an empty session, keeps its parts in step, and changes its
-- stored state only along the table of service_state.cpp.
use yoru_speech.Common.{
  ℕ, ◌≡◌, refl, sym, ◌⊎◌, inl, inr, true, List, [], ◌∷◌, ◌++◌, Option, none, some, arith, lit,
  Bool-cases,
}
use yoru_speech.Core.Event.{SessionId, Event}
use yoru_speech.Config.Configuration.{Configuration}
use yoru_speech.Audio.Device.{Hardware}
use yoru_speech.Audio.Recorder
use yoru_speech.Session.Lifecycle.{ServiceState, Session, SessionState, try_transition, can_change}
use yoru_speech.Session.Lifecycle
use yoru_speech.Session.Queue.{
  Queue, cancel_pending, drain_started, drain_completed, TranscriptionJobResult,
}
use yoru_speech.Session.Manager.{
  Manager, create, configuration_changed, start_session, stop_session, poll_completed,
  publish_results, cancel_session, cancel_job, shutdown, set_activity_callback, StopSessionResult,
  session_error, stopped, publish_result,
}
use yoru_speech.Session.Manager.Steps.{
  Action, start, stop, cancel, cancel_queued, poll, shut, callback, configured, captured, notified,
  worked, step, run,
}

-- The stored state, the active session and the recording in progress agree.
abbrev pub Agree : ServiceState → Option Session → Option SessionId → Type 0
Agree ServiceState.idle none none = Unit
Agree ServiceState.recording (some s) (some id) = (s.state ≡ SessionState.recording) × (s.id ≡ id)
Agree ServiceState.error (some s) none = s.state ≡ SessionState.failed
Agree _ _ _ = ⊥

abbrev pub IsCoherent : {Sample : Type 0} → Manager Sample → Type 0
IsCoherent m = Agree m.state m.active_session m.recorder.active_session

abbrev pub Moves : ServiceState → ServiceState → Type 0
Moves a b = (a ≡ b) ⊎ (can_change a b ≡ true)

module _ {Sample : Type 0} where
  pub start-IsCoherent :
      (hw : Hardware) (now : ℕ) (m : Manager Sample) (st : ServiceState) (s : Option Session)
      (id : Option SessionId)
      → m.state ≡ st
      → m.active_session ≡ s
      → m.recorder.active_session ≡ id
      → Agree st s id
      → let m' = (start_session hw now m).0 in IsCoherent m' × Moves m.state m'.state
  unfolding start_session Recorder.start try_transition Lifecycle.create can_change
  start-IsCoherent hw now m ServiceState.idle none none e f g v = ground arith
  start-IsCoherent hw now m ServiceState.recording (some s) (some id) e f g v = ground arith
  start-IsCoherent hw now m ServiceState.error (some s) none e f g v = ground arith
  start-IsCoherent hw now m _ _ _ e f g v = absurd v

  pub stop-IsCoherent :
      (now : ℕ) (m : Manager Sample) (st : ServiceState) (s : Option Session)
      (id : Option SessionId)
      → m.state ≡ st
      → m.active_session ≡ s
      → m.recorder.active_session ≡ id
      → Agree st s id
      → (r : Manager Sample × List (Event Sample) × StopSessionResult) × (stop_session now m
          ≡ some r)
        × IsCoherent r.0
        × Moves m.state r.0.state
  unfolding stop_session Recorder.stop try_transition can_change
  stop-IsCoherent now m ServiceState.idle none none e f g v = (
    (m, [], session_error (lit "no session is recording")),
    ground arith,
    ground arith,
    ground arith,
  )
  stop-IsCoherent now m ServiceState.error (some s) none e f g v = (
    (m, [], session_error (lit "no session is recording")),
    ground arith,
    ground arith,
    ground arith,
  )
  stop-IsCoherent now m ServiceState.recording (some s) (some id) e f g v =
      (stopped now s m (Recorder.stop m.recorder), ground arith, ground arith, ground arith)
  stop-IsCoherent now m _ _ _ e f g v = absurd v

  pub cancel-IsCoherent :
      (now : ℕ) (m : Manager Sample) (st : ServiceState) (s : Option Session)
      (id : Option SessionId)
      → m.state ≡ st
      → m.active_session ≡ s
      → m.recorder.active_session ≡ id
      → Agree st s id
      → let m' = (cancel_session now m).0 in IsCoherent m' × Moves m.state m'.state
  unfolding cancel_session Recorder.stop can_change
  cancel-IsCoherent now m ServiceState.idle none none e f g v = ground arith
  cancel-IsCoherent now m ServiceState.recording (some s) (some id) e f g v = ground arith
  cancel-IsCoherent now m ServiceState.error (some s) none e f g v = ground arith
  cancel-IsCoherent now m _ _ _ e f g v = absurd v

  -- What publish_results leaves alone.
  publish_results_keeps :
      (rs : List TranscriptionJobResult) (m : Manager Sample)
      → let m' = (publish_results rs m).0 in
        (m'.state ≡ m.state)
        × (m'.active_session ≡ m.active_session)
        × (m'.recorder ≡ m.recorder)
        × (m'.queue ≡ m.queue)
  unfolding publish_results
  publish_results_keeps [] m = (refl, refl, refl, refl)
  publish_results_keeps (r ∷ rs) m = ground (arith, publish_results_keeps rs (publish_result r m).0)

  pub poll-IsCoherent :
      (between : Queue Sample → Queue Sample) (m : Manager Sample)
      → IsCoherent m
      → let m' = (poll_completed between m).0 in IsCoherent m' × (m'.state ≡ m.state)
  unfolding poll_completed
  poll-IsCoherent between m v =
      let k =
        publish_results_keeps (drain_completed m.queue).1
          (record m { queue = (drain_started (between (drain_completed m.queue).0)).0 }) in
      (rw (k.0, k.1, k.2) v, k.0)

  pub cancel_job-IsCoherent :
      (id : SessionId) (m : Manager Sample)
      → IsCoherent m
      → let m' = (cancel_job id m).0 in IsCoherent m' × (m'.state ≡ m.state)
  unfolding cancel_job
  cancel_job-IsCoherent id m v = elim (Bool-cases (cancel_pending id m.queue).1) [
    | inl e ↦ rw (e, cancel_job) (v, refl)
    | inr e ↦ rw (e, cancel_job) (v, refl)
  ]

  -- One step neither meets undefined behaviour nor leaves the invariant or the table.
  abbrev pub IsSafe : Manager Sample → Option (Manager Sample × List (Event Sample)) → Type 0
  IsSafe m o =
      (r : Manager Sample × List (Event Sample)) × (o ≡ some r)
      × IsCoherent r.0
      × Moves m.state r.0.state

  step-IsSafe : (m : Manager Sample) (a : Action Sample) → IsCoherent m → IsSafe m (step m a)
  unfolding step shutdown set_activity_callback configuration_changed Recorder.on_samples
  step-IsSafe m (start hw now) v =
      let p = start-IsCoherent hw now m m.state m.active_session _ refl refl refl v in
      (_, refl, p.0, p.1)
  step-IsSafe m (stop now) v =
      let (r, e, c, moves) = stop-IsCoherent now m m.state m.active_session _ refl refl refl v in
      ((r.0, r.1), rw e, c, moves)
  step-IsSafe m (cancel now) v =
      let p = cancel-IsCoherent now m m.state m.active_session _ refl refl refl v in
      (_, refl, p.0, p.1)
  step-IsSafe m (cancel_queued id) v =
      let p = cancel_job-IsCoherent id m v in (_, refl, p.0, inl (sym p.1))
  step-IsSafe m (poll between) v =
      let p = poll-IsCoherent between m v in (_, refl, p.0, inl (sym p.1))
  step-IsSafe m (shut rest) v = (_, refl, v, inl refl)
  step-IsSafe m (callback given) v = (_, refl, v, inl refl)
  step-IsSafe m (configured c) v = (_, refl, v, inl refl)
  step-IsSafe m (captured buffer) v = (_, refl, v, inl refl)
  step-IsSafe m (notified n) v = (_, refl, v, inl refl)
  step-IsSafe m (worked change) v = (_, refl, v, inl refl)

  run-IsCoherent :
      (m : Manager Sample) (as' : List (Action Sample))
      → IsCoherent m
      → (r : Manager Sample × List (Event Sample)) × (run m as' ≡ some r) × IsCoherent r.0
  unfolding run
  run-IsCoherent m [] v = ((m, []), refl, v)
  run-IsCoherent m (a ∷ as') v =
      let (r, e, c, moves) = step-IsSafe m a v in
      let (s, e', c') = run-IsCoherent r.0 as' c in ((s.0, r.1 ++ s.1), ground (arith, e, e'), c')

  -- After any history of a new manager, whatever the hardware, the audio thread and the worker did in
  -- between: no step has read an empty session; the stored state, the active session and the
  -- recording in progress agree (idle: neither; recording: a session that is recording, and a
  -- recording under its id; error: a failed session and no recording; never processing); and any next
  -- step is safe too and changes the stored state only as the table of can_transition allows.
  pub run-create-IsSafe :
      (configuration : Configuration) (capacity : ℕ) (as' : List (Action Sample))
      (a : Action Sample)
      → (r : Manager Sample × List (Event Sample)) × (run (create configuration capacity) as'
          ≡ some r)
        × IsCoherent r.0
        × IsSafe r.0 (step r.0 a)
  run-create-IsSafe configuration capacity as' a =
      let (r, e, c) =
        run-IsCoherent (create configuration capacity) as' (unfold create Recorder.create in tt) in
      (r, e, c, step-IsSafe r.0 a c)
