-- ===== src/App/Program/Closing.antt =====
-- The end of main in app/main.cpp, after the run loop. The server's stop is that of Ipc/Server.
use yoru_speech.Common.{
  Extends-refl, ℕ, ◌≡◌, refl, sym, ap, ◌∙◌, false, List, ◌++◌, Option, none, Text, lit, length,
  is_empty, Extends, to_string, if◌then◌else◌, arith,
}
use mathlib.Core.Path.{subst}
use yoru_speech.Core.Event.{SessionId, Event}
use yoru_speech.Core.Logger.{log, info, warn}
use yoru_speech.Config.Toml.{TomlLibrary}
use yoru_speech.Session.Lifecycle.{ServiceState, Session}
use yoru_speech.Session.Queue.{Queue}
use yoru_speech.Session.Manager.{
  Manager, cancel_session, shutdown, set_activity_callback, poll_completed,
}
use yoru_speech.Session.Manager.Invariant.{Agree, IsCoherent, cancel-IsCoherent, poll-IsCoherent}
use yoru_speech.Session.Manager.Reports.{drop_notices, shutdown_lem}
use yoru_speech.Session.Manager.Quiet.{cancel-AllPlain, shutdown-AllPlain, poll-AllQuiet}
use yoru_speech.Ipc.Codec.{JsonLibrary}
use yoru_speech.Ipc.Service.{broadcast_all}
use yoru_speech.Ipc.Dispatcher.{Daemon}
use yoru_speech.Session.Queue.{TranscriptionJob}
use yoru_speech.Ipc.Server.{ClientId}
use yoru_speech.Ipc.Service.{Sent, and_then}
use yoru_speech.App.Program.Sending.{sent_by, and_then_assoc, publish-After, publish-Extends}
use yoru_speech.App.Program.Same.{events-Same}
use yoru_speech.App.Program.Delivery.{alive, alive_keeps, alive_cases}
use yoru_speech.App.Program.{Program, publish_events, poll}

no_session :
    (state : ServiceState) (s : Option Session) (id : Option SessionId)
    → Agree state s id
    → state ≡ ServiceState.idle
    → (s ≡ none) × (id ≡ none)
no_session ServiceState.idle none none v e = (refl, refl)
no_session _ _ _ v e = ground arith

module _ (json : JsonLibrary) (toml : TomlLibrary) (local_time : Text) (copy : Text → Option Text)
    {Sample : Type 0} where
  unfoldable pub main_log : Text → Program Sample → Program Sample
  main_log message p = record p { journal = log (lit "main") warn local_time message p.journal }

  -- The dropped jobs are counted in the journal.
  unfoldable pub warn_dropped : List SessionId → Program Sample → Program Sample
  unfolding main_log
  warn_dropped dropped p =
      if is_empty dropped
      then p
      else main_log
          (lit "dropped "
            ++ (to_string (length dropped) ++ lit " queued transcription(s) at shutdown"))
          p

  unfoldable pub cancel : ℕ → Program Sample → Program Sample
  cancel now p =
      let (sessions, events, error) = cancel_session now p.daemon.sessions in
      publish_events json toml local_time copy events
        (record p { daemon = record p.daemon { sessions = sessions } })

  -- `rest` is what the worker does before join returns.
  unfoldable pub drop_queued : (Queue Sample → Queue Sample) → Program Sample → Program Sample
  unfolding warn_dropped alive
  drop_queued rest p =
      let (sessions, events, dropped) = shutdown rest p.daemon.sessions in
      alive json toml local_time copy
        (λ q. warn_dropped dropped (record q {
          daemon = record q.daemon { sessions = set_activity_callback false q.daemon.sessions };
        }))
        (publish_events json toml local_time copy events
          (record p { daemon = record p.daemon { sessions = sessions } }))

  -- From "shutting down" on.
  unfoldable pub shut_down : ℕ → (Queue Sample → Queue Sample) → Program Sample → Program Sample
  unfolding cancel drop_queued alive
  shut_down now rest p =
      let p' = record p {
        journal = log (lit "main") info local_time (lit "shutting down") p.journal;
      } in
      alive json toml local_time copy (poll json toml local_time copy (λ q. q))
        (alive json toml local_time copy (drop_queued rest) (cancel now p'))

  cancel_idle :
      (now : ℕ) (m : Manager Sample)
      → ((cancel_session now m).0.state ≡ ServiceState.idle)
        × ((cancel_session now m).0.queue ≡ m.queue)
  unfolding cancel_session
  cancel_idle now m = ground arith

  -- The session manager is coherent and idle.
  abbrev IsIdle : Program Sample → Type 0
  IsIdle p = IsCoherent p.daemon.sessions × (p.daemon.sessions.state ≡ ServiceState.idle)

  abbrev Cancels : Program Sample → Program Sample → Type 0
  Cancels p p' =
      IsIdle p'
      × (p'.daemon.sessions.queue ≡ p.daemon.sessions.queue)
      × (p'.subscribed ≡ p.subscribed)
      × ((events : List (Event Sample)) × (sent_by p'
            ≡ and_then (sent_by p) (broadcast_all json toml p.subscribed events)))

  cancel-Cancels :
      (now : ℕ) (p : Program Sample) → IsCoherent p.daemon.sessions → Cancels p (cancel now p)
  unfolding cancel
  cancel-Cancels now p v =
      let m = p.daemon.sessions in
      let (sessions, events, error) = cancel_session now m in
      let p' : Program Sample = record p { daemon = record p.daemon { sessions = sessions } } in
      let (d, s, t) = publish-After json toml local_time copy events p' (cancel-AllPlain now m) in
      let (state, queue) = cancel_idle now m in
      let (c, moves) = cancel-IsCoherent now m m.state m.active_session _ refl refl refl v in
      ((rw d c, rw d state), rw d queue, s, (events, t))

  -- The end of drop_queued sends nothing.
  warned :
      (dropped : List SessionId) (p : Program Sample)
      → let q : Program Sample = record p {
        daemon = record p.daemon { sessions = set_activity_callback false p.daemon.sessions };
      } in
        let p' = warn_dropped dropped q in (p'.daemon ≡ q.daemon) × (sent_by p' ≡ sent_by p)
  unfolding warn_dropped
  warned dropped p = ground arith

  abbrev Drops : Program Sample → Program Sample → Type 0
  Drops p p' =
      IsIdle p'
      × (sent_by p'
          ≡ and_then (sent_by p)
              (broadcast_all json toml p.subscribed (drop_notices p.daemon.sessions.queue.pending)))

  dropped-Drops :
      (rest : Queue Sample → Queue Sample) (p : Program Sample)
      → IsIdle p
      → Drops p (drop_queued rest p)
  unfolding drop_queued set_activity_callback
  dropped-Drops rest p v =
      let m = p.daemon.sessions in
      let (sessions, events, dropped) = shutdown rest m in
      let p' : Program Sample = record p { daemon = record p.daemon { sessions = sessions } } in
      let q = publish_events json toml local_time copy events p' in
      let (d, s, t) =
        publish-After json toml local_time copy events p' (shutdown-AllPlain rest m) in
      let (d', t') = warned dropped q in
      let idle : IsIdle p' =
        subst (λ r. IsCoherent r.0 × (r.0.state ≡ ServiceState.idle)) (sym (shutdown_lem rest m))
          v in
      let quiet : IsIdle q =
        subst
          (λ (x : Daemon Sample). IsCoherent x.sessions × (x.sessions.state ≡ ServiceState.idle))
          (sym d) idle in
      let sent : sent_by q
          ≡ and_then (sent_by p)
              (broadcast_all json toml p.subscribed (drop_notices m.queue.pending)) =
        t
        ∙ ap (λ r. and_then (sent_by p) (broadcast_all json toml p.subscribed r.1))
            (shutdown_lem rest m) in
      alive_keeps json toml local_time copy (Drops p)
        (λ r. warn_dropped dropped (record r {
          daemon = record r.daemon { sessions = set_activity_callback false r.daemon.sessions };
        }))
        q (quiet, sent)
        (
          subst
              (λ (x : Daemon Sample).
                IsCoherent x.sessions × (x.sessions.state ≡ ServiceState.idle))
              (sym d') quiet,
          t' ∙ sent,
        )

  drop-Drops :
      (rest : Queue Sample → Queue Sample) (p : Program Sample)
      → IsIdle p
      → Drops p (alive json toml local_time copy (drop_queued rest) p)
  unfolding and_then
  drop-Drops rest p v =
      alive_cases json toml local_time copy (Drops p) (drop_queued rest) p
        (λ e. (v, ground (arith, e))) (λ e. dropped-Drops rest p v)

  poll-IsIdle :
      (between : Queue Sample → Queue Sample) (p : Program Sample)
      → IsIdle p
      → IsIdle (poll json toml local_time copy between p)
        × Extends p.sends (poll json toml local_time copy between p).sends
  unfolding poll
  poll-IsIdle between p v =
      let m = p.daemon.sessions in
      let (sessions, events, n) = poll_completed between m in
      let p' : Program Sample = record p { daemon = record p.daemon { sessions = sessions } } in
      let (c, state) = poll-IsCoherent between m v.0 in
      let (d, clipboard, language, prompt) =
        events-Same json toml local_time copy events p' (poll-AllQuiet between m) in
      (
        subst
            (λ (x : Daemon Sample). IsCoherent x.sessions × (x.sessions.state ≡ ServiceState.idle))
            (sym d) (c, state ∙ v.1),
        publish-Extends json toml local_time copy events p',
      )

  ended-IsIdle :
      (p : Program Sample)
      → IsIdle p
      → let p' = alive json toml local_time copy (poll json toml local_time copy (λ q. q)) p in
        IsIdle p' × Extends p.sends p'.sends
  ended-IsIdle p v =
      alive_keeps json toml local_time copy (λ q. IsIdle q × Extends p.sends q.sends)
        (poll json toml local_time copy (λ q. q)) p (v, Extends-refl p.sends)
        (poll-IsIdle (λ q. q) p v)

  pub shut_down_lem :
      (now : ℕ) (rest : Queue Sample → Queue Sample) (p : Program Sample)
      → IsCoherent p.daemon.sessions
      → let p' = shut_down now rest p in
        (p'.daemon.sessions.state ≡ ServiceState.idle)
        × (p'.daemon.sessions.active_session ≡ none)
        × (p'.daemon.sessions.recorder.active_session ≡ none)
        × ((cancelled : List (Event Sample)) × Extends
              (and_then (sent_by p) (
                and_then (broadcast_all json toml p.subscribed cancelled) (
                  broadcast_all json toml p.subscribed
                    (drop_notices p.daemon.sessions.queue.pending)))).0
              p'.sends)
  unfolding shut_down
  shut_down_lem now rest p v =
      let begun : Program Sample = record p {
        journal = log (lit "main") info local_time (lit "shutting down") p.journal;
      } in
      let idle_program = cancel now begun in
      let (idle, queue, subscribed, (cancelled, sent)) = cancel-Cancels now begun v in
      let dropped = alive json toml local_time copy (drop_queued rest) idle_program in
      let (idle', sent') = drop-Drops rest idle_program idle in
      let ((coherent, state), later) = ended-IsIdle dropped idle' in
      let ended =
        alive json toml local_time copy (poll json toml local_time copy (λ q. q)) dropped in
      let (no_active, no_recording) =
        no_session ended.daemon.sessions.state ended.daemon.sessions.active_session
          ended.daemon.sessions.recorder.active_session coherent state in
      let notices : List ClientId → List (TranscriptionJob Sample) → Sent =
        λ ids jobs. broadcast_all json toml {Sample = Sample} ids (drop_notices jobs) in
      let waiting = p.daemon.sessions.queue.pending in
      let same : sent_by dropped
          ≡ and_then (sent_by p) (
              and_then (broadcast_all json toml p.subscribed cancelled)
                (notices p.subscribed waiting)) =
        sent'
        ∙ ap
            (λ (q : Queue Sample).
              and_then (sent_by idle_program) (notices idle_program.subscribed q.pending))
            queue
        ∙ ap (λ ids. and_then (sent_by idle_program) (notices ids waiting)) subscribed
        ∙ ap (λ l. and_then l (notices p.subscribed waiting)) sent
        ∙ and_then_assoc (sent_by p) (broadcast_all json toml p.subscribed cancelled)
            (notices p.subscribed waiting) in
      (
        state,
        no_active,
        no_recording,
        (cancelled, subst (λ (l : Sent). Extends l.0 ended.sends) same later),
      )
