-- ===== src/App/Program/Excuses.antt =====
-- The process of app/main.cpp is ended by nothing but an exception of dump.
use yoru_speech.Common.{
  ℕ, ◌≡◌, refl, true, false, if◌then◌else◌, List, [], ◌∷◌, Option, none, some, Text, arith,
}
use yoru_speech.Common.{sym, lit}
use mathlib.Core.Path.{subst}
use yoru_speech.Core.Logger.{log, info}
use yoru_speech.Core.Event.{SessionId, Event}
use yoru_speech.Config.Toml.{TomlLibrary}
use yoru_speech.Speech.Transcript.{TranscriptionRequest, TranscriptionResult}
use yoru_speech.Session.Queue.{Queue}
use yoru_speech.Session.Silence.{Floats}
use yoru_speech.Session.Live.{LiveConfig, tick}
use yoru_speech.Session.Manager.{cancel_session, shutdown, set_activity_callback, poll_completed}
use yoru_speech.Ipc.Codec.{JsonLibrary, parse_message, encode_ack}
use yoru_speech.Ipc.Codec.Throwing.{CanThrow}
use yoru_speech.Ipc.Dispatcher.{Surroundings, Result, handle_line}
use yoru_speech.Ipc.Dispatcher.Replying.{HasReply, handle_line-HasReply}
use yoru_speech.Ipc.Server.{ClientId}
use yoru_speech.Ipc.Service.{
  Request, subscribe_events, unsubscribe_events, command, request_of, send_reply,
}
use yoru_speech.Ipc.Service.Replies.{IsExcused, broadcast-IsBroadcast}
use yoru_speech.App.Program.{
  Program, sending, publish_event, publish_events, reply, answered, serve, on_line, poll, tick_live,
}
use yoru_speech.App.Program.Delivery.{
  alive, alive_keeps, informed, errors, note, send_all, report_all, delivered, publish_event_lem,
}
use yoru_speech.App.Program.Steps.{
  Action, line, disconnected, polled, ticked, captured, notified, worked, with_sessions, act, step,
  run,
}
use yoru_speech.App.Program.Closing.{main_log, cancel, warn_dropped, drop_queued, shut_down}

module _ (json : JsonLibrary) (toml : TomlLibrary) (local_time : Text) (copy : Text → Option Text)
    {Sample : Type 0} where
  -- If an exception has ended the process, dump throws for some value.
  abbrev pub Excused : Program Sample → Type 0
  Excused p = IsExcused json p.terminated

  sent-Excused :
      (event : Event Sample) (p : Program Sample)
      → Excused (send_all json toml local_time copy event p)
  unfolding send_all sending
  sent-Excused event p = (broadcast-IsBroadcast json toml p.subscribed event).1

  report_all-Excused :
      (events : List (Event Sample)) (p : Program Sample)
      → Excused p
      → Excused (report_all json toml local_time copy events p)
  unfolding report_all
  report_all-Excused [] p v = v
  report_all-Excused (event ∷ events) p v =
      let report : Program Sample → Program Sample =
        λ q. send_all json toml local_time copy event (note json toml local_time copy event q) in
      report_all-Excused events (alive json toml local_time copy report p) (
        alive_keeps json toml local_time copy Excused report p v
          (sent-Excused event (note json toml local_time copy event p)))

  informed-terminated :
      (event : Event Sample) (p : Program Sample)
      → (informed json toml local_time copy event p).terminated ≡ p.terminated
  unfolding informed
  informed-terminated event p = ground arith

  informed-Excused :
      (event : Event Sample) (p : Program Sample)
      → Excused p
      → Excused (informed json toml local_time copy event (note json toml local_time copy event p))
  unfolding note
  informed-Excused event p v =
      subst (IsExcused json)
        (sym (informed-terminated event (note json toml local_time copy event p))) v

  publish_event-Excused :
      (event : Event Sample) (p : Program Sample)
      → Excused p
      → Excused (publish_event json toml local_time copy event p)
  unfolding delivered
  publish_event-Excused event p v =
      let deliver : Program Sample → Program Sample = λ q.
        let q' =
          informed json toml local_time copy event (note json toml local_time copy event q) in
        alive json toml local_time copy (send_all json toml local_time copy event)
          (report_all json toml local_time copy (errors json toml local_time copy event q') q') in
      let p' = informed json toml local_time copy event (note json toml local_time copy event p) in
      let q = report_all json toml local_time copy (errors json toml local_time copy event p') p' in
      rw (publish_event_lem json toml local_time copy event p) (
        alive_keeps json toml local_time copy Excused deliver p v (
          alive_keeps json toml local_time copy Excused (send_all json toml local_time copy event) q
            (report_all-Excused (errors json toml local_time copy event p') p'
              (informed-Excused event p v))
            (sent-Excused event q)))

  publish_events-Excused :
      (events : List (Event Sample)) (p : Program Sample)
      → Excused p
      → Excused (publish_events json toml local_time copy events p)
  unfolding publish_events
  publish_events-Excused [] p v = v
  publish_events-Excused (event ∷ events) p v =
      publish_events-Excused events (publish_event json toml local_time copy event p)
        (publish_event-Excused event p v)

  reply-Excused :
      (id : ClientId) (o : Option Text) (p : Program Sample)
      → (o ≡ none → CanThrow json)
      → Excused p
      → Excused (reply json toml local_time copy id o p)
  unfolding reply sending send_reply
  reply-Excused id none p h v =
      elim p.terminated as (λ t. Excused (if t then p else sending (send_reply id none) p)) [
        | true ↦ v
        | false ↦ h refl
      ]
  reply-Excused id (some text) p h v =
      elim p.terminated as (λ t. Excused (if t then p else sending (send_reply id (some text)) p)) [
        | true ↦ v
        | false ↦ tt
      ]

  -- A result that is there is excused.
  abbrev pub OptionExcused : Option (Program Sample) → Type 0
  OptionExcused none = Unit
  OptionExcused (some p) = Excused p

  answered-Excused :
      (id : ClientId) (p : Program Sample) (o : Result Sample)
      → HasReply json toml o
      → Excused p
      → OptionExcused (answered json toml local_time copy id p o)
  unfolding answered
  answered-Excused id p none h v = tt
  answered-Excused id p (some (daemon, events, o)) h v =
      reply-Excused id o
        (publish_events json toml local_time copy events (record p { daemon = daemon })) h
        (publish_events-Excused events (record p { daemon = daemon }) v)

  serve-Excused :
      (request : Request) (id : ClientId) (text : Text) (out : Surroundings) (p : Program Sample)
      → Excused p
      → OptionExcused (serve json toml local_time copy request id text out p)
  unfolding serve encode_ack
  serve-Excused subscribe_events id text out p v = reply-Excused id _ _ (λ h. (_, h)) v
  serve-Excused unsubscribe_events id text out p v = reply-Excused id _ _ (λ h. (_, h)) v
  serve-Excused command id text out p v =
      answered-Excused id p (handle_line json toml text out p.daemon)
        (handle_line-HasReply json toml text out p.daemon) v

  poll-Excused :
      (between : Queue Sample → Queue Sample) (p : Program Sample)
      → Excused p
      → Excused (poll json toml local_time copy between p)
  unfolding poll
  poll-Excused between p v =
      let (sessions, events, n) = poll_completed between p.daemon.sessions in
      publish_events-Excused events (record p { daemon = record p.daemon { sessions = sessions } })
        v

  cancel-Excused :
      (now : ℕ) (p : Program Sample) → Excused p → Excused (cancel json toml local_time copy now p)
  unfolding cancel
  cancel-Excused now p v =
      let (sessions, events, error) = cancel_session now p.daemon.sessions in
      publish_events-Excused events (record p { daemon = record p.daemon { sessions = sessions } })
        v

  warned-terminated :
      (dropped : List SessionId) (p : Program Sample)
      → (warn_dropped json toml local_time copy dropped (record p {
        daemon = record p.daemon { sessions = set_activity_callback false p.daemon.sessions };
      })).terminated
        ≡ p.terminated
  unfolding warn_dropped main_log
  warned-terminated dropped p = ground arith

  warned-Excused :
      (dropped : List SessionId) (p : Program Sample)
      → Excused p
      → Excused (
          warn_dropped json toml local_time copy dropped (record p {
            daemon = record p.daemon { sessions = set_activity_callback false p.daemon.sessions };
          }))
  warned-Excused dropped p v = subst (IsExcused json) (sym (warned-terminated dropped p)) v

  drop-Excused :
      (rest : Queue Sample → Queue Sample) (p : Program Sample)
      → Excused p
      → Excused (drop_queued json toml local_time copy rest p)
  unfolding drop_queued
  drop-Excused rest p v =
      let (sessions, events, dropped) = shutdown rest p.daemon.sessions in
      let p' : Program Sample = record p { daemon = record p.daemon { sessions = sessions } } in
      let q = publish_events json toml local_time copy events p' in
      let u = publish_events-Excused events p' v in
      alive_keeps json toml local_time copy Excused
        (λ r. warn_dropped json toml local_time copy dropped (record r {
          daemon = record r.daemon { sessions = set_activity_callback false r.daemon.sessions };
        }))
        q u (warned-Excused dropped q u)

  pub shut_down-Excused :
      (now : ℕ) (rest : Queue Sample → Queue Sample) (p : Program Sample)
      → Excused p
      → Excused (shut_down json toml local_time copy now rest p)
  unfolding shut_down
  shut_down-Excused now rest p v =
      let begun : Program Sample = record p {
        journal = log (lit "main") info local_time (lit "shutting down") p.journal;
      } in
      let idle = cancel json toml local_time copy now begun in
      let u = cancel-Excused now begun v in
      let dropped =
        alive json toml local_time copy (drop_queued json toml local_time copy rest) idle in
      let w =
        alive_keeps json toml local_time copy Excused (drop_queued json toml local_time copy rest)
          idle u (drop-Excused rest idle u) in
      alive_keeps json toml local_time copy Excused (poll json toml local_time copy (λ q. q))
        dropped w (poll-Excused (λ q. q) dropped w)

module _ (json : JsonLibrary) (toml : TomlLibrary) (local_time : Text) (copy : Text → Option Text)
    {Sample : Type 0} (floats : Floats Sample) (config : LiveConfig Sample)
    (backend : List Sample → TranscriptionRequest → TranscriptionResult) where
  act-Excused :
      (p : Program Sample) (action : Action Sample)
      → Excused json toml local_time copy p
      → OptionExcused json toml local_time copy
          (act json toml local_time copy floats config backend p action)
  unfolding act on_line tick_live with_sessions
  act-Excused p (line id text out) v =
      serve-Excused json toml local_time copy (request_of (parse_message json text)) id text out p v
  act-Excused p (disconnected id) v = v
  act-Excused p (polled between) v = poll-Excused json toml local_time copy between p v
  act-Excused p (ticked now late) v =
      let (live, events, window) = tick floats config backend now late p.daemon.sessions p.live in
      publish_events-Excused json toml local_time copy events (record p { live = live }) v
  act-Excused p (captured buffer) v = v
  act-Excused p (notified n) v = v
  act-Excused p (worked change) v = v

  step-Excused :
      (p : Program Sample) (action : Action Sample)
      → Excused json toml local_time copy p
      → OptionExcused json toml local_time copy
          (step json toml local_time copy floats config backend p action)
  unfolding step
  step-Excused p action v =
      elim p.terminated
        as (λ t.
          OptionExcused json toml local_time copy
            (if t then some p else act json toml local_time copy floats config backend p action)) [
              | true ↦ v
              | false ↦ act-Excused p action v
            ]

  then_run :
      (o : Option (Program Sample)) (actions : List (Action Sample))
      → OptionExcused json toml local_time copy o
      → ((p : Program Sample)
          → Excused json toml local_time copy p
          → OptionExcused json toml local_time copy
              (run json toml local_time copy floats config backend p actions))
      → OptionExcused json toml local_time copy (
          let r : Option (Program Sample) = elim o [
            | none ↦ none
            | some p ↦ run json toml local_time copy floats config backend p actions
          ] in
          r)
  then_run none actions v rest = tt
  then_run (some p) actions v rest = rest p v

  pub run-Excused :
      (p : Program Sample) (actions : List (Action Sample))
      → Excused json toml local_time copy p
      → OptionExcused json toml local_time copy
          (run json toml local_time copy floats config backend p actions)
  unfolding run
  run-Excused p [] v = v
  run-Excused p (action ∷ actions) v =
      then_run (step json toml local_time copy floats config backend p action) actions
        (step-Excused p action v) (λ q u. run-Excused q actions u)
