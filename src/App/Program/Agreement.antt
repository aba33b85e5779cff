-- ===== src/App/Program/Agreement.antt =====
-- The settings that the components of app/main.cpp work with are those of the configuration manager.
use yoru_speech.Common.{
  true, false, if◌then◌else◌, ℕ, ◌≡◌, refl, sym, ap, ◌∙◌, inl, inr, List, [], ◌∷◌, Option, none,
  some, Text, arith,
}
use mathlib.Core.Path.{subst}
use yoru_speech.Core.Event.{Event, configuration_changed}
use yoru_speech.Config.Configuration.{Configuration}
use yoru_speech.Config.Toml.{TomlLibrary}
use yoru_speech.Config.Store.{current}
use yoru_speech.Config.Store
use yoru_speech.Clipboard.Auto
use yoru_speech.Speech.Transcript.{TranscriptionRequest, TranscriptionResult}
use yoru_speech.Audio.Recorder
use yoru_speech.Session.Queue.{Queue}
use yoru_speech.Session.Silence.{Floats}
use yoru_speech.Session.Manager.{Manager, poll_completed}
use yoru_speech.Session.Manager
use yoru_speech.Session.Manager.Invariant.{poll-IsCoherent}
use yoru_speech.Session.Manager.Quiet.{poll-AllQuiet, poll_settings}
use yoru_speech.Session.Live.{Live, LiveConfig, reset, tick}
use yoru_speech.Session.Live
use yoru_speech.Session.Live.Settings.{tick-KeepsQuiet}
use yoru_speech.Ipc.Codec.{JsonLibrary, parse_message}
use yoru_speech.Ipc.Dispatcher.{Daemon, Surroundings, Result, handle_line}
use yoru_speech.Ipc.Dispatcher.Settings.{IsSettled, IsServed, handle_line-IsServed}
use yoru_speech.Ipc.Dispatcher.News.{Publishes, handle_line-Publishes}
use yoru_speech.Ipc.Server.{ClientId}
use yoru_speech.Ipc.Service.{
  send_reply, Request, subscribe_events, unsubscribe_events, command, request_of,
}
use yoru_speech.App.Program.{
  Program, sending, reply, create, publish_event, publish_events, answered, serve, on_line, poll,
  tick_live,
}
use yoru_speech.App.Program.Delivery.{
  alive, alive_keeps, alive_cases, informed, errors, note, send_all, report_all, delivered,
  publish_event_lem,
}
use yoru_speech.App.Program.Steps.{
  Action, line, disconnected, polled, ticked, captured, notified, worked, with_sessions, act, step,
  run,
}
use yoru_speech.App.Program.Same.{Same, events-Same}

abbrev ResultIsSettled : {Sample : Type 0} → Result Sample → Type 0
ResultIsSettled none = Unit
ResultIsSettled (some (d, events, reply)) = IsSettled d

-- The settings that a configuration fixes, in the live transcriber and the clipboard.
abbrev pub Follows : {Sample : Type 0} → Program Sample → Type 0
Follows p =
    (p.live.default_language ≡ (current p.daemon.configurations).default_language)
    × (p.live.transcription_prompt ≡ (current p.daemon.configurations).transcription_prompt)
    × (p.clipboard.enabled ≡ (current p.daemon.configurations).auto_clipboard)

-- The session manager is coherent, and all components work with the current configuration.
abbrev pub IsAgreed : {Sample : Type 0} → Program Sample → Type 0
IsAgreed p = IsSettled p.daemon × Follows p

-- No undefined behaviour, and all components agree afterwards.
abbrev pub Agrees : {Sample : Type 0} → Option (Program Sample) → Type 0
Agrees {Sample} o = (p : Program Sample) × (o ≡ some p) × IsAgreed p

module _ (json : JsonLibrary) (toml : TomlLibrary) (local_time : Text) (copy : Text → Option Text)
    {Sample : Type 0} where
  Same-IsAgreed : (p p' : Program Sample) → Same p p' → IsAgreed p → IsAgreed p'
  Same-IsAgreed p p' (a, b, c, d) (settled, (l, t, e)) = (
    subst IsSettled (sym a) settled,
    (
      c ∙ l ∙ ap (λ (x : Daemon Sample). (current x.configurations).default_language) (sym a),
      d ∙ t ∙ ap (λ (x : Daemon Sample). (current x.configurations).transcription_prompt) (sym a),
      ap (λ (x : Auto.AutoClipboard). x.enabled) b
          ∙ e
          ∙ ap (λ (x : Daemon Sample). (current x.configurations).auto_clipboard) (sym a),
    ),
  )

  -- A published configuration reaches every component.
  announced-IsAgreed :
      (p : Program Sample)
      → p.terminated ≡ false
      → IsSettled p.daemon
      → IsAgreed (
          publish_event json toml local_time copy
            (configuration_changed (current p.daemon.configurations))
            p)
  unfolding delivered informed errors note send_all sending report_all Manager.configuration_changed
      Live.configuration_changed Auto.configuration_changed
  announced-IsAgreed p going settled =
      let event : Event Sample = configuration_changed (current p.daemon.configurations) in
      let deliver : Program Sample → Program Sample = λ q.
        let q' =
          informed json toml local_time copy event (note json toml local_time copy event q) in
        alive json toml local_time copy (send_all json toml local_time copy event)
          (report_all json toml local_time copy (errors json toml local_time copy event q') q') in
      let informed_all : IsAgreed
          (informed json toml local_time copy event (note json toml local_time copy event p)) =
        ((settled.0, refl, refl), (refl, refl, refl)) in
      rw (publish_event_lem json toml local_time copy event p) (
        alive_cases json toml local_time copy IsAgreed deliver p
          (λ ended. absurd (ground (arith, ended, going)))
          (λ e.
            alive_keeps json toml local_time copy IsAgreed
              (send_all json toml local_time copy event)
              (informed json toml local_time copy event (note json toml local_time copy event p))
              informed_all informed_all))

  -- The events of a command, delivered to a program that has its new daemon.
  published-IsAgreed :
      (p : Program Sample) (daemon : Daemon Sample) (events : List (Event Sample))
      (reply : Option Text)
      → p.terminated ≡ false
      → IsAgreed p
      → IsSettled daemon
      → Publishes p.daemon (some (daemon, events, reply))
      → IsAgreed (publish_events json toml local_time copy events (record p { daemon = daemon }))
  unfolding publish_events
  published-IsAgreed p daemon events reply going (old, f) settled (inl (same, quiet)) =
      let p' : Program Sample = record p { daemon = daemon } in
      Same-IsAgreed p' (publish_events json toml local_time copy events p')
        (events-Same json toml local_time copy events p' quiet)
        (
          settled,
          (
            f.0 ∙ ap (λ (c : Configuration). c.default_language) (sym same),
            f.1 ∙ ap (λ (c : Configuration). c.transcription_prompt) (sym same),
            f.2 ∙ ap (λ (c : Configuration). c.auto_clipboard) (sym same),
          ),
        )
  published-IsAgreed p daemon events reply going v settled (inr news) =
      rw news (announced-IsAgreed (record p { daemon = daemon }) going settled)

  reply-IsAgreed :
      (id : ClientId) (answer : Option Text) (p : Program Sample)
      → IsAgreed p
      → IsAgreed (reply json toml local_time copy id answer p)
  unfolding reply sending
  reply-IsAgreed id answer p v =
      elim p.terminated as (λ t. IsAgreed (if t then p else sending (send_reply id answer) p)) [
        | true ↦ v
        | false ↦ v
      ]

  answered-Agrees :
      (id : ClientId) (p : Program Sample) (o : Result Sample)
      → p.terminated ≡ false
      → IsAgreed p
      → IsServed o
      → Publishes p.daemon o
      → Agrees (answered json toml local_time copy id p o)
  unfolding answered
  answered-Agrees id p none going v (r, e, settled) n = absurd (ground arith)
  answered-Agrees id p (some (daemon, events, answer)) going v (r, e, settled) n = (
    _,
    refl,
    reply-IsAgreed id answer
        (publish_events json toml local_time copy events (record p { daemon = daemon }))
        (published-IsAgreed p daemon events answer going v (subst ResultIsSettled (sym e) settled)
          n),
  )

  serve-Agrees :
      (request : Request) (id : ClientId) (text : Text) (out : Surroundings) (p : Program Sample)
      → p.terminated ≡ false
      → IsAgreed p
      → Agrees (serve json toml local_time copy request id text out p)
  unfolding serve
  serve-Agrees subscribe_events id text out p going v = (_, refl, reply-IsAgreed id _ _ v)
  serve-Agrees unsubscribe_events id text out p going v = (_, refl, reply-IsAgreed id _ _ v)
  serve-Agrees command id text out p going v =
      answered-Agrees id p (handle_line json toml text out p.daemon) going v
        (handle_line-IsServed json toml text out p.daemon v.0)
        (handle_line-Publishes json toml text out p.daemon)

  line-Agrees :
      (id : ClientId) (text : Text) (out : Surroundings) (p : Program Sample)
      → p.terminated ≡ false
      → IsAgreed p
      → Agrees (on_line json toml local_time copy id text out p)
  unfolding on_line
  line-Agrees id text out p going v =
      serve-Agrees (request_of (parse_message json text)) id text out p going v

  poll-IsAgreed :
      (between : Queue Sample → Queue Sample) (p : Program Sample)
      → IsAgreed p
      → IsAgreed (poll json toml local_time copy between p)
  unfolding poll
  poll-IsAgreed between p ((c, l, t), f) =
      let (sessions, events, n) = poll_completed between p.daemon.sessions in
      let p' : Program Sample = record p { daemon = record p.daemon { sessions = sessions } } in
      let (l', t') = poll_settings between p.daemon.sessions in
      Same-IsAgreed p' (publish_events json toml local_time copy events p')
        (events-Same json toml local_time copy events p' (poll-AllQuiet between p.daemon.sessions))
        (((poll-IsCoherent between p.daemon.sessions c).0, l' ∙ l, t' ∙ t), f)

module _ (json : JsonLibrary) (toml : TomlLibrary) (local_time : Text) (copy : Text → Option Text)
    {Sample : Type 0} (floats : Floats Sample) (config : LiveConfig Sample)
    (backend : List Sample → TranscriptionRequest → TranscriptionResult) where
  tick-IsAgreed :
      (now : ℕ) (late : List Sample) (p : Program Sample)
      → IsAgreed p
      → IsAgreed (tick_live json toml local_time copy floats config backend now late p)
  unfolding tick_live
  tick-IsAgreed now late p (settled, (l, t, e)) =
      let (live, events, window) = tick floats config backend now late p.daemon.sessions p.live in
      let p' : Program Sample = record p { live = live } in
      let ((l', t'), quiet) =
        tick-KeepsQuiet floats config backend now late p.daemon.sessions p.live in
      Same-IsAgreed json toml local_time copy p'
        (publish_events json toml local_time copy events p')
        (events-Same json toml local_time copy events p' quiet) (settled, (l' ∙ l, t' ∙ t, e))

  act-Agrees :
      (p : Program Sample) (action : Action Sample)
      → p.terminated ≡ false
      → IsAgreed p
      → Agrees (act json toml local_time copy floats config backend p action)
  unfolding act with_sessions Recorder.on_samples
  act-Agrees p (line id text out) going v =
      line-Agrees json toml local_time copy id text out p going v
  act-Agrees p (disconnected id) going v = (_, refl, v)
  act-Agrees p (polled between) going v =
      (_, refl, poll-IsAgreed json toml local_time copy between p v)
  act-Agrees p (ticked now late) going v = (_, refl, tick-IsAgreed now late p v)
  act-Agrees p (captured buffer) going v = (_, refl, v)
  act-Agrees p (notified n) going v = (_, refl, v)
  act-Agrees p (worked change) going v = (_, refl, v)

  step-Agrees :
      (p : Program Sample) (action : Action Sample)
      → IsAgreed p
      → Agrees (step json toml local_time copy floats config backend p action)
  unfolding step
  step-Agrees p action v =
      elim p.terminated
          as (λ t.
            p.terminated ≡ t
            → Agrees (
                if t
                then some p
                else act json toml local_time copy floats config backend p action)) [
                  | true ↦ λ e. (p, refl, v)
                  | false ↦ λ e. act-Agrees p action e v
                ]
        refl

  pub run-Agrees :
      (p : Program Sample) (actions : List (Action Sample))
      → IsAgreed p
      → Agrees (run json toml local_time copy floats config backend p actions)
  unfolding run
  run-Agrees p [] v = (p, refl, v)
  run-Agrees p (action ∷ actions) v =
      let (p', e, v') = step-Agrees p action v in
      let (q, e', w) = run-Agrees p' actions v' in (q, ground (arith, e, e'), w)

  -- However lines, polls, ticks, captured audio and worker steps follow one another in a program that
  -- main has built, none meets undefined behaviour, and afterwards the session manager is coherent,
  -- and it, the live transcriber and the clipboard work with the language, the prompt and the
  -- clipboard setting of the current configuration.
  pub run-create-IsAgreed :
      (configurations : Store.Manager) (queue_capacity : ℕ) (actions : List (Action Sample))
      → Agrees (
          run json toml local_time copy floats config backend
            (create configurations queue_capacity)
            actions)
  unfolding create Manager.create Live.create Auto.create Recorder.create
  run-create-IsAgreed configurations queue_capacity actions =
      run-Agrees (create configurations queue_capacity) actions
        ((tt, refl, refl), (refl, refl, refl))
