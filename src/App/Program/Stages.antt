-- ===== src/App/Program/Stages.antt =====
-- The turns of one dictation in app/main.cpp: the client's two commands and the worker.
use yoru_speech.Common.{
  false, has_value, ℕ, ◌≡◌, refl, sym, ap, ◌∙◌, true, List, [], ◌∷◌, ◌++◌, Option, none, some, Text,
  lit, arith, text_eq,
}
use mathlib.Core.Path.{subst}
use yoru_speech.Core.Event.{Event, recording_started, recording_finished}
use yoru_speech.Config.Toml.{TomlLibrary}
use yoru_speech.Speech.Transcript.{
  Transcript, TranscriptionRequest, TranscriptionResult, transcript,
}
use yoru_speech.Audio.Device.{Hardware}
use yoru_speech.Audio.Recorder
use yoru_speech.Audio.Recording.{Recording}
use yoru_speech.Session.Lifecycle.{ServiceState, Session}
use yoru_speech.Session.Queue.{
  Queue, TranscriptionJob, has_capacity, try_enqueue, take_job, finish_job,
}
use yoru_speech.Session.Manager.{Manager, start_session}
use yoru_speech.Session.Manager.Quiet.{AllPlain, AllQuiet}
use yoru_speech.Session.Manager.Dictation.{job_of, stop_queues}
use yoru_speech.Ipc.Codec.{JsonLibrary, typed, parse_message}
use yoru_speech.Ipc.Dispatcher.{Daemon, Surroundings, handle_line}
use yoru_speech.Ipc.Dispatcher.Recording.{handle-start, handle-stop}
use yoru_speech.Ipc.Server.{ClientId}
use yoru_speech.Ipc.Service.{command, request_of}
use yoru_speech.Ipc.Codec.Utf8.{JsonLaws, is_ascii, encode_ack_returns, encode_queued_returns}
use yoru_speech.Ipc.Service.Writing.{and_then-false, broadcast_all-false}
use yoru_speech.Ipc.Service.{Sent, send_reply, broadcast_all}
use yoru_speech.App.Program.{Program, publish_events, reply, sending, answered, serve, on_line}
use yoru_speech.App.Program.Same.{events-Same}
use yoru_speech.App.Program.Sending.{sent_by, publish-After}

-- The worker: the job that waits longest is transcribed.
abbrev pub transcribe_next :
    {Sample : Type 0}
    → (List Sample → TranscriptionRequest → TranscriptionResult)
    → Queue Sample
    → Queue Sample
transcribe_next transcribe q = elim (q.pending) [
  | [] ↦ q
  | job ∷ rest ↦
      finish_job (job.session_id) (transcribe (job.samples) (job.request)) (take_job job rest q)
]

-- Nothing waits, and nothing is to be collected.
abbrev pub IsEmpty : {Sample : Type 0} → Queue Sample → Type 0
IsEmpty q = (q.pending ≡ []) × (q.started ≡ []) × (q.completed ≡ [])

module _ (json : JsonLibrary) (toml : TomlLibrary) (local_time : Text) (copy : Text → Option Text)
    {Sample : Type 0} where
  -- A command's line, whose events no handler answers with another.
  abbrev pub Lands : Program Sample → Daemon Sample → Option (Program Sample) → Type 0
  Lands p d o =
      (p' : Program Sample) × (o ≡ some p')
      × (p'.daemon ≡ d)
      × (p'.subscribed ≡ p.subscribed)
      × (p'.clipboard ≡ p.clipboard)
      × (p'.terminated ≡ false)

  reply-Lands :
      (c : ClientId) (line : Option Text) (p : Program Sample)
      → p.terminated ≡ false
      → has_value line ≡ true
      → let p' = reply json toml local_time copy c line p in
        (p'.daemon ≡ p.daemon)
        × (p'.subscribed ≡ p.subscribed)
        × (p'.clipboard ≡ p.clipboard)
        × (p'.terminated ≡ false)
  unfolding reply sending send_reply
  reply-Lands c none p e h = absurd (ground (arith, h))
  reply-Lands c (some line) p e h = ground (arith, e)

  answered-Lands :
      (c : ClientId) (p : Program Sample) (d : Daemon Sample) (events : List (Event Sample))
      (line : Option Text)
      → AllPlain events
      → AllQuiet events
      → p.terminated ≡ false
      → (broadcast_all json toml p.subscribed events).1 ≡ false
      → has_value line ≡ true
      → Lands p d (answered json toml local_time copy c p (some (d, events, line)))
  unfolding answered
  answered-Lands c p d events line plain quiet going encoded replied =
      let p' : Program Sample = record p { daemon = d } in
      let q = publish_events json toml local_time copy events p' in
      let (daemon, subscribed, sends) = publish-After json toml local_time copy events p' plain in
      let (daemon', clipboard, language, prompt) =
        events-Same json toml local_time copy events p' quiet in
      let going' : q.terminated ≡ false =
        ap (λ (x : Sent). x.1) sends
        ∙ and_then-false (sent_by p') (broadcast_all json toml p.subscribed events) going encoded in
      let (d', s', c', t') = reply-Lands c line q going' replied in
      (_, refl, d' ∙ daemon, s' ∙ subscribed, c' ∙ clipboard, t')

  line-Lands :
      (c : ClientId) (text type : Text) (out : Surroundings) (p : Program Sample)
      (d : Daemon Sample) (events : List (Event Sample)) (reply : Option Text)
      → parse_message json text ≡ typed type
      → request_of (typed type) ≡ command
      → handle_line json toml text out p.daemon ≡ some (d, events, reply)
      → AllPlain events
      → AllQuiet events
      → p.terminated ≡ false
      → (broadcast_all json toml p.subscribed events).1 ≡ false
      → has_value reply ≡ true
      → Lands p d (on_line json toml local_time copy c text out p)
  unfolding on_line serve
  line-Lands c text type out p d events reply parsed asked handled plain quiet going encoded
        replied =
      rw (parsed, asked, handled)
        (answered-Lands c p d events reply plain quiet going encoded replied)

  -- The manager after a stop_session that queued the job.
  abbrev pub stopped_manager :
      Manager Sample → Recorder.Recorder Sample → TranscriptionJob Sample → Manager Sample
  stopped_manager m r job = record m {
    recorder = r;
    state = ServiceState.idle;
    active_session = none;
    queue = (try_enqueue job m.queue).0;
  }

  pub start-Lands :
      (c : ClientId) (text : Text) (out : Surroundings) (p : Program Sample) (m : Manager Sample)
      (events : List (Event Sample))
      → parse_message json text ≡ typed (lit "start_recording")
      → start_session out.hardware out.now p.daemon.sessions ≡ (m, events, none)
      → events ≡ recording_started p.daemon.sessions.next_session_id ∷ []
      → JsonLaws json
      → p.terminated ≡ false
      → Lands p (record p.daemon { sessions = m }) (on_line json toml local_time copy c text out p)
  unfolding request_of lit text_eq is_ascii
  start-Lands c text out p m events parsed started said laws going =
      line-Lands c text (lit "start_recording") out p (record p.daemon { sessions = m }) events _
        parsed refl (handle-start json toml text out p.daemon m events parsed started)
        (rw said (tt, tt)) (rw said (tt, tt)) going
        (broadcast_all-false json toml laws p.subscribed events (rw said (tt, tt)))
        (encode_ack_returns json laws (lit "start_recording") refl)

  pub stop-Lands :
      (c : ClientId) (text : Text) (out : Surroundings) (p : Program Sample) (s : Session)
      (r : Recorder.Recorder Sample) (recording : Recording Sample)
      → parse_message json text ≡ typed (lit "stop_recording")
      → p.daemon.sessions.state ≡ ServiceState.recording
      → p.daemon.sessions.active_session ≡ some s
      → Recorder.stop p.daemon.sessions.recorder
        ≡ (r, recording_finished s.id recording ∷ [], Recorder.recorded recording)
      → has_capacity p.daemon.sessions.queue ≡ true
      → JsonLaws json
      → p.terminated ≡ false
      → Lands p
          (record p.daemon {
            sessions =
                stopped_manager p.daemon.sessions r
                  (job_of s.id recording.samples p.daemon.sessions);
          })
          (on_line json toml local_time copy c text out p)
  unfolding request_of lit text_eq is_ascii
  stop-Lands c text out p s r recording parsed state active stopped room laws going =
      line-Lands c text (lit "stop_recording") out p _ _ _ parsed refl
        (handle-stop json toml text out p.daemon _ _ _ parsed (
          stop_queues out.now p.daemon.sessions s r (recording_finished s.id recording ∷ [])
            recording state active stopped room))
        (tt, (tt, tt)) (tt, (tt, tt)) going
        (broadcast_all-false json toml laws p.subscribed _ (tt, (tt, tt)))
        (encode_queued_returns json laws (lit "stop_recording") _ refl)

  pub start_keeps :
      (hw : Hardware) (now : ℕ) (m m' : Manager Sample) (events : List (Event Sample))
      → start_session hw now m ≡ (m', events, none)
      → (has_capacity m.queue ≡ true)
        × (m'.queue ≡ m.queue)
        × (m'.default_language ≡ m.default_language)
        × (m'.transcription_prompt ≡ m.transcription_prompt)
  unfolding start_session
  start_keeps hw now m m' events h = ground arith

  pub transcribed :
      (transcribe : List Sample → TranscriptionRequest → TranscriptionResult)
      (job : TranscriptionJob Sample) (q : Queue Sample) (t : Transcript)
      → has_capacity q ≡ true
      → IsEmpty q
      → transcribe job.samples job.request ≡ transcript t
      → let q' = transcribe_next transcribe (try_enqueue job q).0 in
        (q'.started ≡ job.session_id ∷ [])
        × (q'.completed ≡ record { session_id = job.session_id; result = transcript t } ∷ [])
  unfolding has_capacity try_enqueue take_job finish_job
  transcribed transcribe job q t room (pending, started, completed) heard =
      let e : (try_enqueue job q).0 ≡ record q { pending = job ∷ [] } =
        ground (arith, room, pending) in
      subst
        (λ x.
          let q' = transcribe_next transcribe x in
          (q'.started ≡ job.session_id ∷ [])
          × (q'.completed ≡ record { session_id = job.session_id; result = transcript t } ∷ []))
        (sym e)
        (
          ap (λ ids. ids ++ job.session_id ∷ []) started,
          ap
                (λ rs.
                  rs
                  ++ record {
                    session_id = job.session_id;
                    result = transcribe job.samples job.request;
                  }
                    ∷ [])
                completed
              ∙ ap (λ r. record { session_id = job.session_id; result = r } ∷ []) heard,
        )
