-- ===== src/App/Program/Dictation.antt =====
-- One dictation through the whole daemon of app/main.cpp: from a client's start_recording to the
-- transcript at the clipboard and at the subscribed clients.
use yoru_speech.Common.{
  true, false, ◌≡◌, refl, sym, ap, ◌∙◌, true, List, [], ◌∷◌, ◌++◌, map, Option, none, some, Text,
  lit, flatten, arith,
}
use mathlib.Core.Path.{subst}
use yoru_speech.Core.Event.{Event, recording_finished}
use yoru_speech.Config.Toml.{TomlLibrary}
use yoru_speech.Speech.Transcript.{
  Transcript, TranscriptionRequest, TranscriptionResult, transcript,
}
use yoru_speech.Audio.Recorder
use yoru_speech.Audio.Recorder.Capture.{capture, recording_of, start-capture-stop}
use yoru_speech.Session.Lifecycle.{ServiceState, Session, SessionState}
use yoru_speech.Session.Queue.{has_capacity, try_enqueue}
use yoru_speech.Session.Silence.{Floats}
use yoru_speech.Session.Manager.{Manager, start_session}
use yoru_speech.Session.Manager.Dictation.{job_of, start_inv}
use yoru_speech.Session.Live.{LiveConfig}
use yoru_speech.Ipc.Codec.{JsonLibrary, typed, parse_message}
use yoru_speech.Ipc.Dispatcher.{Daemon, Surroundings}
use yoru_speech.Ipc.Server.{ClientId}
use yoru_speech.Ipc.Codec.Utf8.{JsonLaws, IsEncodable}
use yoru_speech.Core.Event.{transcription_completed}
use yoru_speech.Ipc.Service.{Sent, and_then}
use yoru_speech.App.Program.Sending.{sent_by}
use yoru_speech.App.Program.{Program, poll}
use yoru_speech.App.Program.Delivery.{errors}
use yoru_speech.App.Program.Steps.{
  act, Action, line, polled, captured, worked, with_sessions, step, run,
}
use yoru_speech.App.Program.Results.{sent_of, sent_of-false, poll_delivers, Delivered}
use yoru_speech.App.Program.Stages.{
  transcribe_next, start-Lands, stop-Lands, start_keeps, IsEmpty, transcribed,
}

-- Without an exception everything is sent.
sent_in_full :
    (a b c : Sent)
    → c ≡ and_then a b
    → a.1 ≡ false
    → b.1 ≡ false
    → (c.0 ≡ a.0 ++ b.0) × (c.1 ≡ false)
unfolding and_then
sent_in_full (l, true) b c e f g = absurd (ground (arith, f))
sent_in_full (l, false) (m, t) c e f g = (ap (λ x. x.0) e, ap (λ x. x.1) e ∙ g)

module _ (json : JsonLibrary) (toml : TomlLibrary) (local_time : Text) (copy : Text → Option Text)
    {Sample : Type 0} where
  module _ (floats : Floats Sample) (config : LiveConfig Sample)
      (backend : List Sample → TranscriptionRequest → TranscriptionResult) where
    run-cons :
        (p p' : Program Sample) (action : Action Sample) (actions : List (Action Sample))
        → step json toml local_time copy floats config backend p action ≡ some p'
        → run json toml local_time copy floats config backend p (action ∷ actions)
          ≡ run json toml local_time copy floats config backend p' actions
    unfolding run
    run-cons p p' action actions h = ground (arith, h)

    -- A process that goes on takes the step.
    step-alive :
        (p : Program Sample) (action : Action Sample)
        → p.terminated ≡ false
        → step json toml local_time copy floats config backend p action
          ≡ act json toml local_time copy floats config backend p action
    unfolding step
    step-alive p action going = ground (arith, going)

    run-captured :
        (bs : List (List Sample)) (p : Program Sample) (actions : List (Action Sample))
        → p.terminated ≡ false
        → run json toml local_time copy floats config backend p (map captured bs ++ actions)
          ≡ run json toml local_time copy floats config backend
              (with_sessions (λ m. record m { recorder = capture bs m.recorder }) p)
              actions
    unfolding act with_sessions capture
    run-captured [] p actions going = refl
    run-captured (b ∷ bs) p actions going =
        let p' = with_sessions (λ m. record m { recorder = Recorder.on_samples b m.recorder }) p in
        run-cons p p' (captured b) (map captured bs ++ actions) (step-alive p (captured b) going)
        ∙ run-captured bs p' actions going

    -- A client starts a recording, audio arrives, a client stops it, the worker transcribes, and the
    -- run loop polls.
    abbrev pub script :
        ClientId
        → Text
        → Surroundings
        → List (List Sample)
        → Text
        → Surroundings
        → (List Sample → TranscriptionRequest → TranscriptionResult)
        → List (Action Sample)
    script c start out bs stop out' transcribe =
        line c start out
        ∷ (map captured bs
            ++ line c stop out' ∷ worked (transcribe_next transcribe) ∷ polled (λ q. q) ∷ [])

    -- What stop_session needs of the daemon, and what the worker makes of the job.
    abbrev Ready :
        (List Sample → TranscriptionRequest → TranscriptionResult)
        → Session
        → List (List Sample)
        → Transcript
        → Recorder.Recorder Sample
        → Manager Sample
        → Type 0
    Ready transcribe s bs t r m =
        (m.state ≡ ServiceState.recording)
        × (m.active_session ≡ some s)
        × (Recorder.stop (capture bs m.recorder) ≡ (
          r,
          recording_finished s.id (recording_of bs) ∷ [],
          Recorder.recorded (recording_of bs),
        ))
        × (has_capacity m.queue ≡ true)
        × IsEmpty m.queue
        × (transcribe (flatten bs)
              (record { language = m.default_language; initial_prompt = m.transcription_prompt })
            ≡ transcript t)

    after_capture :
        (c : ClientId) (stop : Text) (out : Surroundings) (s : Session) (bs : List (List Sample))
        (t : Transcript) (r : Recorder.Recorder Sample)
        (transcribe : List Sample → TranscriptionRequest → TranscriptionResult) (p : Program Sample)
        → parse_message json stop ≡ typed (lit "stop_recording")
        → Ready transcribe s bs t r p.daemon.sessions
        → (laws : JsonLaws json) → p.terminated ≡ false
        → IsEncodable json laws {Sample = Sample} (transcription_completed s.id t)
        → ((message : Text) → copy t.text ≡ some message → laws.IsUtf8 message)
        → Delivered json toml local_time copy p s.id t (
            run json toml local_time copy floats config backend
              (with_sessions (λ m. record m { recorder = capture bs m.recorder }) p)
              (line c stop out ∷ worked (transcribe_next transcribe) ∷ polled (λ q. q) ∷ []))
    unfolding with_sessions run act errors
    after_capture c stop out s bs t r transcribe p parsed
          (state, active, stopped, room, empty, heard) laws going spoken shown =
        let p' = with_sessions (λ m. record m { recorder = capture bs m.recorder }) p in
        let (q, e, d, subscribed, clipboard, going') =
          stop-Lands json toml local_time copy c stop out p' s r (recording_of bs) parsed state
            active stopped room laws going in
        let m' = p'.daemon.sessions in
        let job = job_of s.id (flatten bs) m' in
        let w = with_sessions (λ m. record m { queue = transcribe_next transcribe m.queue }) q in
        let last = poll json toml local_time copy (λ q. q) w in
        let queued : q.daemon.sessions.queue ≡ (try_enqueue job m'.queue).0 =
          ap (λ (x : Daemon Sample). x.sessions.queue) d in
        let (started, completed) =
          transcribed json toml local_time copy transcribe job m'.queue t room empty heard in
        let (success, sent) =
          poll_delivers json toml local_time copy w s.id t
            (ap (λ x. (transcribe_next transcribe x).started) queued ∙ started)
            (ap (λ x. (transcribe_next transcribe x).completed) queued ∙ completed) in
        let same : sent_of json toml local_time copy w s.id t
            ≡ sent_of json toml local_time copy p s.id t =
          ap
            (λ ids.
              sent_of json toml local_time copy
                (record p { subscribed = ids; clipboard = q.clipboard }) s.id t)
            subscribed
          ∙ ap (λ x. sent_of json toml local_time copy (record p { clipboard = x }) s.id t)
              clipboard in
        let (more, on) =
          sent_in_full (sent_by w) (sent_of json toml local_time copy p s.id t) (sent_by last)
            (sent ∙ ap (and_then (sent_by w)) same) going'
            (sent_of-false json toml local_time copy laws p s.id t spoken shown) in
        (
          last,
          run-cons p' q (line c stop out)
                (worked (transcribe_next transcribe) ∷ polled (λ q. q) ∷ [])
                (step-alive p' (line c stop out) going ∙ e)
              ∙ run-cons q w (worked (transcribe_next transcribe)) (polled (λ q. q) ∷ [])
                  (step-alive q (worked (transcribe_next transcribe)) going')
              ∙ run-cons w last (polled (λ q. q)) [] (step-alive w (polled (λ q. q)) going'),
          success,
          on,
          (w.sends, more),
        )

    -- From a daemon with nothing in its queue: when a client's start_recording succeeds, audio
    -- arrives, a client sends stop_recording, the worker transcribes, with success, what was captured
    -- under the daemon's language and prompt, and the run loop polls, then no step meets undefined
    -- behaviour or an exception, the session is the last one completed, and the last lines sent are
    -- these: to each subscribed client that the transcription started, then the clipboard's error if copying the
    -- text failed, and then that it completed, with that transcript. Of the JSON library it needs that
    -- dump returns for texts that are UTF-8, as ASCII is; the transcript and the clipboard's error are
    -- such texts, and every call of the clipboard adapter returns.
    pub run-script-Delivered :
        (c : ClientId) (start : Text) (out : Surroundings) (bs : List (List Sample)) (stop : Text)
        (out' : Surroundings)
        (transcribe : List Sample → TranscriptionRequest → TranscriptionResult) (p : Program Sample)
        (m : Manager Sample) (events : List (Event Sample)) (t : Transcript)
        → parse_message json start ≡ typed (lit "start_recording")
        → parse_message json stop ≡ typed (lit "stop_recording")
        → start_session out.hardware out.now p.daemon.sessions ≡ (m, events, none)
        → IsEmpty p.daemon.sessions.queue
        → transcribe (flatten bs) (record {
          language = p.daemon.sessions.default_language;
          initial_prompt = p.daemon.sessions.transcription_prompt;
        })
          ≡ transcript t
        → (laws : JsonLaws json) → p.terminated ≡ false
        → IsEncodable json laws {Sample = Sample}
            (transcription_completed p.daemon.sessions.next_session_id t)
        → ((message : Text) → copy t.text ≡ some message → laws.IsUtf8 message)
        → Delivered json toml local_time copy p p.daemon.sessions.next_session_id t (
            run json toml local_time copy floats config backend p
              (script c start out bs stop out' transcribe))
    unfolding run act errors
    run-script-Delivered c start out bs stop out' transcribe p m events t parsed parsed' begun empty
          heard laws going spoken shown =
        let (recording, state, active) =
          start_inv out.hardware out.now p.daemon.sessions m events begun in
        let (room, queue, language, prompt) =
          start_keeps json toml local_time copy out.hardware out.now p.daemon.sessions m events
            begun in
        let captures =
          start-capture-stop out.hardware p.daemon.sessions.next_session_id
            p.daemon.sessions.recorder m.recorder events bs 0 recording in
        let s : Session = record {
          id = p.daemon.sessions.next_session_id;
          state = SessionState.recording;
          created_at = out.now;
          finished_at = none;
        } in
        let r = (Recorder.stop (capture bs m.recorder)).0 in
        let request : TranscriptionRequest = record {
          language = m.default_language;
          initial_prompt = m.transcription_prompt;
        } in
        let heard' : transcribe (flatten bs) request ≡ transcript t = rw (language, prompt) heard in
        let stopped : Recorder.stop (capture bs m.recorder) ≡ (
          r,
          recording_finished s.id (recording_of bs) ∷ [],
          Recorder.recorded (recording_of bs),
        ) =
          ground (arith, captures.2, captures.3) in
        let (q, e, d, subscribed, clipboard, going') =
          start-Lands json toml local_time copy c start out p m events parsed begun captures.0 laws
            going in
        let ready : Ready transcribe s bs t r m = (
          state,
          active,
          stopped,
          ap has_capacity queue ∙ room,
          subst IsEmpty (sym queue) empty,
          heard',
        ) in
        let (p', ran, success, on, (before, sent)) =
          after_capture c stop out' s bs t r transcribe q parsed'
            (subst (Ready transcribe s bs t r) (sym (ap (λ (x : Daemon Sample). x.sessions) d))
              ready)
            laws going' spoken shown in
        let rest : List (Action Sample) =
          line c stop out' ∷ worked (transcribe_next transcribe) ∷ polled (λ q. q) ∷ [] in
        (
          p',
          run-cons p q (line c start out) (map captured bs ++ rest)
                (step-alive p (line c start out) going ∙ e)
              ∙ run-captured bs q rest going'
              ∙ ran,
          success,
          on,
          (
            before,
            sent
                ∙ ap
                    (λ ids.
                      before
                      ++ (sent_of json toml local_time copy
                          (record p { subscribed = ids; clipboard = q.clipboard }) s.id t).0)
                    subscribed
                ∙ ap
                    (λ x.
                      before
                      ++ (sent_of json toml local_time copy (record p { clipboard = x }) s.id t).0)
                    clipboard,
          ),
        )
