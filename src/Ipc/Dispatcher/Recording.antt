-- ===== src/Ipc/Dispatcher/Recording.antt =====
-- The start_recording and stop_recording commands of command_dispatcher.cpp.
use yoru_speech.Common.{◌≡◌, refl, List, none, some, Text, lit, text_eq}
use yoru_speech.Core.Event.{Event}
use yoru_speech.Config.Toml.{TomlLibrary}
use yoru_speech.Session.Manager.{Manager, QueuedJob, queued, start_session, stop_session}
use yoru_speech.Ipc.Codec.{JsonLibrary, typed, parse_message, encode_ack, encode_queued}
use yoru_speech.Ipc.Dispatcher.{
  Daemon, Surroundings, command_of, answered, stop_reply, handle, handle_line,
}

module _ (json : JsonLibrary) (toml : TomlLibrary) {Sample : Type 0} where
  pub handle-start :
      (line : Text) (out : Surroundings) (d : Daemon Sample) (m : Manager Sample)
      (events : List (Event Sample))
      → parse_message json line ≡ typed (lit "start_recording")
      → start_session out.hardware out.now d.sessions ≡ (m, events, none)
      → handle_line json toml line out d
        ≡ some (record d { sessions = m }, events, encode_ack json (lit "start_recording"))
  unfolding handle_line handle command_of answered lit text_eq
  handle-start line out d m events e h = rw (e, handle_line, h) refl

  pub handle-stop :
      (line : Text) (out : Surroundings) (d : Daemon Sample) (m : Manager Sample)
      (events : List (Event Sample)) (job : QueuedJob)
      → parse_message json line ≡ typed (lit "stop_recording")
      → stop_session out.now d.sessions ≡ some (m, events, queued job)
      → handle_line json toml line out d
        ≡ some (record d { sessions = m }, events, encode_queued json (lit "stop_recording") job)
  unfolding handle_line handle command_of stop_reply lit text_eq
  handle-stop line out d m events job e h = rw (e, handle_line, h) refl
