-- ===== src/Ipc/Service/Examples.antt =====
-- A set_config command to the IPC service of a new daemon.
use yoru_speech.Common.{refl, lit, ℕ, [], ◌∷◌}
use yoru_speech.Config.Store.{current}
use yoru_speech.Config.Store
use yoru_speech.Session.Manager
use yoru_speech.Audio.Recorder
use yoru_speech.Ipc.Samples.{set_language, toml, surroundings, daemon}
use yoru_speech.Ipc.Service.{Service, on_line}
use yoru_speech.Ipc.Service.Replies.{IsAnswered, on_line-IsAnswered}

-- Clients 8 and 9 listen to events; client 4 sends the line.
abbrev service : Service ℕ
service = record { daemon = daemon; subscribed = 8 ∷ 9 ∷ [] }

on_line_example :
    IsAnswered set_language toml 4 service
      (on_line set_language toml 4 (lit "{}") surroundings service)
unfolding Manager.create Store.create current Recorder.create
on_line_example =
    on_line-IsAnswered set_language toml 4 (lit "{}") surroundings service (tt, refl, refl)
