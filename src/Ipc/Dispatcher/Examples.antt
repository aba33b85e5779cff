-- ===== src/Ipc/Dispatcher/Examples.antt =====
-- A set_config command to a new daemon.
use yoru_speech.Common.{◌≡◌, [], none, some, text_eq, refl, lit}
use yoru_speech.Config.Store.{current}
use yoru_speech.Config.Store
use yoru_speech.Session.Manager
use yoru_speech.Config.Toml.{validate, is_valid_language_code, is_valid_model_name}
use yoru_speech.Ipc.Codec.{parse_message, decode_set_config}
use yoru_speech.Ipc.Samples.{set_language, toml, surroundings, daemon}
use yoru_speech.Ipc.Dispatcher.{handle_line}

-- The new language reaches the session manager, and the change is announced.
set_config_language :
    (elim (handle_line set_language toml (lit "{}") surroundings daemon) [
      | none ↦ []
      | some (d, events, reply) ↦ d.sessions.default_language
    ])
    ≡ lit "pt"
unfolding handle_line lit text_eq parse_message decode_set_config Store.update validate
    is_valid_language_code is_valid_model_name current Store.create Manager.configuration_changed
set_config_language = refl
