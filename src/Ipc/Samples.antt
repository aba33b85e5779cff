-- ===== src/Ipc/Samples.antt =====
-- Concrete data for the tests of domains/ipc: a JSON library that reads every line as one value, a TOML
-- library that prints nothing, and a new daemon.
use yoru_speech.Common.{
  ℕ, Bool, true, false, List, [], ◌∷◌, Option, none, some, Text, lit, text_eq, if◌then◌else◌,
}
use yoru_speech.Config.Configuration.{default_configuration}
use yoru_speech.Config.Toml.{TomlLibrary, parsed}
use yoru_speech.Config.Store.{readable, renamed}
use yoru_speech.Config.Store
use yoru_speech.Session.Manager
use yoru_speech.Ipc.Codec.{JsonLibrary}
use yoru_speech.Ipc.Dispatcher.{Daemon, Surroundings}

pub data Value : Type 0 where
  text : Text → Value
  truth : Bool → Value
  count : ℕ → Value
  entries : List (Text × Text) → Value

abbrev pub look_up : List (Text × Text) → Text → Option Value
look_up [] k = none
look_up ((j, v) ∷ es) k = if text_eq j k then some (text v) else look_up es k

abbrev pub reading : Value → JsonLibrary
reading value = record {
  Json = Value;
  parse = λ line. some value;
  is_object = λ v. elim v [ entries es ↦ true | _ ↦ false ];
  at = λ v k. elim v [ entries es ↦ look_up es k | _ ↦ none ];
  as_string = λ v. elim v [ text t ↦ some t | _ ↦ none ];
  as_boolean = λ v. elim v [ truth b ↦ some b | _ ↦ none ];
  as_unsigned = λ v. elim v [ count n ↦ some n | _ ↦ none ];
  string = text;
  boolean = truth;
  number = count;
  array = λ vs. entries [];
  object = λ fields. entries [];
  dump = λ v. some [];
}

abbrev pub set_language : JsonLibrary
set_language =
    reading (entries ((lit "type", lit "set_config") ∷ (lit "default_language", lit "pt") ∷ []))

abbrev pub toml : TomlLibrary
toml = record {
  Table = List Text;
  parse = λ line. parsed [];
  contains = λ t k. false;
  string_at = λ t k. none;
  bool_at = λ t k. none;
  empty = [];
  insert_string = λ k v t. t;
  insert_bool = λ k v t. t;
  print = λ t. [];
}

abbrev pub surroundings : Surroundings
surroundings = record {
  hardware = record { opens = true; starts = true };
  now = 5;
  file_system = record {
    create_directories_error = none;
    exists_error = none;
    reading = readable;
    writing = renamed;
  };
  models = [];
}

abbrev pub daemon : Daemon ℕ
daemon = record {
  sessions = Manager.create default_configuration 2;
  configurations = Store.create (record { target = none; temporary = none });
}
