-- ===== src/Config/Examples.antt =====
-- The configuration with a small TOML library: a table is the list of its entries, newest first, and
-- the only text that parses is the one that a given table prints as.
use yoru_speech.Common.{
  ◌≡◌, refl, inl, inr, Bool, false, ◌||◌, List, [], ◌∷◌, Option, none, some, Text, lit, text_eq,
  if◌then◌else◌, arith, Bool-cases, text_eq_iff,
}
use yoru_speech.Config.Configuration.{Configuration, default_configuration}
use yoru_speech.Config.Toml.{
  TomlLibrary, parsed, not_parsed, validate, table_of, encode_toml, decode_toml,
  is_valid_language_code, is_valid_model_name,
}
use yoru_speech.Config.Toml.RoundTrip.{TomlLaws, decode_toml-encode_toml}
use yoru_speech.Config.Store.{
  FileSystem, readable, renamed, not_opened, Manager, loads, updates, create, current, load, update,
  run,
}
use yoru_speech.Config.Store.Updates.{Outcome, update_lem, current_valid}
use yoru_speech.Config.Store.Restart.{load-update}

data Value : Type 0 where
  string : Text → Value
  boolean : Bool → Value

abbrev Entries : Type 0
Entries = List (Text × Value)

abbrev contains : Entries → Text → Bool
contains [] k = false
contains ((j, v) ∷ t) k = text_eq j k || contains t k

abbrev as_string : Value → Option Text
as_string (string v) = some v
as_string (boolean b) = none

abbrev as_boolean : Value → Option Bool
as_boolean (string v) = none
as_boolean (boolean b) = some b

abbrev string_at : Entries → Text → Option Text
string_at [] k = none
string_at ((j, v) ∷ t) k = if text_eq j k then as_string v else string_at t k

abbrev bool_at : Entries → Text → Option Bool
bool_at [] k = none
bool_at ((j, v) ∷ t) k = if text_eq j k then as_boolean v else bool_at t k

abbrev insert : Text → Value → Entries → Entries
insert j v t = if contains t j then t else (j, v) ∷ t

-- The library whose parser knows one text, that of this table.
abbrev knowing : Entries → TomlLibrary
knowing table = record {
  Table = Entries;
  parse = λ text. if text_eq text (lit "x") then parsed table else not_parsed [];
  contains = contains;
  string_at = string_at;
  bool_at = bool_at;
  empty = [];
  insert_string = λ j v t. insert j (string v) t;
  insert_bool = λ j v t. insert j (boolean v) t;
  print = λ t. lit "x";
}

insert_contains :
    (j k : Text) (v : Value) (t : Entries)
    → contains (insert j v t) k ≡ (text_eq j k || contains t k)
insert_contains j k v t = elim (Bool-cases (contains t j)) [
  | inr h ↦ rw h refl
  | inl h ↦ elim (Bool-cases (text_eq j k)) [
    | inr e ↦ rw (h, e) refl
    | inl e ↦ rw (h, e) (rw ((text_eq_iff j k).0 e) at h)
  ]
]

insert_string_at :
    (j k : Text) (v : Value) (t : Entries)
    → string_at (insert j v t) k
      ≡ (if contains t j then string_at t k else if text_eq j k then as_string v else string_at t k)
insert_string_at j k v t = ground arith

insert_bool_at :
    (j k : Text) (v : Value) (t : Entries)
    → bool_at (insert j v t) k
      ≡ (if contains t j then bool_at t k else if text_eq j k then as_boolean v else bool_at t k)
insert_bool_at j k v t = ground arith

laws : (table : Entries) → TomlLaws (knowing table)
laws table = record {
  contains_empty = λ k. refl;
  contains_string = λ j k v t. insert_contains j k (string v) t;
  contains_bool = λ j k v t. insert_contains j k (boolean v) t;
  string_at_string = λ j k v t. insert_string_at j k (string v) t;
  string_at_bool = λ j k v t. insert_string_at j k (boolean v) t;
  bool_at_string = λ j k v t. insert_bool_at j k (string v) t;
  bool_at_bool = λ j k v t. insert_bool_at j k (boolean v) t;
}

abbrev portuguese : Configuration
portuguese = record default_configuration { default_language = lit "pt"; auto_clipboard = false }

abbrev toml : TomlLibrary
toml = knowing (table_of (knowing []) portuguese)

-- A file with a wrong type and an invalid language: both fall back to their defaults.
abbrev spoilt : TomlLibrary
spoilt = knowing (
    (lit "default_language", string (lit "PT"))
    ∷ (lit "auto_clipboard", string (lit "no"))
    ∷ (lit "selected_model", string (lit "small"))
    ∷ [])

decode_toml-encode_toml_example :
    decode_toml toml (encode_toml toml portuguese) default_configuration
    ≡ record { configuration = portuguese; errors = [] }
unfolding table_of lit text_eq validate is_valid_language_code is_valid_model_name
decode_toml-encode_toml_example =
    decode_toml-encode_toml toml (laws (table_of (knowing []) portuguese)) portuguese
      default_configuration refl refl

abbrev working : FileSystem
working = record {
  create_directories_error = none;
  exists_error = none;
  reading = readable;
  writing = renamed;
}

abbrev full_disk : FileSystem
full_disk = record working { writing = not_opened }

abbrev new : Manager
new = create (record { target = none; temporary = none })

update_example : Outcome toml portuguese new (update toml full_disk portuguese new)
update_example = update_lem toml full_disk portuguese new

current_example :
    validate (
      current (
        run toml
          (loads working ∷ updates working portuguese ∷ updates full_disk portuguese ∷ [])
          (create (record { target = some (lit "x"); temporary = none }))))
    ≡ []
current_example =
    current_valid toml
      (loads working ∷ updates working portuguese ∷ updates full_disk portuguese ∷ [])
      (record { target = some (lit "x"); temporary = none })

load-update_example :
    let restarted = create ((update toml working portuguese new).1).disk in
    load toml working restarted ≡ ([], record restarted { configuration = portuguese })
unfolding table_of lit text_eq validate is_valid_language_code is_valid_model_name update create
load-update_example =
    load-update toml (laws (table_of (knowing []) portuguese)) working working portuguese new refl
      refl refl refl refl
