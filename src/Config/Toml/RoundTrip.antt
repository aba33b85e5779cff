-- ===== src/Config/Toml/RoundTrip.antt =====
-- encode_toml and decode_toml of toml_codec.cpp, over the documented behaviour of toml++ tables.
use yoru_speech.Common.{
  ◌≡◌, refl, Bool, true, false, ◌||◌, [], none, some, Option, Text, lit, text_eq, if◌then◌else◌,
}
use yoru_speech.Config.Configuration.{ModelLoadPolicy, on_demand, always_loaded, Configuration}
use yoru_speech.Config.Toml.Validity.{validate_iff}
use yoru_speech.Config.Toml.{
  TomlLibrary, parsed, to_string, parse_model_load_policy, validate, table_of, encode_toml,
  check_language, check_model_name, read_field, accept_policy, read_fields, decode_toml,
  DecodedConfiguration,
}

-- table::insert adds a value under a key that is not there yet, and leaves a key that is; a value is
-- read back under its own type only.
pub record TomlLaws (toml : TomlLibrary) : Type 0 where
  pub contains_empty : (k : Text) → toml.contains toml.empty k ≡ false
  pub contains_string :
      (j k v : Text) (t : toml.Table)
      → toml.contains (toml.insert_string j v t) k ≡ (text_eq j k || toml.contains t k)
  pub contains_bool :
      (j k : Text) (v : Bool) (t : toml.Table)
      → toml.contains (toml.insert_bool j v t) k ≡ (text_eq j k || toml.contains t k)
  pub string_at_string :
      (j k v : Text) (t : toml.Table)
      → toml.string_at (toml.insert_string j v t) k ≡ (
          if toml.contains t j
          then toml.string_at t k
          else if text_eq j k
          then some v
          else toml.string_at t k)
  pub string_at_bool :
      (j k : Text) (v : Bool) (t : toml.Table)
      → toml.string_at (toml.insert_bool j v t) k ≡ (
          if toml.contains t j
          then toml.string_at t k
          else if text_eq j k
          then none
          else toml.string_at t k)
  pub bool_at_string :
      (j k v : Text) (t : toml.Table)
      → toml.bool_at (toml.insert_string j v t) k ≡ (
          if toml.contains t j
          then toml.bool_at t k
          else if text_eq j k
          then none
          else toml.bool_at t k)
  pub bool_at_bool :
      (j k : Text) (v : Bool) (t : toml.Table)
      → toml.bool_at (toml.insert_bool j v t) k ≡ (
          if toml.contains t j
          then toml.bool_at t k
          else if text_eq j k
          then some v
          else toml.bool_at t k)

-- The names of the load policies read back.
pub parse-to_string : (p : ModelLoadPolicy) → parse_model_load_policy (to_string p) ≡ some p
unfolding parse_model_load_policy to_string lit text_eq
parse-to_string on_demand = refl
parse-to_string always_loaded = refl

module _ (toml : TomlLibrary) (laws : TomlLaws toml) where
  open laws use {
    contains_empty, contains_string, contains_bool, string_at_string, string_at_bool,
    bool_at_string, bool_at_bool,
  }

  -- What the fields of an encoded configuration read back as.
  fields :
      (c : Configuration)
      → let t = table_of toml c in
        (toml.contains t (lit "default_language") ≡ true)
        × (toml.string_at t (lit "default_language") ≡ some c.default_language)
        × (toml.contains t (lit "selected_model") ≡ true)
        × (toml.string_at t (lit "selected_model") ≡ some c.selected_model)
        × (toml.contains t (lit "auto_clipboard") ≡ true)
        × (toml.bool_at t (lit "auto_clipboard") ≡ some c.auto_clipboard)
        × (toml.contains t (lit "model_load_policy") ≡ true)
        × (toml.string_at t (lit "model_load_policy") ≡ some (to_string c.model_load_policy))
        × (toml.contains t (lit "transcription_prompt") ≡ true)
        × (toml.string_at t (lit "transcription_prompt") ≡ some c.transcription_prompt)
  unfolding table_of lit text_eq
  fields c = (
    simp (contains_string, contains_bool),
    simp (contains_empty, contains_string, contains_bool, string_at_string, string_at_bool),
    simp (contains_string, contains_bool),
    simp (contains_empty, contains_string, contains_bool, string_at_string, string_at_bool),
    simp (contains_string, contains_bool),
    simp (contains_empty, contains_string, contains_bool, bool_at_string, bool_at_bool),
    simp (contains_string),
    simp (contains_empty, contains_string, contains_bool, string_at_string, string_at_bool),
    simp (contains_string),
    simp (contains_empty, contains_string, contains_bool, string_at_string, string_at_bool),
  )

  read_field_lem :
      {A : Type 0} (root : toml.Table) (field : Text) (value : Option A) (message : Text)
      (accept : A → DecodedConfiguration → DecodedConfiguration) (v : A) (d : DecodedConfiguration)
      → toml.contains root field ≡ true
      → value ≡ some v
      → read_field toml root field value message accept d ≡ accept v d
  unfolding read_field
  read_field_lem root field value message accept v d e h = rw (e, h) refl

  accept_policy_lem :
      (p : ModelLoadPolicy) (d : DecodedConfiguration)
      → accept_policy toml (to_string p) d
        ≡ record d { configuration = record d.configuration { model_load_policy = p } }
  unfolding accept_policy
  accept_policy_lem p d = rw (accept_policy, parse-to_string p) refl

  read_table :
      (c : Configuration) (d : DecodedConfiguration)
      → read_fields toml (table_of toml c) d ≡ record { configuration = c; errors = d.errors }
  unfolding read_fields
  read_table c d =
      let (a, b, e, f, g, h, i, j, k, l) = fields c in
      rw
        (
          read_field_lem _ _ _ _ _ _ _ a b,
          read_field_lem _ _ _ _ _ _ _ e f,
          read_field_lem _ _ _ _ _ _ _ g h,
          read_field_lem _ _ _ _ _ _ _ i j,
          read_field_lem _ _ _ _ _ _ _ k l,
          accept_policy_lem _ _,
        )
        refl

  -- A valid configuration that encode_toml wrote is what decode_toml reads back, without an error and
  -- whatever the defaults are, if toml++ parses the text of a table to that table.
  pub decode_toml-encode_toml :
      (c defaults : Configuration)
      → toml.parse (toml.print (table_of toml c)) ≡ parsed (table_of toml c)
      → validate c ≡ []
      → decode_toml toml (encode_toml toml c) defaults ≡ record { configuration = c; errors = [] }
  unfolding decode_toml encode_toml check_language check_model_name validate
  decode_toml-encode_toml c defaults e h =
      let (language, model) = (validate_iff c).0 h in
      rw (decode_toml, e, read_table c, check_language, language, check_model_name, model) refl
