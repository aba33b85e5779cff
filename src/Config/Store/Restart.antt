-- ===== src/Config/Store/Restart.antt =====
-- What a ConfigurationManager reads that is made over the files an earlier one has written.
use yoru_speech.Common.{◌≡◌, refl, inl, inr, [], none, some, Text, arith}
use yoru_speech.Config.Configuration.{Configuration, default_configuration}
use yoru_speech.Config.Toml.{
  TomlLibrary, parsed, table_of, encode_toml, decode_toml, DecodedConfiguration,
}
use yoru_speech.Config.Toml.RoundTrip.{TomlLaws, decode_toml-encode_toml}
use yoru_speech.Config.Store.{
  FileSystem, readable, Manager, load_file, load, update, create, read_file,
}
use yoru_speech.Config.Store.Updates.{Outcome, update_lem}

module _ (toml : TomlLibrary) (laws : TomlLaws toml) where
  load_lem :
      (fs : FileSystem) (m : Manager) (text : Text) (d : DecodedConfiguration)
      → fs.create_directories_error ≡ none
      → fs.exists_error ≡ none
      → fs.reading ≡ readable
      → m.disk.target ≡ some text
      → decode_toml toml text default_configuration ≡ d
      → load toml fs m ≡ (d.errors, record m { configuration = d.configuration })
  unfolding load load_file read_file
  load_lem fs m text d e f g h k = rw (load, e, f, h, load_file, g, h, k) refl

  -- If update returned no error, a manager made over the files it left, whose directory and file can
  -- be read, loads exactly that configuration, without an error, if toml++ parses the text of its
  -- table to that table.
  pub load-update :
      (before after : FileSystem) (next : Configuration) (m : Manager)
      → toml.parse (toml.print (table_of toml next)) ≡ parsed (table_of toml next)
      → (update toml before next m).0 ≡ []
      → after.create_directories_error ≡ none
      → after.exists_error ≡ none
      → after.reading ≡ readable
      → let restarted = create ((update toml before next m).1).disk in
        load toml after restarted ≡ ([], record restarted { configuration = next })
  unfolding Outcome create
  load-update before after next m p e f g h = elim (update_lem toml before next m) [
    | inr (wrong, c, target, published) ↦ ground arith
    | inl (no_error, valid, c, target, published) ↦
        load_lem after (create ((update toml before next m).1).disk) (encode_toml toml next)
          (record { configuration = next; errors = [] }) f g h target
          (decode_toml-encode_toml toml laws next default_configuration p valid)
  ]
