-- ===== src/Config/Store.antt =====
-- domains/config/configuration_manager.cpp: the configuration file, its temporary file and the
-- ConfigurationManager over them. What the file system answers is an argument of each operation.
pub mod Updates
pub mod Restart
use yoru_speech.Common.{
  Bool, true, false, List, [], ◌∷◌, ◌++◌, Option, none, some, Text, lit, has_value, if◌then◌else◌,
}
use yoru_speech.Config.Configuration.{Configuration, default_configuration}
use yoru_speech.Config.Toml.{
  TomlLibrary, ValidationError, DecodedConfiguration, validate, encode_toml, decode_toml,
}

-- The contents of config_path and of its temporary file, if they exist.
pub record Disk : Type 0 where
  pub target : Option Text
  pub temporary : Option Text

-- How the calls of write_file_atomically end.
pub data WriteOutcome : Type 0 where
  -- The temporary file cannot be opened.
  not_opened : WriteOutcome
  -- Only this much was written to it.
  partly_written : Text → WriteOutcome
  -- rename fails with this message; whether the removal of the temporary file succeeds.
  not_renamed : Text → Bool → WriteOutcome
  renamed : WriteOutcome

pub data ReadOutcome : Type 0 where
  not_readable : ReadOutcome
  read_failed : ReadOutcome
  readable : ReadOutcome

-- What the file system answers during one operation: an error message of create_directories and of
-- exists if they fail, and the rest.
pub record FileSystem : Type 0 where
  pub create_directories_error : Option Text
  pub exists_error : Option Text
  pub reading : ReadOutcome
  pub writing : WriteOutcome

-- Without an error, the contents.
pub data FileContents : Type 0 where
  contents : Text → FileContents
  read_error : Text → FileContents

unfoldable pub read_file : ReadOutcome → Option Text → FileContents
read_file not_readable file = read_error (lit "failed to open file for reading")
read_file read_failed file = read_error (lit "failed to read file contents")
read_file readable none = read_error (lit "failed to open file for reading")
read_file readable (some text) = contents text

-- The error message if there is one, and the disk afterwards.
unfoldable pub write_file_atomically : WriteOutcome → Text → Disk → Option Text × Disk
write_file_atomically not_opened text disk =
    (some (lit "failed to open temporary file for writing"), disk)
write_file_atomically (partly_written part) text disk =
    (some (lit "failed to write temporary file"), record disk { temporary = some part })
write_file_atomically (not_renamed message removed) text disk = (
  some (lit "failed to move temporary file into place: " ++ message),
  record disk { temporary = if removed then none else some text },
)
write_file_atomically renamed text disk = (none, record { target = some text; temporary = none })

pub record Manager : Type 0 where
  pub configuration : Configuration
  pub disk : Disk
  -- The configurations of the ConfigurationChanged events, oldest first.
  pub published : List Configuration

-- The constructor, over the files that are there.
unfoldable pub create : Disk → Manager
create disk = record { configuration = default_configuration; disk = disk; published = [] }

abbrev file_error : Text → List ValidationError
file_error message = record { field = lit "<file>"; message = message } ∷ []

-- The errors of a write: those of `{ValidationError{"<file>", *error}}`.
abbrev write_errors : Option Text → List ValidationError
write_errors none = []
write_errors (some message) = file_error message

unfoldable pub current : Manager → Configuration
current m = m.configuration

module _ (toml : TomlLibrary) where
  -- load when config_path exists.
  load_file : FileSystem → Manager → List ValidationError × Manager
  load_file fs m = elim (read_file fs.reading m.disk.target) [
    | read_error message ↦ (file_error message, record m { configuration = default_configuration })
    | contents text ↦
        let decoded = decode_toml toml text default_configuration in
        (decoded.errors, record m { configuration = decoded.configuration })
  ]

  -- load when it does not exist: the defaults are written.
  load_defaults : FileSystem → Manager → List ValidationError × Manager
  load_defaults fs m =
      let (error, disk) =
        write_file_atomically fs.writing (encode_toml toml default_configuration) m.disk in
      (write_errors error, record m { configuration = default_configuration; disk = disk })

  unfoldable pub load : FileSystem → Manager → List ValidationError × Manager
  unfolding load_file load_defaults read_file write_file_atomically
  load fs m = elim fs.create_directories_error [
    | some message ↦ (
      file_error (lit "failed to create config directory: " ++ message),
      record m { configuration = default_configuration },
    )
    | none ↦ elim fs.exists_error [
      | some message ↦ (
        file_error (lit "failed to check config file: " ++ message),
        record m { configuration = default_configuration },
      )
      | none ↦ if has_value m.disk.target then load_file fs m else load_defaults fs m
    ]
  ]

  -- The end of update, once the configuration is written or not.
  written : Configuration → Manager → Option Text × Disk → List ValidationError × Manager
  written next m (some message, disk) = (file_error message, record m { disk = disk })
  written next m (none, disk) =
      ([], record { configuration = next; disk = disk; published = m.published ++ next ∷ [] })

  unfoldable pub update : FileSystem → Configuration → Manager → List ValidationError × Manager
  unfolding written write_file_atomically
  update fs next m = elim (validate next) [
    | e ∷ errors ↦ (e ∷ errors, m)
    | [] ↦ written next m (write_file_atomically fs.writing (encode_toml toml next) m.disk)
  ]

  pub data Action : Type 0 where
    loads : FileSystem → Action
    updates : FileSystem → Configuration → Action

  unfoldable pub step : Action → Manager → Manager
  unfolding load update
  step (loads fs) m = (load fs m).1
  step (updates fs next) m = (update fs next m).1

  unfoldable pub run : List Action → Manager → Manager
  unfolding step
  run [] m = m
  run (a ∷ more) m = run more (step a m)
