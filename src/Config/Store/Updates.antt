-- ===== src/Config/Store/Updates.antt =====
-- What load and update of the ConfigurationManager leave behind.
use yoru_speech.Common.{
  ◌≡◌, refl, ◌≢◌, ◌⊎◌, inl, inr, lit, text_eq, List, Option-cases, Bool-cases, has_value, [], ◌∷◌,
  ◌++◌, Option, none, some, Text, arith,
}
use yoru_speech.Config.Configuration.{Configuration, default_configuration}
use yoru_speech.Config.Toml.{
  TomlLibrary, ValidationError, validate, encode_toml, is_valid_language_code, is_valid_model_name,
}
use yoru_speech.Config.Toml.Validity.{decode_toml_valid}
use yoru_speech.Config.Store.{
  Disk, FileSystem, WriteOutcome, not_opened, partly_written, not_renamed, renamed, Manager, Action,
  write_file_atomically, load_file, load_defaults, written, load, update, current, step, run,
  create, loads, updates, read_file, contents, read_error, FileContents,
}

default_valid : validate default_configuration ≡ []
unfolding validate lit text_eq is_valid_language_code is_valid_model_name
default_valid = refl

-- The target holds its old contents or all of the new ones, and the latter exactly without an error.
write_lem :
    (outcome : WriteOutcome) (text : Text) (disk : Disk)
    → let (error, after) = write_file_atomically outcome text disk in
      ((error ≡ none) × (after.target ≡ some text) × (after.temporary ≡ none))
      ⊎ ((error ≢ none) × (after.target ≡ disk.target))
unfolding write_file_atomically
write_lem not_opened text disk = inr (ground arith, refl)
write_lem (partly_written part) text disk = inr (ground arith, refl)
write_lem (not_renamed message removed) text disk = inr (ground arith, refl)
write_lem renamed text disk = inl (refl, refl, refl)

module _ (toml : TomlLibrary) where
  unfoldable pub Outcome : Configuration → Manager → List ValidationError × Manager → Type 0
  Outcome next m (errors, after) =
      ((errors ≡ [])
        × (validate next ≡ [])
        × (after.configuration ≡ next)
        × (after.disk.target ≡ some (encode_toml toml next))
        × (after.published ≡ m.published ++ next ∷ []))
      ⊎ ((errors ≢ [])
          × (after.configuration ≡ m.configuration)
          × (after.disk.target ≡ m.disk.target)
          × (after.published ≡ m.published))

  written_lem :
      (next : Configuration) (m : Manager) (r : Option Text × Disk)
      → validate next ≡ []
      → let (error, after) = r in
        (((error ≡ none) × (after.target ≡ some (encode_toml toml next)) × (after.temporary ≡ none))
          ⊎ ((error ≢ none) × (after.target ≡ m.disk.target)))
        → Outcome next m (written toml next m r)
  unfolding Outcome written
  written_lem next m (none, disk) v (inl (e, t, u)) = inl (refl, v, refl, t, refl)
  written_lem next m (none, disk) v (inr (e, t)) = ground arith
  written_lem next m (some message, disk) v (inl (e, t, u)) = ground arith
  written_lem next m (some message, disk) v (inr (e, t)) = inr (ground arith, refl, t, refl)

  refused :
      (next : Configuration) (m : Manager) (e : ValidationError) (errors : List ValidationError)
      → Outcome next m (e ∷ errors, m)
  unfolding Outcome
  refused next m e errors = inr (ground arith, refl, refl, refl)

  update_cases :
      (fs : FileSystem) (next : Configuration) (m : Manager) (errors : List ValidationError)
      → validate next ≡ errors
      → Outcome next m (update toml fs next m)
  unfolding update
  update_cases fs next m (e ∷ errors) v = rw (update, v) (refused next m e errors)
  update_cases fs next m [] v =
      rw (update, v)
        (written_lem next m (write_file_atomically fs.writing (encode_toml toml next) m.disk) v
          (write_lem fs.writing (encode_toml toml next) m.disk))

  -- update is all or nothing. Without an error the configuration was valid, is the current one, is
  -- all that the file holds, and is announced once. With an error, the current configuration, the
  -- file and what was announced are as before.
  pub update_lem :
      (fs : FileSystem) (next : Configuration) (m : Manager)
      → Outcome next m (update toml fs next m)
  update_lem fs next m = update_cases fs next m (validate next) refl

  load_file_valid :
      (fs : FileSystem) (m : Manager) (r : FileContents)
      → read_file fs.reading m.disk.target ≡ r
      → validate ((load_file toml fs m).1).configuration ≡ []
  unfolding load_file
  load_file_valid fs m (contents text) e =
      rw (load_file, e) (decode_toml_valid toml text default_configuration default_valid)
  load_file_valid fs m (read_error message) e = rw (load_file, e) default_valid

  load_valid : (fs : FileSystem) (m : Manager) → validate ((load toml fs m).1).configuration ≡ []
  unfolding load load_defaults
  load_valid fs m = elim (Option-cases fs.create_directories_error) [
    | inr (message, e) ↦ rw (load, e) default_valid
    | inl e ↦ elim (Option-cases fs.exists_error) [
      | inr (message, f) ↦ rw (load, e, f) default_valid
      | inl f ↦ elim (Bool-cases (has_value m.disk.target)) [
        | inl t ↦
            rw (load, e, f, t) (load_file_valid fs m (read_file fs.reading m.disk.target) refl)
        | inr t ↦ rw (load, e, f, t) default_valid
      ]
    ]
  ]

  update_valid :
      (fs : FileSystem) (next : Configuration) (m : Manager)
      → validate m.configuration ≡ []
      → validate ((update toml fs next m).1).configuration ≡ []
  unfolding Outcome
  update_valid fs next m h = elim (update_lem fs next m) [
    | inl (e, v, c, t, p) ↦ rw c v
    | inr (e, c, t, p) ↦ rw c h
  ]

  run_valid :
      (actions : List (Action toml)) (m : Manager)
      → validate m.configuration ≡ []
      → validate (run toml actions m).configuration ≡ []
  unfolding run step
  run_valid [] m h = h
  run_valid (loads fs ∷ more) m h = run_valid more ((load toml fs m).1) (load_valid fs m)
  run_valid (updates fs next ∷ more) m h =
      run_valid more ((update toml fs next m).1) (update_valid fs next m h)

  -- After any loads and updates, however the file system answered and whatever the file held, the
  -- current configuration is one that validate accepts.
  pub current_valid :
      (actions : List (Action toml)) (disk : Disk)
      → validate (current (run toml actions (create disk))) ≡ []
  unfolding current create
  current_valid actions disk = run_valid actions (create disk) default_valid
