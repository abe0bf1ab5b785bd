-- ===== src/Cli/Files.antt =====
-- cmd/crawlwall/main.go: `runInit` behind its flags, `writeScaffoldFile`, `writeKeyPair`; and
-- internal/receipt/signer.go: `GenerateKeyPairFiles`. The file system is a map from paths to files;
-- which calls on it fail is outside (`Faults`), and a write that fails has written nothing. A file that
-- exists keeps its permissions when it is written, as os.WriteFile says.
pub mod Kept
use crawlwall.Base.{
  ℕ, String, Bool, true, false, not, Option, none, some, List, [], ◌∷◌, if◌then◌else◌, Result, ok,
  err,
}
use crawlwall.Base.Dict.{Dict, lookup, insert}
use crawlwall.Cli.Scaffold.{caddyfile_text, gitignore_text, scaffold_policy}

pub record File : Type 0 where
  pub contents : String
  pub permissions : ℕ

abbrev pub Store : Type 0
Store = Dict File

-- Why a call on a path fails, if it does: `os.Stat` with an error that is not "not found",
-- `os.MkdirAll` of the path's directory, `os.WriteFile`.
pub record Faults : Type 0 where
  pub stat : String → Option String
  pub make_directory : String → Option String
  pub write : String → Option String

pub data FileError : Type 0 where
  refusing_to_overwrite : String → FileError
  stat_failed : String → FileError
  directory_failed : String → String → FileError
  write_failed : String → String → FileError
  keys_failed : String → FileError
  unknown_profile : String → FileError

-- the state after an operation, and its error
abbrev pub Outcome : Type 0
Outcome = Store × Option FileError

-- go on where there was no error
abbrev pub and_next : Outcome → (Store → Outcome) → Outcome
and_next (s, none) next = next s
and_next (s, some e) next = (s, some e)

-- `if err != nil { return err }`, where the store has not changed
abbrev pub unless : Option FileError → Store → Outcome → Outcome
unless none s next = next
unless (some e) s next = (s, some e)

abbrev pub permissions_or : ℕ → Option File → ℕ
permissions_or permissions none = permissions
permissions_or permissions (some f) = f.permissions

-- `os.WriteFile` that does not fail
unfoldable pub put : String → String → ℕ → Store → Store
unfolding lookup insert
put path contents permissions s =
    insert path
      (record { contents = contents; permissions = permissions_or permissions (lookup path s) }) s

-- the flags of `init`
pub record InitOptions : Type 0 where
  pub directory : String
  pub profile : String
  pub force : Bool
  pub write_caddyfile : Bool
  pub write_gitignore : Bool
  pub generate_keys : Bool

-- the keys in PEM form, or why there are none
abbrev pub Keys : Type 0
Keys = Result String (String × String)

-- an optional step
abbrev pub when : Bool → (Store → Outcome) → Store → Outcome
when true step s = step s
when false step s = (s, none)

-- one step after the other, up to the first error
unfoldable pub run_steps : List (Store → Outcome) → Store → Outcome
run_steps [] s = (s, none)
run_steps (step ∷ steps) s = and_next (step s) (run_steps steps)

module _ (faults : Faults) where
  unfoldable pub write_file : String → String → ℕ → Store → Outcome
  unfolding put
  write_file path contents permissions s = elim (faults.write path) [
    | some m ↦ (s, some (write_failed path m))
    | none ↦ (put path contents permissions s, none)
  ]

  unfoldable pub make_directory : String → Option FileError
  make_directory path = elim (faults.make_directory path) [
    | some m ↦ some (directory_failed path m)
    | none ↦ none
  ]

  -- the test for an existing file
  unfoldable pub refuse_existing : String → Store → Option FileError
  refuse_existing path s = elim (faults.stat path) [
    | some m ↦ some (stat_failed m)
    | none ↦ elim (lookup path s) [ some f ↦ some (refusing_to_overwrite path) | none ↦ none ]
  ]

  -- `if !force { ... }`
  unfoldable pub guard : Bool → String → Store → Option FileError
  unfolding refuse_existing
  guard force path s = if not force then refuse_existing path s else none

  unfoldable pub write_scaffold_file : Bool → String → String → ℕ → Store → Outcome
  unfolding guard make_directory write_file
  write_scaffold_file force path contents permissions s =
      unless (guard force path s) s
        (unless (make_directory path) s (write_file path contents permissions s))

  unfoldable pub generate_key_pair_files : Keys → String → String → Store → Outcome
  unfolding make_directory write_file
  generate_key_pair_files (err m) private_path public_path s = (s, some (keys_failed m))
  generate_key_pair_files (ok (private_pem, public_pem)) private_path public_path s =
      unless (make_directory private_path) s (
        unless (make_directory public_path) s (
          and_next (write_file private_path private_pem 0o600 s)
            (write_file public_path public_pem 0o644)))

  unfoldable pub write_key_pair : Bool → Keys → String → String → Store → Outcome
  unfolding guard generate_key_pair_files
  write_key_pair force keys private_path public_path s = unless (guard force private_path s) s (
      unless (guard force public_path s) s
        (generate_key_pair_files keys private_path public_path s))

  -- what `init` writes, in this order; `join` is `filepath.Join` with the target directory
  unfoldable pub starter_steps :
      (String → String) → Keys → InitOptions → Bool → String → List (Store → Outcome)
  unfolding write_scaffold_file write_key_pair
  starter_steps join keys o force policy_text =
      write_scaffold_file force (join "crawlwall.yaml") policy_text 0o644
      ∷ when o.write_caddyfile (write_scaffold_file force (join "Caddyfile") caddyfile_text 0o644)
      ∷ when o.write_gitignore (write_scaffold_file force (join ".gitignore") gitignore_text 0o644)
      ∷ when o.generate_keys
          (write_key_pair force keys (join "crawlwall.key") (join "crawlwall.pub"))
      ∷ []

  abbrev pub init_with :
      (String → String) → Keys → InitOptions → Result String String → Store → Outcome
  init_with join keys o (err profile) s = (s, some (unknown_profile profile))
  init_with join keys o (ok policy_text) s =
      unless (make_directory o.directory) s
        (run_steps (starter_steps join keys o o.force policy_text) s)

  unfoldable pub run_init :
      (String → String) → (String → String) → Keys → InitOptions → Store → Outcome
  unfolding scaffold_policy
  run_init to_lower join keys o s = init_with join keys o (scaffold_policy to_lower o.profile) s
