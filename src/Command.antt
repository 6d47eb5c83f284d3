-- ===== src/Command.antt =====
-- src/server/main.cpp: what main declares to CLI11, and which of its branches the parse leads to.
-- CLI11 is a parameter: a parse of the arguments, for what has been declared.
pub mod Checked
use f.Prelude.{ℕ, Bool, true, false, ◌||◌, List, [], ◌∷◌, if◌then◌else◌}
use f.Bytes.{Bytes, codes, equal}

-- The variables of main that options are bound to.
pub record Variables : Type 0 where
  pub root_doc : Bytes
  pub port : ℕ
  pub bind_address : Bytes
  pub config_path : Bytes

-- Their values before the parse.
abbrev pub initial : Variables
initial = record { root_doc = []; port = 80; bind_address = codes "0.0.0.0"; config_path = [] }

-- The variable that an option sets, with the `check` on it: none, `CLI::ExistingDirectory`,
-- `CLI::ExistingFile`, or `CLI::PositiveNumber`.
pub data Binding : Type 0 where
  text existing_directory existing_file : (Variables → Bytes) → Binding
  positive_number : (Variables → ℕ) → Binding

-- What `add_option` gives, with `required`.
pub record CliOption : Type 0 where
  pub name : Bytes
  pub binding : Binding
  pub is_required : Bool

-- What `add_subcommand` gives.
pub record Subcommand : Type 0 where
  pub name : Bytes
  pub options : List CliOption

-- `CLI::App`, with the number that is given to `require_subcommand`, and the flags that end the
-- program.
pub record App : Type 0 where
  pub required_subcommands : ℕ
  pub flags : List Bytes
  pub subcommands : List Subcommand

abbrev pub serve_cmd : Subcommand
serve_cmd = record {
  name = codes "serve";
  options =
      (record {
        name = codes "root_doc";
        binding = existing_directory (λ v. v.root_doc);
        is_required = true;
      })
      ∷ (record {
        name = codes "-p,--port";
        binding = positive_number (λ v. v.port);
        is_required = false;
      })
      ∷ (record {
        name = codes "-b,--bind";
        binding = text (λ v. v.bind_address);
        is_required = false;
      })
      ∷ [];
}

abbrev pub config_cmd : Subcommand
config_cmd = record {
  name = codes "config";
  options =
      (record {
        name = codes "config_path";
        binding = existing_file (λ v. v.config_path);
        is_required = true;
      })
      ∷ [];
}

abbrev pub app : App
app = record {
  required_subcommands = 0;
  flags = codes "-v,--version" ∷ [];
  subcommands = serve_cmd ∷ config_cmd ∷ [];
}

-- What `parse` leaves: the code that ends the program, for an error, for the help or for a flag; or
-- the names of the subcommands that were parsed, and the variables.
pub data Parse : Type 0 where
  ended : ℕ → Parse
  parsed : List Bytes → Variables → Parse

-- The parse of the arguments, for an app and the variables as they are.
abbrev pub Cli : Type 0
Cli = App → Variables → List Bytes → Parse

-- `parsed()` of a subcommand.
unfoldable pub is_parsed : Subcommand → List Bytes → Bool
unfolding equal
is_parsed s [] = false
is_parsed s (name ∷ names) = equal s.name name || is_parsed s names

-- The branch of main: the end of the program, the servers of a subcommand, or the help.
pub data Command : Type 0 where
  exits : ℕ → Command
  serve : (root_doc bind_address : Bytes) (port : ℕ) → Command
  config : Bytes → Command
  help : Command

-- The `if` on the subcommands: `serve` comes first where both were parsed.
unfoldable pub command_of : Parse → Command
unfolding is_parsed
command_of (ended code) = exits code
command_of (parsed names v) =
    if is_parsed serve_cmd names
    then serve v.root_doc v.bind_address v.port
    else if is_parsed config_cmd names
    then config v.config_path
    else help

-- From the arguments to the branch.
unfoldable pub command_line : Cli → List Bytes → Command
unfolding command_of
command_line cli argv = command_of (cli app initial argv)
