-- ===== src/Command/Checked.antt =====
-- What main can rely on behind the parse of its arguments.
use f.Prelude.{
  ℕ, ◌<◌, ◌≡◌, ◌⊎◌, inl, inr, Bool, true, false, Bool-cases, some, List, All, refl, arith,
}
use f.Bytes.{Bytes}
use f.FileSystem.{FileSystem, exists, is_directory}
use f.Command.{
  Variables, initial, Binding, text, existing_directory, existing_file, positive_number, CliOption,
  app, serve_cmd, config_cmd, Parse, ended, parsed, Cli, is_parsed, Command, exits, serve, config,
  help, command_of, command_line,
}

-- The variable holds a value that the check accepts.
abbrev pub Passes : FileSystem → Binding → Variables → Type 0
Passes fs (text field) v = Unit
Passes fs (existing_directory field) v = is_directory (fs (field v)) ≡ some true
Passes fs (existing_file field) v =
    (exists (fs (field v)) ≡ some true) × (is_directory (fs (field v)) ≡ some false)
Passes fs (positive_number field) v = 0 < field v

-- The variable is as it was.
abbrev pub Keeps : Binding → Variables → Variables → Type 0
Keeps (text field) v v' = field v' ≡ field v
Keeps (existing_directory field) v v' = field v' ≡ field v
Keeps (existing_file field) v v' = field v' ≡ field v
Keeps (positive_number field) v v' = field v' ≡ field v

-- An option was given, with a value that its check accepts; or it was not, and is not required.
abbrev pub IsTaken : FileSystem → Variables → Variables → CliOption → Type 0
IsTaken fs v v' o = Passes fs o.binding v' ⊎ ((o.is_required ≡ false) × Keeps o.binding v v')

-- What CLI11 documents of `required` and `check`, for what main declares: where the parse does not
-- end the program, they hold for every option of a subcommand that was parsed.
abbrev pub IsChecking : FileSystem → Cli → Type 0
IsChecking fs cli =
    (argv names : List Bytes) (v : Variables)
    → cli app initial argv ≡ parsed names v
    → All (λ s. (is_parsed s names ≡ false) ⊎ All (IsTaken fs initial v) s.options) app.subcommands

-- The root is a directory and the port is not 0; the configuration is there and is no directory.
abbrev pub IsChecked : FileSystem → Command → Type 0
IsChecked fs (exits code) = Unit
IsChecked fs (serve root_doc bind_address port) =
    (is_directory (fs root_doc) ≡ some true) × (0 < port)
IsChecked fs (config path) = (exists (fs path) ≡ some true) × (is_directory (fs path) ≡ some false)
IsChecked fs help = Unit

-- A subcommand that was parsed has its options taken.
parsed_options : {is_on : Bool} {P : Type 0} → is_on ≡ true → (is_on ≡ false) ⊎ P → P
parsed_options on (inl off) = cc (on, off)
parsed_options on (inr options) = options

required_passes : {P Q : Type 0} → P ⊎ ((true ≡ false) × Q) → P
required_passes (inl passes) = passes
required_passes (inr (optional, _)) = cc optional

port_positive : {Q : Type 0} (port : ℕ) → (0 < port) ⊎ (Q × (port ≡ 80)) → 0 < port
port_positive port (inl positive) = positive
port_positive port (inr (_, unchanged)) = omega (arith, unchanged)

parsed-IsChecked :
    (fs : FileSystem) (names : List Bytes) (v : Variables)
    → All (λ s. (is_parsed s names ≡ false) ⊎ All (IsTaken fs initial v) s.options) app.subcommands
    → IsChecked fs (command_of (parsed names v))
unfolding command_of
parsed-IsChecked fs names v (as_serve, (as_config, _)) =
    elim (Bool-cases (is_parsed serve_cmd names)) [
      | inl on ↦ simp on (
          let (root_doc, (port, _)) = parsed_options on as_serve in
          (required_passes root_doc, port_positive v.port port))
      | inr off ↦ elim (Bool-cases (is_parsed config_cmd names)) [
        | inl on ↦
            simp (off, on)
              (let (config_path, _) = parsed_options on as_config in required_passes config_path)
        | inr neither ↦ simp (off, neither) tt
      ]
    ]

-- Whatever the arguments, where the checks of CLI11 do what they are documented to do, main comes
-- to its servers only with values that fit: `serve` with a root that is a directory and a port above
-- 0, that of an option or 80, and `config` with a path that exists and is no directory.
pub command_line-IsChecked :
    (fs : FileSystem) (cli : Cli) (argv : List Bytes)
    → IsChecking fs cli
    → IsChecked fs (command_line cli argv)
unfolding command_line command_of
command_line-IsChecked fs cli argv checking = cases (cli app initial argv) refl
  where
    cases : (p : Parse) → cli app initial argv ≡ p → IsChecked fs (command_of p)
    cases (ended code) e = tt
    cases (parsed names v) e = parsed-IsChecked fs names v (checking argv names v e)
