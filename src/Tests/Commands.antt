-- ===== src/Tests/Commands.antt =====
-- The theorems on the command line and on main at concrete inputs.
use f.Prelude.{
  ℕ, ◌≡◌, ◌↔◌, ◌⊎◌, refl, subst, Bool, true, false, inl, inr, Option, none, some, List, [], ◌∷◌,
  All, arith, if◌then◌else◌,
}
use f.Bytes.{Bytes, codes, equal}
use f.Command.{
  Variables, initial, Parse, ended, parsed, Cli, app, is_parsed, serve, command_of, command_line,
}
use f.Command.Checked.{IsTaken, IsChecking, IsChecked, command_line-IsChecked}
use f.Config.{settings_of, source_of, locations_of, add_locations}
use f.FileSystem.{exists, is_directory}
use f.Json.{Result, ok}
use f.Listen.{listen, call_all, call_contexts}
use f.Main.{main, build_server, build_servers, build_advanced_server}
use f.Main.Codes.{Finishes, run_servers_iff}
use f.Main.{Instance, run_command, run_servers, start_servers, run_loop}
use f.Main.Places.{add_all}
use f.Router.Sorted.{insertion_sort}
use f.Tests.Configs.{
  Value, array, element, no_element, object, member, no_member, values, network, server_entry,
  attempt,
}
use f.Tests.Replies.{site}

-- A parse of two subcommands with their one argument, which it checks, and of no options.
abbrev is_true : Option Bool → Bool
is_true (some true) = true
is_true _ = false

abbrev is_false : Option Bool → Bool
is_false (some false) = true
is_false _ = false

abbrev accept_if : Bool → Parse → Parse
accept_if test p = if test then p else ended 105

abbrev serve_names : Bytes → Variables → Parse
serve_names path v =
    accept_if (is_true (is_directory (site path)))
      (parsed (codes "serve" ∷ []) (record v { root_doc = path }))

abbrev config_names : Bytes → Variables → Parse
config_names path v = accept_if (is_true (exists (site path))) (
    accept_if (is_false (is_directory (site path)))
      (parsed (codes "config" ∷ []) (record v { config_path = path })))

abbrev positional : Cli
positional a v [] = parsed [] v
positional a v (_ ∷ []) = ended 106
positional a v (name ∷ path ∷ []) =
    if equal name (codes "serve")
    then serve_names path v
    else if equal name (codes "config")
    then config_names path v
    else ended 109
positional a v (_ ∷ _ ∷ _ ∷ _) = ended 109

is_true-some : (b : Option Bool) → is_true b ≡ true → b ≡ some true
is_true-some none h = cc h
is_true-some (some true) h = refl
is_true-some (some false) h = cc h

is_false-some : (b : Option Bool) → is_false b ≡ true → b ≡ some false
is_false-some none h = cc h
is_false-some (some true) h = cc h
is_false-some (some false) h = refl

abbrev IsTaking : Parse → Type 0
IsTaking (ended code) = Unit
IsTaking (parsed names v) =
    All (λ s. (is_parsed s names ≡ false) ⊎ All (IsTaken site initial v) s.options) app.subcommands

accept_if-IsTaking :
    (test : Bool) (p : Parse) → (test ≡ true → IsTaking p) → IsTaking (accept_if test p)
accept_if-IsTaking true p h = h refl
accept_if-IsTaking false p h = tt

serve_names-IsTaking : (path : Bytes) → IsTaking (serve_names path initial)
unfolding is_parsed
serve_names-IsTaking path = accept_if-IsTaking (is_true (is_directory (site path))) _ (λ yes. (
  inr (inl (is_true-some (is_directory (site path)) yes), (inl (omega arith), (inl tt, tt))),
  (inl refl, tt),
))

config_names-IsTaking : (path : Bytes) → IsTaking (config_names path initial)
unfolding is_parsed
config_names-IsTaking path = accept_if-IsTaking (is_true (exists (site path))) _ (λ there.
    accept_if-IsTaking (is_false (is_directory (site path))) _ (λ plain. (
      inl refl,
      (
        inr (
          inl (
            is_true-some (exists (site path)) there,
            is_false-some (is_directory (site path)) plain,
          ),
          tt,
        ),
        tt,
      ),
    )))

if-IsTaking :
    (test : Bool) (p q : Parse) → IsTaking p → IsTaking q → IsTaking (if test then p else q)
if-IsTaking true p q h k = h
if-IsTaking false p q h k = k

positional-IsTaking : (argv : List Bytes) → IsTaking (positional app initial argv)
unfolding is_parsed
positional-IsTaking [] = (inl refl, (inl refl, tt))
positional-IsTaking (_ ∷ []) = tt
positional-IsTaking (name ∷ path ∷ []) =
    if-IsTaking (equal name (codes "serve")) _ _ (serve_names-IsTaking path)
      (if-IsTaking (equal name (codes "config")) _ _ (config_names-IsTaking path) tt)
positional-IsTaking (_ ∷ _ ∷ _ ∷ _) = tt

positional-IsChecking : IsChecking site positional
positional-IsChecking argv names v e = subst IsTaking e (positional-IsTaking argv)

command_line-IsChecked_example :
    IsChecked site (command_line positional (codes "serve" ∷ codes "/srv" ∷ []))
command_line-IsChecked_example =
    command_line-IsChecked site positional (codes "serve" ∷ codes "/srv" ∷ []) positional-IsChecking

serve_line :
    command_line positional (codes "serve" ∷ codes "/srv" ∷ [])
    ≡ serve (codes "/srv") (codes "0.0.0.0") 80
unfolding command_line command_of is_parsed equal site
serve_line = refl

-- Where both subcommands were parsed, `config` is passed over.
both_parsed :
    (v : Variables)
    → command_of (parsed (codes "config" ∷ codes "serve" ∷ []) v)
      ≡ serve v.root_doc v.bind_address v.port
unfolding command_of is_parsed equal
both_parsed v = refl

abbrev config_args : List Bytes
config_args = codes "config" ∷ codes "/srv/index.html" ∷ []

-- A file that holds the entry of the other tests.
abbrev config_file : Bytes → Option (Result Value)
config_file path =
    some
      (ok (object (member (codes "servers") (array (element server_entry no_element)) no_member)))

abbrev started : Result (List (Instance Value) × ℕ)
started = build_advanced_server values network insertion_sort config_file (codes "f16.json") 3

run_servers_iff_example :
    (run_servers values network insertion_sort config_file ok
        (λ servers. attempt)
        20
        (start_servers values network insertion_sort config_file ok (λ servers. attempt) started)
      ≡ some 0)
    ↔ Finishes values network insertion_sort config_file ok (λ servers. attempt) started 20
run_servers_iff_example =
    run_servers_iff values network insertion_sort config_file ok (λ servers. attempt) started 20

-- The program reports what its runs throw, and returns 0 in the end.
config_code :
    main values network insertion_sort config_file ok
      (λ servers. attempt)
      positional
      20
      config_args
      3
    ≡ some 0
unfolding main run_command run_servers start_servers run_loop command_line command_of is_parsed
    equal site build_advanced_server build_servers build_server settings_of source_of locations_of
    add_locations add_all call_contexts listen call_all
config_code = refl
