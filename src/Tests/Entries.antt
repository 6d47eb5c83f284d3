-- ===== src/Tests/Entries.antt =====
-- The theorem on an entry that says nothing, at a concrete entry.
use f.Prelude.{none}
use f.Bytes.{codes}
use f.Config.{Source}
use f.Main.{Instance}
use f.Parser
use f.Tests.Configs.{Value, object, member, no_member, text}

abbrev silent_entry : Value
silent_entry = object (member (codes "listen_address") (text (codes "0.0.0.0")) no_member)

abbrev silent_server : Instance Value
silent_server = record {
  settings = none;
  source = Source.unset;
  port = codes "80";
  address = codes "0.0.0.0";
}
