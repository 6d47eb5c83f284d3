-- ===== src/Main/Unset.antt =====
-- A server of a configuration whose entry says neither what to return nor what to serve.
use f.Bytes.{Bytes}
use f.FileSystem.{FileSystem}
use f.Parser
