-- ===== src/Examples/Https.antt =====
-- https_static.cpp: the server without TLS sends its clients to the one with TLS.
use f.Bytes.{Bytes}
use f.FileSystem.{FileSystem}
use f.Parser
