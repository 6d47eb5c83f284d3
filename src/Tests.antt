-- ===== src/Tests.antt =====
-- Runs of the theorems at concrete inputs, by the parts of the program.
mod Parsing
mod Texts
mod Replies
mod Routing
mod Serving
mod Redirects
mod Configs
mod Commands
mod Files
mod Folders
mod Entries
mod Suite
mod Programs
