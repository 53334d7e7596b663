-- ===== src/Control/LlamaHelp.antt =====
-- core/control/llama_help.go: the flags that llama-server describes in its --help output. Flags is
-- the search for flags in a line, Parser reads the output, Cached keeps what was read.
pub mod Flags
pub mod Parser
pub mod Cached
pub mod Runs
pub mod Fresh
pub mod Names
mod Tests
