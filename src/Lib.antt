-- ===== src/Lib.antt =====
-- LlamaRig supervises llama.cpp: it downloads model files, keeps model presets in models.ini,
-- edits its own configuration and runs the Router. This library models the parts of it that
-- decide something, each by functions that compute what the Go functions compute, and proves what
-- they promise.
--
-- Common holds what the parts share: texts as lists of code points with the functions of package
-- strings that the program uses, Go maps as association lists, results of fallible functions,
-- int64 with its wrap-around, and the laws of all these.
--
-- ModelDownload is core/modeldownload. Its Operations are the pieces of manager.go between a Lock
-- and its Unlock (Start, Get, Cancel, the updates of run, clearActive), on a record of the
-- manager's three maps; System interleaves them: clients call, and the goroutine of each job is
-- spawned, begins, makes progress, settles and clears its path, in any order across jobs. Worker
-- is one download from `download` in manager.go and store.go, given the answers of the file
-- system and of the server. A goroutine's steps are bounded by no fuel: a response body is a
-- finite sequence of reads.
--
-- ModelCatalog is core/modelcatalog/fit.go: whether a file fits into the memory of the machine.
-- The product float64(capacity) * 0.90, cut to an int64, and the text of a size in GiB are
-- parameters; of a file and of a machine the fields are kept that a fit turns on.
--
-- ModelPresets is core/modelpresets/store.go. Ini is the text of models.ini (read, renderSection,
-- removeSection), Store the operations on the file, the remaining modules what reading a written
-- text gives. The call of filedoc.WriteFile that fails is an input: FileDoc is
-- platform/filedoc/filedoc.go as far as the file is concerned that is replaced, which is so only
-- from the rename on, also where the directory then cannot be synchronised. Go leaves the order
-- in which a map is walked open: `Put` walks the list that stands for it in its order, which is
-- any.
--
-- Config is config/config.go behind the YAML decoder: the record, its defaults and its
-- validation. ConfigStore is core/configstore/config_store.go: the tree of YAML nodes with a
-- function for each edit that returns the edited tree (Edits), and the read, edit, validate and
-- write of config.yaml (Store). The YAML library is a parameter: a decoder, a parser and an
-- encoder. A write through a pointer into the tree is a function on the value behind the first
-- key of that text; comments and styles are one field that no edit writes.
--
-- Control is a part of core/control: Events is events.go, Mutation is withMutationResult in
-- manager.go, with requests in sequence (Mutation.Sequence), Router is router_refresh.go over an
-- interface of the Router's process and client, whose state is any type, and Presets is the
-- creation and deletion of presets in presets.go, on the file of ModelPresets and the Router's
-- state. Operation is runtime_controller.go: the start, stop and restart of a preset, and the
-- status. LlamaHelp is llama_help.go: Flags and Parser read the output of llama-server --help,
-- the two patterns of package regexp being functions that find what the patterns find first, and
-- Cached keeps what was read; positions in a line count characters, as the program only compares
-- them with one another. Cleanup is CleanupPreset and DeleteLocalModel (presets.go,
-- model_cleanup.go), which edit models.ini and config.yaml together; what a preset names is
-- ModelPresets.Source (core/modelpresets/source.go), over a parameter for paths. The texts of an
-- error that only quote another are left out, its kind is kept.
--
-- AuditLog is platform/audit/logs.go: Tail reads the end of a log in chunks (readTailChunks,
-- formatTail), Follow writes what comes to it (FollowLog), Clock is the time in an archive's
-- name, and Archive the archives: their names, moving a log among them (Archive.Move) and their
-- list, deletion and expiry. What the file system answers is an argument: the reads of a file,
-- what each tick of FollowLog sees, the call that fails. What happens to a followed log between
-- two ticks is a list of events (Follow.Events). The loop of readTailChunks has one round of fuel
-- more than the file has bytes, and every round lowers the place that it reads from, so that it
-- never runs out. Times are those of the years 0 to 9999, and slices.SortFunc is an insertion
-- sort: the order of archives of the same time is not the source's.
--
-- Runtime is core/runtime: Machine is the state of a LlamaServer and the interface of the
-- operating system that it calls, whose state is any type, PidFile is platform/pidfile, and
-- Server the operations under the server's lock (Start, Stop, Recover, Status), in a monad of
-- that state. The loops of waitReady and waitPIDExit are on fuel, and an operation whose loop
-- runs out has no answer: for Start the readiness timeout in nanoseconds and two are enough, if
-- the clock goes on.
--
-- Times, ids and the percentage's float64 arithmetic are parameters: the clock's and the id
-- generator's answers are arguments, and float64 is a record of operations. unicode.ToUpper and
-- unicode.ToLower are modelled as far as a key can turn on them. Text is taken to be valid UTF-8.
--
-- Not modelled are the two settings requests of core/control/config_controller.go, which pass on
-- what the configuration writer answers, stopping the whole Router and the start of the autostart
-- presets, platform/audit/zap.go, the adapters (command line, terminal, MCP, HTTP), the gRPC
-- translation, the web UI, hardware signals, platform/process, the installer and the rest of
-- core/modelcatalog, its network client above all: they call libraries, the operating system and
-- the network.
pub mod AuditLog
pub mod Common
pub mod Config
pub mod ConfigStore
pub mod Control
pub mod FileDoc
pub mod ModelCatalog
pub mod ModelDownload
pub mod ModelPresets
pub mod Runtime
