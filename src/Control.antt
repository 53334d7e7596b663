-- ===== src/Control.antt =====
-- core/control: the manager behind every mutating request, and what it records.
pub mod Events
pub mod Mutation
pub mod Router
pub mod Operation
pub mod LlamaHelp
pub mod Presets
pub mod Cleanup
mod Tests
use llamarig.Common.{Bool, Option, none, some, List, [], ◌∷◌}
use llamarig.Common.Text.{Text}
use llamarig.Common.Results.{Result, ok, err}
use llamarig.ConfigStore.Store.{StoreError}
use llamarig.ModelPresets.{Error, invalid, exists, not_found, io}

-- `ErrorKind`
pub data ErrorKind : Type 0 where
  invalid_input missing conflict runtime_error timed_out permission internal : ErrorKind

-- runtime.Error, by its kind; `unclassified` is any other error.
pub data RuntimeKind : Type 0 where
  bad_input timeout failed unclassified : RuntimeKind

pub record RuntimeFailure : Type 0 where
  pub kind : RuntimeKind
  pub message : Text

-- An error of the manager: a core error of a kind, with a text of its own, with the text of a
-- store's error or with the text of a runtime error, or an error that is passed on as it is.
pub data Failure : Type 0 where
  core_error : ErrorKind → Text → Failure
  store_error : ErrorKind → Error → Failure
  mapped_error : ErrorKind → RuntimeFailure → Failure
  passed_error : RuntimeFailure → Failure
  passed_store : Error → Failure
  config_error : ErrorKind → StoreError → Failure
  passed_config : StoreError → Failure

-- `Kind`
unfoldable pub kind_of : Failure → ErrorKind
kind_of (core_error k message) = k
kind_of (store_error k e) = k
kind_of (mapped_error k f) = k
kind_of (passed_error f) = internal
kind_of (passed_store e) = internal
kind_of (config_error k e) = k
kind_of (passed_config e) = internal

-- `mapServerConfigError`; an error of the file system is taken to be none that the table names.
unfoldable pub map_server_config_error : Error → Failure
map_server_config_error (invalid why) = store_error invalid_input (invalid why)
map_server_config_error (not_found name) = store_error missing (not_found name)
map_server_config_error (exists name) = store_error conflict (exists name)
map_server_config_error (io e) = passed_store (io e)

-- `mapRuntimeError`
unfoldable pub map_runtime_error : RuntimeFailure → Failure
map_runtime_error f = elim f.kind [
  | bad_input ↦ mapped_error invalid_input f
  | timeout ↦ mapped_error timed_out f
  | failed ↦ mapped_error runtime_error f
  | unclassified ↦ passed_error f
]
