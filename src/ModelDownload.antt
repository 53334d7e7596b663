-- ===== src/ModelDownload.antt =====
-- core/modeldownload/types.go, and the state of core/modeldownload/manager.go: jobs, their errors,
-- and the three maps that the manager guards with its mutex.
pub mod Operations
pub mod Worker
pub mod System
pub mod Invariant
pub mod Lifecycle
pub mod Safety
pub mod Diagram
pub mod Endings
pub mod Finishing
mod Tests
use llamarig.Common.{Bool, Option, none, some, List, [], ◌||◌}
use llamarig.Common.Text.{Text}
use llamarig.Common.Int.{ℤ, pos}
use llamarig.Common.Dict.{Dict}
use llamarig.Common.Results.{Result}

-- float64, with the operations that the percentage uses.
pub record Float64 (F : Type 0) : Type 0 where
  pub of_int64 : ℤ → F
  pub mul : F → F → F
  pub div : F → F → F

pub data State : Type 0 where
  queued running completed failed cancelled already_downloaded : State

pub record Request : Type 0 where
  pub url : Text
  pub filename : Text
  pub force : Bool

pub record Job (F : Type 0) : Type 0 where
  pub id : Text
  pub state : State
  pub url : Text
  pub filename : Text
  pub target_path : Text
  pub received_bytes : ℤ
  pub total_bytes : ℤ
  pub percent : F
  pub error : Text
  pub started_at : Text
  pub completed_at : Text

-- The fields of a catalogue file that the manager reads (modelcatalog.File).
pub record File : Type 0 where
  pub file_name : Text
  pub size_bytes : ℤ
  pub local_path : Text
  pub exists : Bool

-- `other` is an error of the catalogue or of the URL builder, passed on with its text.
pub data Error : Type 0 where
  invalid_input : Text → Error
  not_found : Text → Error
  conflict : Text → State → Error
  ctx_done : Text → Error
  other : Text → Error

-- Where a file comes from (modelcatalog.Source).
pub record Source : Type 0 where
  pub kind : Text
  pub owner : Text
  pub repo : Text
  pub url : Text

-- The two interfaces that the manager calls; a nil interface is `none`.
pub record Dependencies : Type 0 where
  pub catalog : Option (Text → Result Error (List File × Source))
  pub download_url : Option (Source → Text → Result Error Text)

-- The maps of the manager. `cancel` holds, for each job with a live goroutine, whether its context
-- has been cancelled.
pub record Manager (F : Type 0) : Type 0 where
  pub jobs : Dict (Job F)
  pub active : Dict Text
  pub cancel : Dict Bool

-- What a failed download reports: its text, and whether it wraps context.Canceled.
pub record Failure : Type 0 where
  pub message : Text
  pub is_canceled : Bool
