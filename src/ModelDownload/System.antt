-- ===== src/ModelDownload/System.antt =====
-- The download manager with its goroutines: each step is the code between one Lock and its Unlock,
-- made by a client or by the goroutine of one job, in any order.
use llamarig.Common.{◌≡◌, ◌≢◌, Option, none, some, []}
use llamarig.Common.Text.{Text}
use llamarig.Common.Int.{ℤ}
use llamarig.Common.Dict.{Dict, lookup, insert, erase}
use llamarig.ModelDownload.{Float64, Request, Job, Dependencies, Manager, Failure}
use llamarig.ModelDownload.Operations.{
  Outcome, job, job_spawned, refused, panics, start, cancel, update, begin_job, set_total,
  add_progress, settle_job, clear_active, new_manager,
}

-- Where the goroutine of a job stands in `run`: before its first update, in `download`, or behind
-- its last update, with the deferred `clearActive` to come.
pub data Phase : Type 0 where
  spawned downloading settled : Phase

pub record Sys (F : Type 0) : Type 0 where
  pub manager : Manager F
  pub workers : Dict Phase

abbrev pub initial : {F : Type 0} → Sys F
initial = record { manager = new_manager; workers = [] }

-- `go m.run(…)`, where `Start` makes that call.
unfoldable pub spawn : {F : Type 0} → Text → Outcome F → Dict Phase → Dict Phase
spawn new_id (job_spawned j url) ws = insert new_id spawned ws
spawn new_id (job j) ws = ws
spawn new_id (refused e) ws = ws
spawn new_id panics ws = ws

-- One update of a job by its goroutine, which then stands at `ph`.
abbrev pub advance : {F : Type 0} → Text → (Job F → Job F) → Phase → Sys F → Sys F
advance i f ph s = record { manager = update i f s.manager; workers = insert i ph s.workers }

module _ {F : Type 0} (fl : Float64 F) (deps : Dependencies) where
  -- `newID` returns a text that no job has; it begins with "dl_".
  pub data Step : Sys F → Sys F → Type 0 where
    client_start :
        (s : Sys F) (new_id now : Text) (req : Request)
        → lookup new_id s.manager.jobs ≡ none
        → new_id ≢ []
        → Step s (record {
          manager = (start fl deps new_id now req s.manager).1;
          workers = spawn new_id (start fl deps new_id now req s.manager).0 s.workers;
        })
    client_cancel :
        (s : Sys F) (ctx : Option Text) (now id : Text)
        → Step s (record s { manager = (cancel ctx now id s.manager).1 })
    worker_begin :
        (s : Sys F) (now id : Text)
        → lookup id s.workers ≡ some spawned
        → Step s (advance id (begin_job now) downloading s)
    worker_total :
        (s : Sys F) (id : Text) (total : ℤ)
        → lookup id s.workers ≡ some downloading
        → Step s (advance id (set_total total) downloading s)
    worker_progress :
        (s : Sys F) (id : Text) (n : ℤ)
        → lookup id s.workers ≡ some downloading
        → Step s (advance id (add_progress fl n) downloading s)
    worker_settle :
        (s : Sys F) (now id : Text) (failure : Option Failure)
        → lookup id s.workers ≡ some downloading
        → Step s (advance id (settle_job fl now failure) settled s)
    worker_clear :
        (s : Sys F) (id : Text)
        → lookup id s.workers ≡ some settled
        → Step s (record { manager = clear_active id s.manager; workers = erase id s.workers })

  -- What is reached from a manager with no job.
  pub data Reach : Sys F → Type 0 where
    here : Reach initial
    next : {s t : Sys F} → Reach s → Step s t → Reach t
