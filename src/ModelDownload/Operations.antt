-- ===== src/ModelDownload/Operations.antt =====
-- core/modeldownload/manager.go: the operations on the manager's state, each the code between one
-- Lock and its Unlock.
use llamarig.Common.{
  Bool, true, false, not, ◌&&◌, ◌||◌, Option, none, some, List, [], ◌∷◌, if◌then◌else◌,
}
use llamarig.Common.Text.{Text, codes, ◌=ₜ◌}
use llamarig.Common.Int.{ℤ, pos, add64, ltb_ℤ}
use llamarig.Common.Dict.{lookup, insert, erase, adjust}
use llamarig.Common.Results.{Result, ok, err}
use llamarig.ModelDownload.{
  Float64, State, queued, running, completed, failed, cancelled, already_downloaded, Request, Job,
  File, Error, invalid_input, not_found, conflict, ctx_done, Source, Dependencies, Manager, Failure,
}

-- How a call of `Start` ends. `panics` is a nil dereference.
pub data Outcome (F : Type 0) : Type 0 where
  job : Job F → Outcome F
  job_spawned : Job F → Text → Outcome F
  refused : Error → Outcome F
  panics : Outcome F

-- `findFile`
pub find_file : List File → Text → Option File
find_file [] name = none
find_file (f ∷ fs) name = if f.file_name =ₜ name then some f else find_file fs name

abbrev pub is_empty : Text → Bool
is_empty s = s =ₜ []

-- `NewManager`: no job yet.
abbrev pub new_manager : {F : Type 0} → Manager F
new_manager = record { jobs = []; active = []; cancel = [] }

-- `m.jobs[id]`, dereferenced.
unfoldable pub deref : {F : Type 0} → Option (Job F) → Outcome F
deref none = panics
deref (some j) = job j

-- `cancelled`, as `job.State == StateCancelled`.
unfoldable pub is_cancelled : State → Bool
is_cancelled cancelled = true
is_cancelled _ = false

-- `job.State == StateQueued || job.State == StateRunning`
unfoldable pub is_cancellable : State → Bool
is_cancellable queued = true
is_cancellable running = true
is_cancellable _ = false

module _ {F : Type 0} (fl : Float64 F) where
  -- `alreadyDownloadedJob`
  unfoldable pub already_downloaded_job : Text → Text → Request → File → Job F
  already_downloaded_job new_id now req f = record {
    id = new_id;
    state = already_downloaded;
    url = req.url;
    filename = req.filename;
    target_path = f.local_path;
    received_bytes = f.size_bytes;
    total_bytes = f.size_bytes;
    percent = fl.of_int64 (pos 100);
    error = [];
    started_at = [];
    completed_at = now;
  }

  -- `queuedJob`
  unfoldable pub queued_job : Text → Request → File → Job F
  queued_job new_id req f = record {
    id = new_id;
    state = queued;
    url = req.url;
    filename = req.filename;
    target_path = f.local_path;
    received_bytes = pos 0;
    total_bytes = f.size_bytes;
    percent = fl.of_int64 (pos 0);
    error = [];
    started_at = [];
    completed_at = [];
  }

  -- The locked part of `Start` for a file that is to be fetched: the job that is active for the
  -- same path, or a new one with its goroutine.
  unfoldable pub enqueue : Text → Request → File → Text → Manager F → Outcome F × Manager F
  unfolding queued_job deref
  enqueue new_id req f url m =
      let fresh = queued_job new_id req f in
      let spawn : Manager F = record {
        jobs = insert new_id fresh m.jobs;
        active = insert fresh.target_path new_id m.active;
        cancel = insert new_id false m.cancel;
      } in
      elim (lookup f.local_path m.active) [
        | none ↦ (job_spawned fresh url, spawn)
        | some existing ↦
            if is_empty existing
            then (job_spawned fresh url, spawn)
            else (deref (lookup existing m.jobs), m)
      ]

  -- `Start` behind the resolution of the repository.
  unfoldable pub start_file :
      Text
      → Text
      → Request
      → (Source → Text → Result Error Text)
      → Source
      → Option File
      → Manager F
      → Outcome F × Manager F
  unfolding enqueue already_downloaded_job
  start_file new_id now req url_of source none m =
      (refused (invalid_input (codes "selected GGUF file not found in resolved repo")), m)
  start_file new_id now req url_of source (some f) m =
      if f.exists && not req.force
      then (let j = already_downloaded_job new_id now req f in
          (job j, record m { jobs = insert new_id j m.jobs }))
      else elim (url_of source req.filename) [
        | err e ↦ (refused e, m)
        | ok url ↦ enqueue new_id req f url m
      ]

  -- `Start`
  unfoldable pub start : Dependencies → Text → Text → Request → Manager F → Outcome F × Manager F
  unfolding start_file find_file
  start deps new_id now req m =
      if is_empty req.url || is_empty req.filename
      then (refused (invalid_input (codes "url and filename are required")), m)
      else elim deps.catalog [
        | none ↦ (refused (invalid_input (codes "downloader is not configured")), m)
        | some resolve ↦ elim deps.download_url [
          | none ↦ (refused (invalid_input (codes "downloader is not configured")), m)
          | some url_of ↦ elim (resolve req.url) [
            | err e ↦ (refused e, m)
            | ok (files, source) ↦
                start_file new_id now req url_of source (find_file files req.filename) m
          ]
        ]
      ]

abbrev wraps_canceled : Option Failure → Bool
wraps_canceled none = false
wraps_canceled (some f) = f.is_canceled

module _ {F : Type 0} where
  -- `Get`; `ctx` is the text of the context's error, if it has one.
  unfoldable pub get : Option Text → Text → Manager F → Result Error (Job F)
  get (some e) id m = err (ctx_done e)
  get none id m = elim (lookup id m.jobs) [ none ↦ err (not_found id) | some j ↦ ok j ]

  -- `update`
  unfoldable pub update : Text → (Job F → Job F) → Manager F → Manager F
  update id f m = record m { jobs = adjust id f m.jobs }

  -- The job that `Cancel` leaves behind.
  abbrev pub cancel_job : Text → Job F → Job F
  cancel_job now j = record j { state = cancelled; completed_at = now }

  -- `Cancel`: the context of a live goroutine is cancelled, if there is one.
  unfoldable pub cancel : Option Text → Text → Text → Manager F → Result Error (Job F) × Manager F
  unfolding is_cancellable update
  cancel (some e) now id m = (err (ctx_done e), m)
  cancel none now id m = elim (lookup id m.jobs) [
    | none ↦ (err (not_found id), m)
    | some j ↦ if not (is_cancellable j.state) then (err (conflict id j.state), m) else (
      ok (cancel_job now j),
      update id (cancel_job now) (record m { cancel = adjust id (λ _. true) m.cancel }),
    )
  ]

  -- The first update of `run`.
  unfoldable pub begin_job : Text → Job F → Job F
  unfolding is_cancelled
  begin_job now j =
      if is_cancelled j.state then j else record j { state = running; started_at = now }

  -- The update of `download` once the length of the response is known.
  unfoldable pub set_total : ℤ → Job F → Job F
  set_total total j = if ltb_ℤ (pos 0) total then record j { total_bytes = total } else j

  -- `clearActive`
  unfoldable pub clear_active : Text → Manager F → Manager F
  clear_active id m = elim (lookup id m.jobs) [
    | none ↦ m
    | some j ↦
        let m' = record m { cancel = erase id m.cancel } in
        elim (lookup j.target_path m.active) [
          | none ↦ m'
          | some owner ↦
              if owner =ₜ id then record m' { active = erase j.target_path m.active } else m'
        ]
  ]

module _ {F : Type 0} (fl : Float64 F) where
  -- `addProgress`
  unfoldable pub add_progress : ℤ → Job F → Job F
  add_progress n j =
      let received = add64 j.received_bytes n in
      if ltb_ℤ (pos 0) j.total_bytes
      then record j {
        received_bytes = received;
        percent =
            fl.div (fl.mul (fl.of_int64 received) (fl.of_int64 (pos 100)))
              (fl.of_int64 j.total_bytes);
      }
      else record j { received_bytes = received }

  -- The end of a job that was not cancelled.
  unfoldable pub conclude : Option Failure → Job F → Job F
  conclude (some f) j = record j { state = failed; error = f.message }
  conclude none j = record j { state = completed; percent = fl.of_int64 (pos 100) }

  -- The last update of `run`.
  unfoldable pub settle_job : Text → Option Failure → Job F → Job F
  unfolding is_cancelled conclude
  settle_job now failure j =
      let j' = record j { completed_at = now } in
      if is_cancelled j.state || wraps_canceled failure
      then record j' { state = cancelled; error = [] }
      else conclude failure j'
