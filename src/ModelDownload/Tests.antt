-- ===== src/ModelDownload/Tests.antt =====
-- Runs of the download manager, and its theorems at concrete inputs.
use llamarig.Common.{ℕ, ◌*◌, ◌/◌, ◌≡◌, ◌≢◌, refl, true, false, none, some, [], ◌∷◌, arith}
use llamarig.Common.Text.{Text, codes, ◌=ₜ◌}
use llamarig.Common.Int.{pos, pos_part}
use llamarig.Common.Dict.{lookup, insert, adjust}
use llamarig.Common.Results.{ok}
use llamarig.ModelDownload.{Float64, completed, cancelled, Request, Job, File, Source, Dependencies}
use llamarig.ModelDownload.Operations.{
  job, start, enqueue, cancel, begin_job, is_cancellable, update, new_manager, queued_job,
}
use llamarig.ModelDownload.System.{
  spawned, Sys, spawn, initial, client_start, client_cancel, worker_begin, Reach, here, next,
}
use llamarig.ModelDownload.Invariant.{IsValid}
use llamarig.ModelDownload.Safety.{Reach-IsValid, one_writer}
use llamarig.ModelDownload.Diagram.{Moved, Step-Moved}
use llamarig.ModelDownload.Finishing.{CanEnd, finishes_somehow}
use llamarig.ModelDownload.Endings.{
  rest, more, ended_for_ever, CancelAnswer, cancel_answers, enqueue_owned,
}
use llamarig.ModelDownload.Worker.{
  eof, read, Response, Io, Files, missing, present, download, prepare_target, open_download,
  copy_download, seal,
}
use llamarig.ModelDownload.Worker.Effects.{
  download_delivers, download_fails_clean, Delivered, LeavesClean,
}

-- Percentages in whole numbers.
abbrev whole : Float64 ℕ
whole = record { of_int64 = pos_part; mul = ◌*◌; div = ◌/◌ }

abbrev gguf : File
gguf = record {
  file_name = codes "m.gguf";
  size_bytes = pos 5;
  local_path = codes "/models/m.gguf";
  exists = false;
}

abbrev hub : Source
hub = record { kind = codes "huggingface"; owner = codes "o"; repo = codes "r"; url = codes "u" }

abbrev deps : Dependencies
deps = record {
  catalog = some (λ url. ok (gguf ∷ [], hub));
  download_url = some (λ source name. ok (codes "https://hub/m.gguf"));
}

abbrev req : Request
req = record { url = codes "https://hub/o/r"; filename = codes "m.gguf"; force = false }

abbrev id1 : Text
id1 = codes "dl_1"

abbrev id2 : Text
id2 = codes "dl_2"

id1-ne-nil : id1 ≢ []
id1-ne-nil = λ e. cc

id2-ne-nil : id2 ≢ []
id2-ne-nil = λ e. cc

-- The system once the first `Start` has returned.
abbrev one_job : Sys ℕ
one_job = record {
  manager = (start whole deps id1 (codes "t0") req new_manager).1;
  workers = spawn id1 (start whole deps id1 (codes "t0") req new_manager).0 [];
}

one_job-Reach : Reach whole deps one_job
unfolding lookup
one_job-Reach = next here (client_start initial id1 (codes "t0") req refl id1-ne-nil)

abbrev job1 : Job ℕ
job1 = queued_job whole id1 req gguf

-- The second `Start` for the same file returns the first job.
start_again : (start whole deps id2 (codes "t1") req one_job.manager).0 ≡ job job1
unfolding start lookup insert ◌=ₜ◌ queued_job
start_again = refl

Reach-IsValid_example : IsValid one_job
Reach-IsValid_example = Reach-IsValid whole deps one_job-Reach

one_writer_example : id1 ≡ id1
unfolding start lookup insert ◌=ₜ◌ spawn
one_writer_example =
    one_writer whole deps id1 id1 spawned spawned job1 job1 one_job-Reach refl refl refl refl refl

abbrev cancelled_sys : Sys ℕ
cancelled_sys = record one_job { manager = (cancel none (codes "t2") id1 one_job.manager).1 }

Step-Moved_example : Moved id1 job1 cancelled_sys
unfolding start lookup insert ◌=ₜ◌
Step-Moved_example =
    Step-Moved whole deps id1 job1 (client_cancel one_job none (codes "t2") id1)
      Reach-IsValid_example refl

abbrev job1_cancelled : Job ℕ
job1_cancelled = record job1 { state = cancelled; completed_at = codes "t2" }

cancelled_sys-Reach : Reach whole deps cancelled_sys
cancelled_sys-Reach = next one_job-Reach (client_cancel one_job none (codes "t2") id1)

-- The goroutine begins after the cancellation.
ended_for_ever_example :
    (j' : Job ℕ) × (lookup id1 (update id1 (begin_job (codes "t3")) cancelled_sys.manager).jobs
      ≡ some j')
    × (j'.state ≡ cancelled)
    × (j'.target_path ≡ job1_cancelled.target_path)
unfolding start lookup insert ◌=ₜ◌ spawn cancel adjust update is_cancellable queued_job
ended_for_ever_example =
    ended_for_ever whole deps id1 job1_cancelled cancelled_sys-Reach
      (more rest (worker_begin cancelled_sys (codes "t3") id1 refl)) refl refl

finishes_somehow_example : CanEnd whole deps id1 none (codes "/models/m.gguf") completed one_job
unfolding start lookup insert ◌=ₜ◌ is_cancellable queued_job
finishes_somehow_example =
    finishes_somehow whole deps id1 none (codes "t4") job1 one_job-Reach refl refl

cancel_answers_example :
    CancelAnswer
      (codes "t2")
      id1
      one_job.manager
      (lookup id1 one_job.manager.jobs)
      (cancel none (codes "t2") id1 one_job.manager)
cancel_answers_example = cancel_answers whole deps one_job-Reach (codes "t2") id1

enqueue_owned_example :
    (j : Job ℕ) × (enqueue whole id2 req gguf (codes "u") one_job.manager
      ≡ (job j, one_job.manager))
    × (lookup id1 one_job.manager.jobs ≡ some j)
    × (j.target_path ≡ gguf.local_path)
unfolding start lookup insert ◌=ₜ◌
enqueue_owned_example = enqueue_owned whole deps one_job-Reach id2 req gguf (codes "u") id1 refl

abbrev answer : Response
answer = record {
  status_code = 200;
  content_length = pos 5;
  body = read (codes "GG") none (read [] none (read (codes "UF!") none eof));
}

abbrev io : Io
io = record {
  mkdir_all = none;
  look_ancestors = present;
  look_target = missing;
  look_part = missing;
  new_request = none;
  response = ok answer;
  open_part = none;
  ctx = none;
  sync = none;
  close = none;
  look_target_again = missing;
  rename = none;
  sync_dir = none;
  removes = true;
}

abbrev blank : Files
blank = record { part = none; target = none }

download_delivers_example :
    Delivered whole id1 answer.body
      (download whole io id1 (one_job.manager, blank)).1
      (download whole io id1 (one_job.manager, blank)).2
unfolding start lookup insert ◌=ₜ◌ download prepare_target open_download copy_download seal
    queued_job
download_delivers_example =
    download_delivers whole id1 io answer one_job.manager blank job1 refl refl refl (omega arith)
      refl

abbrev full_disk : Io
full_disk = record io {
  sync = some (record { message = codes "no space left"; is_canceled = false });
}

download_fails_clean_example :
    LeavesClean full_disk blank (download whole full_disk id1 (one_job.manager, blank)).2
unfolding start lookup insert ◌=ₜ◌ download prepare_target open_download copy_download seal
download_fails_clean_example =
    download_fails_clean whole id1 full_disk one_job.manager blank refl refl (λ e. cc)
