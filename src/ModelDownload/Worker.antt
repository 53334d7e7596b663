-- ===== src/ModelDownload/Worker.antt =====
-- core/modeldownload/manager.go `download` and what it calls, and store.go `prepareTarget`: the body
-- of a goroutine, against the answers of the operating system and of the HTTP client.
pub mod Effects
use llamarig.Common.{
  ℕ, ◌≡◌, Bool, true, false, not, ◌&&◌, Option, none, some, List, [], ◌∷◌, ◌++◌, leb, ltb, length,
  if◌then◌else◌,
}
use llamarig.Common.Text.{Text, codes, decimal}
use llamarig.Common.Int.{ℤ, pos}
use llamarig.Common.Results.{Result, ok, err}
use llamarig.ModelDownload.{Float64, Job, Manager, Failure, Error, not_found}
use llamarig.ModelDownload.Operations.{update, set_total, add_progress, get}

-- A look at a path: it may be there, it may be missing, or the look fails (a symbolic link, or an
-- error of the file system).
pub data Look : Type 0 where
  present missing : Look
  bad : Failure → Look

-- What the reads of a response body give, with the answer of each write.
pub data Body : Type 0 where
  eof : Body
  broken : Failure → Body
  read : Text → Option Failure → Body → Body

pub record Response : Type 0 where
  pub status_code : ℕ
  pub content_length : ℤ
  pub body : Body

-- The answers that one download gets, each used only if its call is made.
pub record Io : Type 0 where
  pub mkdir_all : Option Failure
  pub look_ancestors : Look
  pub look_target : Look
  pub look_part : Look
  pub new_request : Option Failure
  pub response : Result Failure Response
  pub open_part : Option Failure
  pub ctx : Option Failure
  pub sync : Option Failure
  pub close : Option Failure
  pub look_target_again : Look
  pub rename : Option Failure
  pub sync_dir : Option Failure
  -- Whether `os.Remove` removes.
  pub removes : Bool

-- The partial file and the model file, by their content.
pub record Files : Type 0 where
  pub part : Option Text
  pub target : Option Text

-- `fmt.Errorf("…: %w", err)`
abbrev wrap : Text → Failure → Failure
wrap prefix f = record { message = prefix ++ f.message; is_canceled = f.is_canceled }

-- `err != nil && !os.IsNotExist(err)`
abbrev refuses : Look → Option Failure
refuses present = none
refuses missing = none
refuses (bad f) = some f

-- `if err := …; err != nil { return err }`
abbrev first_of_two : Option Failure → Option Failure → Option Failure
first_of_two none k = k
first_of_two (some f) k = some f

-- An ancestor that is missing is refused too, as `rejectSymlinkAncestors` passes every error on.
abbrev refuses_ancestors : Look → Option Failure
refuses_ancestors present = none
refuses_ancestors missing =
    some (record { message = codes "no such file or directory"; is_canceled = false })
refuses_ancestors (bad f) = some f

abbrev wrapped : Text → Option Failure → Option Failure
wrapped prefix none = none
wrapped prefix (some f) = some (wrap prefix f)

-- `prepareTarget`
unfoldable pub prepare_target : Io → Option Failure
prepare_target io = first_of_two (wrapped (codes "create model directory: ") io.mkdir_all) (
    first_of_two (refuses_ancestors io.look_ancestors)
      (first_of_two (refuses io.look_target) (refuses io.look_part)))

-- `_ = os.Remove(partPath)`
unfoldable pub remove_part : Io → Files → Files
remove_part io fs = if io.removes then record fs { part = none } else fs

-- What is opened: a response of a good status, or the failure and the files as they are left.
unfoldable pub open_download : Io → Files → Result Failure Response × Files
unfolding remove_part
open_download io fs = elim io.new_request [
  | some f ↦ (err f, fs)
  | none ↦ elim io.response [
    | err f ↦ (err (wrap (codes "download model: ") f), fs)
    | ok resp ↦ if leb 200 resp.status_code && ltb resp.status_code 300 then (ok resp, fs) else (
      err (record {
        message = codes "download model: status " ++ decimal resp.status_code;
        is_canceled = false;
      }),
      remove_part io fs,
    )
  ]
]

-- `out.Write` at the end of the partial file.
abbrev append_part : Text → Files → Files
append_part bytes fs = elim fs.part [
  | none ↦ fs
  | some content ↦ record fs { part = some (content ++ bytes) }
]

-- `finalizeDownload`
unfoldable pub finalize_download : Io → Files → Option Failure × Files
unfolding remove_part
finalize_download io fs = elim (refuses io.look_target_again) [
  | some f ↦ (some f, remove_part io fs)
  | none ↦ elim io.rename [
    | some f ↦ (some (wrap (codes "finalize model file: ") f), remove_part io fs)
    | none ↦ (io.sync_dir, record { part = none; target = fs.part })
  ]
]

-- What follows the copy: `ctx.Err`, `Sync`, `Close`, `finalizeDownload`.
unfoldable pub seal : Io → Files → Option Failure × Files
unfolding finalize_download
seal io fs = elim io.ctx [
  | some f ↦ (some f, remove_part io fs)
  | none ↦ elim io.sync [
    | some f ↦ (some (wrap (codes "sync partial model file: ") f), remove_part io fs)
    | none ↦ elim io.close [
      | some f ↦ (some (wrap (codes "close partial model file: ") f), remove_part io fs)
      | none ↦ finalize_download io fs
    ]
  ]
]

module _ {F : Type 0} (fl : Float64 F) where
  -- `copyDownload`
  unfoldable pub copy_download :
      Text → Body → Manager F × Files → Option Failure × Manager F × Files
  copy_download id eof (m, fs) = (none, m, fs)
  copy_download id (broken f) (m, fs) = (some (wrap (codes "read model download: ") f), m, fs)
  copy_download id (read [] w rest) (m, fs) = copy_download id rest (m, fs)
  copy_download id (read (b ∷ bs) (some f) rest) (m, fs) =
      (some (wrap (codes "write partial model file: ") f), m, fs)
  copy_download id (read (b ∷ bs) none rest) (m, fs) =
      copy_download id rest
        (update id (add_progress fl (pos (length (b ∷ bs)))) m, append_part (b ∷ bs) fs)

  -- `download` once the response is open.
  unfoldable pub fetch :
      Io → Text → Response → Manager F × Files → Option Failure × Manager F × Files
  unfolding copy_download seal
  fetch io id resp (m, fs) =
      let m' = update id (set_total resp.content_length) m in
      elim io.open_part [
        | some f ↦ (some (wrap (codes "create partial model file: ") f), m', fs)
        | none ↦
            let (failure, m'', fs') =
              copy_download id resp.body (m', record fs { part = some [] }) in
            elim failure [
              | some f ↦ (some f, m'', remove_part io fs')
              | none ↦ let (sealed, fs'') = seal io fs' in (sealed, m'', fs'')
            ]
      ]

  -- `download`
  unfoldable pub download : Io → Text → Manager F × Files → Option Failure × Manager F × Files
  unfolding prepare_target open_download fetch get
  download io id (m, fs) = elim (get none id m) [
    | err e ↦ (
      some (record { message = codes "model download not found: " ++ id; is_canceled = false }),
      m,
      fs,
    )
    | ok j ↦ elim (prepare_target io) [
      | some f ↦ (some f, m, fs)
      | none ↦
          let (opened, fs') = open_download io fs in
          elim opened [ err f ↦ (some f, m, fs') | ok resp ↦ fetch io id resp (m, fs') ]
    ]
  ]
