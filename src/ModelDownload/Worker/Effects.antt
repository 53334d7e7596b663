-- ===== src/ModelDownload/Worker/Effects.antt =====
-- What a download leaves on disk and in its job.
use llamarig.Common.{
  ℕ, ◌+◌, ◌^◌, ◌<◌, ◌≡◌, ◌≢◌, refl, ◌∙◌, ap, ◌⊎◌, inl, inr, true, Option, none, some, [], ◌∷◌, ◌++◌,
  append_assoc, append-nil, arith, Option-cases, length, length-append,
}
use llamarig.Common.Text.{Text, =ₜ_refl}
use llamarig.Common.Int.{ℤ, pos, add64_pos}
use llamarig.Common.Dict.{lookup, lookup-adjust}
use llamarig.Common.Results.{ok, Result-cases}
use llamarig.ModelDownload.{Float64, Job, Manager, Failure}
use llamarig.ModelDownload.Operations.{update, set_total, add_progress, get}
use llamarig.ModelDownload.Worker.{
  Body, eof, broken, read, Response, Io, Files, prepare_target, open_download, append_part, seal,
  copy_download, fetch, download,
}

-- All the bytes that the reads of a body give.
abbrev pub bytes : Body → Text
bytes eof = []
bytes (broken f) = []
bytes (read b w rest) = b ++ bytes rest

module _ {F : Type 0} (fl : Float64 F) (id : Text) where
  abbrev HasReceived : Manager F → ℕ → Type 0
  HasReceived m n = (j : Job F) × (lookup id m.jobs ≡ some j) × (j.received_bytes ≡ pos n)

  progress-HasReceived :
      (m : Manager F) (n k : ℕ)
      → n + k < 2 ^ 63
      → HasReceived m n
      → HasReceived (update id (add_progress fl (pos k)) m) (n + k)
  unfolding update add_progress
  progress-HasReceived m n k small (j, known, received) = (
    add_progress fl (pos k) j,
    ground (arith, lookup-adjust id id (add_progress fl (pos k)) m.jobs, =ₜ_refl id),
    ground (arith, add64_pos n k small),
  )

  -- A copy that succeeds has appended every byte to the partial file and counted it.
  abbrev Copied : Body → Text → ℕ → Files → Option Failure × Manager F × Files → Type 0
  Copied body content n fs (failure, m', fs') =
      (fs'.part ≡ some (content ++ bytes body))
      × (fs'.target ≡ fs.target)
      × HasReceived m' (n + length (bytes body))

  copy_download-Copied :
      (body : Body) (m : Manager F) (fs : Files) (content : Text) (n : ℕ)
      → (copy_download fl id body (m, fs)).0 ≡ none
      → fs.part ≡ some content
      → HasReceived m n
      → n + length (bytes body) < 2 ^ 63
      → Copied body content n fs (copy_download fl id body (m, fs))
  unfolding copy_download
  copy_download-Copied eof m fs content n e at (j, known, received) small =
      (rw append-nil at, refl, (j, known, rw received (ap pos (omega arith))))
  copy_download-Copied (broken f) m fs content n e at has small = absurd (cc)
  copy_download-Copied (read [] w rest) m fs content n e at has small =
      copy_download-Copied rest m fs content n e at has small
  copy_download-Copied (read (b ∷ bs) (some f) rest) m fs content n e at has small = absurd (cc)
  copy_download-Copied (read (b ∷ bs) none rest) m fs content n e at has small =
      let chunk = b ∷ bs in
      let size = length-append chunk (bytes rest) in
      let (part, target, (j, known, received)) =
        copy_download-Copied rest (update id (add_progress fl (pos (length chunk))) m)
          (append_part chunk fs) (content ++ chunk) (n + length chunk) e (rw at refl)
          (progress-HasReceived m n (length chunk) (omega (arith, size)) has)
          (omega (arith, size)) in
      (
        part ∙ ap some (append_assoc content chunk (bytes rest)),
        target ∙ ground arith,
        (j, known, received ∙ ap pos (omega (arith, size))),
      )

  copy_download-target :
      (body : Body) (m : Manager F) (fs : Files)
      → (copy_download fl id body (m, fs)).2.target ≡ fs.target
  unfolding copy_download
  copy_download-target eof m fs = refl
  copy_download-target (broken f) m fs = refl
  copy_download-target (read [] w rest) m fs = copy_download-target rest m fs
  copy_download-target (read (b ∷ bs) (some f) rest) m fs = refl
  copy_download-target (read (b ∷ bs) none rest) m fs =
      copy_download-target rest (update id (add_progress fl (pos (length (b ∷ bs)))) m)
        (append_part (b ∷ bs) fs)
      ∙ ground arith

seal_ok :
    (io : Io) (fs : Files)
    → (seal io fs).0 ≡ none
    → ((seal io fs).1.target ≡ fs.part) × ((seal io fs).1.part ≡ none)
unfolding seal
seal_ok io fs e = ground arith

-- What a failed download may leave: no partial file, and the old model file, unless only the sync
-- of the directory failed, behind the rename.
abbrev pub LeavesClean : Io → Files → Files → Type 0
LeavesClean io fs fs' = (fs'.part ≡ none) × ((fs'.target ≡ fs.target) ⊎ (io.sync_dir ≢ none))

seal_fails :
    (io : Io) (fs : Files)
    → io.removes ≡ true
    → (seal io fs).0 ≢ none
    → LeavesClean io fs (seal io fs).1
unfolding seal
seal_fails io fs r e = ground arith

open_ok :
    (io : Io) (fs : Files) (resp : Response)
    → (open_download io fs).0 ≡ ok resp
    → (io.response ≡ ok resp) × ((open_download io fs).1 ≡ fs)
unfolding open_download
open_ok io fs resp e = ground arith

open_clean :
    (io : Io) (fs : Files)
    → fs.part ≡ none
    → io.removes ≡ true
    → ((open_download io fs).1.part ≡ none) × ((open_download io fs).1.target ≡ fs.target)
unfolding open_download
open_clean io fs none_yet removes = ground arith

module _ {F : Type 0} (fl : Float64 F) (id : Text) where
  total-HasReceived :
      (m : Manager F) (total : ℤ) (n : ℕ)
      → HasReceived fl id m n
      → HasReceived fl id (update id (set_total total) m) n
  unfolding update set_total
  total-HasReceived m total n (j, known, received) = (
    set_total total j,
    ground (arith, lookup-adjust id id (set_total total) m.jobs, =ₜ_refl id),
    ground arith,
  )

  -- What a download that succeeds leaves: the bytes of the response as the model file, no partial
  -- file, and the number of bytes in the job.
  abbrev pub Delivered : Body → Manager F → Files → Type 0
  Delivered body m' fs' =
      (fs'.target ≡ some (bytes body))
      × (fs'.part ≡ none)
      × HasReceived fl id m' (length (bytes body))

  fetch-Delivered :
      (io : Io) (resp : Response) (m : Manager F) (fs : Files)
      → HasReceived fl id m 0
      → length (bytes resp.body) < 2 ^ 63
      → (fetch fl io id resp (m, fs)).0 ≡ none
      → Delivered resp.body (fetch fl io id resp (m, fs)).1 (fetch fl io id resp (m, fs)).2
  unfolding fetch
  fetch-Delivered io resp m fs has small e = elim (Option-cases io.open_part) [
    | inr (f, o) ↦ absurd (cc (rw (o, fetch) at e))
    | inl o ↦
        let m' = update id (set_total resp.content_length) m in
        let fs' : Files = record fs { part = some [] } in
        let r = copy_download fl id resp.body (m', fs') in
        elim (Option-cases r.0) [
          | inr (f, c) ↦ absurd (cc (rw (o, c, fetch) at e))
          | inl c ↦
              let (part, target, (j, known, received)) =
                copy_download-Copied fl id resp.body m' fs' [] 0 c refl
                  (total-HasReceived m resp.content_length 0 has) (omega arith) in
              let sealed = seal_ok io r.2 (rw (o, c, fetch) at e) in
              rw (o, c, fetch)
                (sealed.0 ∙ part, sealed.1, (j, known, received ∙ ap pos (omega arith)))
        ]
  ]

  fetch-LeavesClean :
      (io : Io) (resp : Response) (m : Manager F) (fs : Files)
      → io.removes ≡ true
      → fs.part ≡ none
      → (fetch fl io id resp (m, fs)).0 ≢ none
      → LeavesClean io fs (fetch fl io id resp (m, fs)).2
  unfolding fetch
  fetch-LeavesClean io resp m fs removes none_yet e = elim (Option-cases io.open_part) [
    | inr (f, o) ↦ rw (o, fetch) (none_yet, inl refl)
    | inl o ↦
        let m' = update id (set_total resp.content_length) m in
        let fs' : Files = record fs { part = some [] } in
        let r = copy_download fl id resp.body (m', fs') in
        let target = copy_download-target fl id resp.body m' fs' in
        elim (Option-cases r.0) [
          | inr (f, c) ↦ rw (o, c, fetch, removes) (refl, inl target)
          | inl c ↦
              let (part, kept) = seal_fails io r.2 removes (rw (o, c, fetch) at e) in
              rw (o, c, fetch) (part, rw target at kept)
        ]
  ]

  -- A download that returns no error, for a known job with nothing received and a body of fewer
  -- than 2 ^ 63 bytes, leaves exactly the bytes of the response as the model file, no partial file,
  -- and their number as the job's received bytes.
  pub download_delivers :
      (io : Io) (resp : Response) (m : Manager F) (fs : Files) (j : Job F)
      → io.response ≡ ok resp
      → lookup id m.jobs ≡ some j
      → j.received_bytes ≡ pos 0
      → length (bytes resp.body) < 2 ^ 63
      → (download fl io id (m, fs)).0 ≡ none
      → Delivered resp.body (download fl io id (m, fs)).1 (download fl io id (m, fs)).2
  unfolding download
  download_delivers io resp m fs j answer known zero_yet small e =
      elim (Option-cases (prepare_target io)) [
        | inr (f, p) ↦ absurd (cc (rw (known, p, download, get) at e))
        | inl p ↦ elim (Result-cases (open_download io fs).0) [
          | inr (f, o) ↦ absurd (cc (rw (known, p, o, download, get) at e))
          | inl (r, o) ↦
              let (answer', same) = open_ok io fs r o in
              let r_is : r ≡ resp = ground (arith, answer') in
              rw (known, p, o, download, get, same, r_is)
                (fetch-Delivered io resp m fs (j, known, zero_yet) small
                  (rw (known, p, o, download, get, same, r_is) at e))
        ]
      ]

  -- A download that fails while `os.Remove` works leaves no partial file if there was none, and the
  -- old model file, unless what failed is the sync of the directory behind the rename.
  pub download_fails_clean :
      (io : Io) (m : Manager F) (fs : Files)
      → io.removes ≡ true
      → fs.part ≡ none
      → (download fl io id (m, fs)).0 ≢ none
      → LeavesClean io fs (download fl io id (m, fs)).2
  unfolding download
  download_fails_clean io m fs removes none_yet e = elim (Option-cases (lookup id m.jobs)) [
    | inl gone ↦ rw (gone, download, get) (none_yet, inl refl)
    | inr (j, known) ↦ elim (Option-cases (prepare_target io)) [
      | inr (f, p) ↦ rw (known, p, download, get) (none_yet, inl refl)
      | inl p ↦ elim (Result-cases (open_download io fs).0) [
        | inr (f, o) ↦
            let (part, target) = open_clean io fs none_yet removes in
            rw (known, p, o, download, get) (part, inl target)
        | inl (r, o) ↦
            let (answer, same) = open_ok io fs r o in
            rw (known, p, o, download, get, same)
              (fetch-LeavesClean io r m fs removes none_yet
                (rw (known, p, o, download, get, same) at e))
      ]
    ]
  ]
