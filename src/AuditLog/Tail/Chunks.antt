-- ===== src/AuditLog/Tail/Chunks.antt =====
-- The loop of readTailChunks ends and keeps its limit.
use llamarig.Common.{
  ℕ, zero, suc, ◌+◌, ◌-◌, ◌≤◌, ◌<◌, ◌≡◌, inl, inr, true, Option, some, [], arith, Bool-cases,
  length, length-append,
}
use llamarig.Common.Text.{Text}
use llamarig.Common.Results.{Result, ok, err, Result-cases}
use llamarig.AuditLog.{LogError, max_tail_read_bytes}
use llamarig.AuditLog.Tail.{
  ReadAt, Reading, wants_more, chunk_start, add_chunk, read_chunks, read_tail_chunks,
}

-- What `io.ReaderAt` promises of every read: no more bytes than were asked for.
abbrev pub ReadsAtMost : ReadAt → Type 0
ReadsAtMost read_at = (n start : ℕ) (chunk : Text) → read_at n start ≡ ok chunk → length chunk ≤ n

-- What a successful end of the loop keeps.
abbrev pub IsCapped : Result LogError Text → Type 0
IsCapped (err e) = Unit
IsCapped (ok contents) = length contents ≤ max_tail_read_bytes

abbrev EndsCapped : Option (Result LogError Text) → Type 0
EndsCapped out = (r : Result LogError Text) × (out ≡ some r) × IsCapped r

pub chunk_fits :
    (read_at : ReadAt) (lines : ℕ) (r : Reading)
    → wants_more read_at lines r ≡ true
    → (chunk_start read_at lines r < r.end)
      × (r.end - chunk_start read_at lines r + r.total_bytes ≤ max_tail_read_bytes)
unfolding wants_more
chunk_fits read_at lines r h = ground arith

read_chunks_ends :
    (read_at : ReadAt) (lines fuel : ℕ) (r : Reading)
    → ReadsAtMost read_at
    → r.end < fuel
    → r.total_bytes ≡ length r.contents
    → r.total_bytes ≤ max_tail_read_bytes
    → EndsCapped (read_chunks read_at lines fuel r)
unfolding read_chunks
read_chunks_ends read_at lines zero r most enough total cap = absurd (omega arith)
read_chunks_ends read_at lines (suc fuel) r most enough total cap =
    elim (Bool-cases (wants_more read_at lines r)) [
      | inr stop ↦ (ok r.contents, rw (read_chunks, stop), omega arith)
      | inl more ↦
          let fits = chunk_fits read_at lines r more in
          let start = chunk_start read_at lines r in
          elim (Result-cases (read_at (r.end - start) start)) [
            | inr (e, failed) ↦ (err e, rw (read_chunks, more, failed), tt)
            | inl (chunk, got) ↦
                let fewer = most (r.end - start) start chunk got in
                let (out, same, capped) =
                  read_chunks_ends read_at lines fuel (add_chunk read_at lines r chunk) most
                    (omega arith) (omega (arith, length-append chunk r.contents)) (omega arith) in
                (out, rw (read_chunks, more, got) same, capped)
          ]
    ]

-- Whatever the file returns, reading its tail ends, with an error of the file or with at most
-- 10 MiB, if no read returns more bytes than it was asked for.
pub read_tail_chunks-IsCapped :
    (read_at : ReadAt) (size lines : ℕ)
    → ReadsAtMost read_at
    → (r : Result LogError Text) × (read_tail_chunks read_at size lines ≡ some r) × IsCapped r
unfolding read_tail_chunks
read_tail_chunks-IsCapped read_at size lines most =
    read_chunks_ends read_at lines (suc size)
      (record { end = size; total_bytes = 0; newlines = 0; contents = [] }) most (omega arith)
      (omega arith) (omega arith)
