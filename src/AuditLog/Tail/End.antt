-- ===== src/AuditLog/Tail/End.antt =====
-- readTailChunks on a file: what it reads is the end of the file, and why it stops.
use llamarig.Common.{
  ℕ, zero, suc, ◌+◌, ◌-◌, ◌*◌, ◌≤◌, ◌<◌, min, ◌≡◌, refl, sym, ap, ◌∙◌, ◌⊎◌, inl, inr, true, false,
  Option, some, [], ◌∷◌, ◌++◌, append_assoc, append-nil, arith, ltb, Bool-cases, length, take, drop,
  length-append,
}
use llamarig.Common.Text.{Text}
use llamarig.Common.Results.{Result, ok}
use llamarig.AuditLog.{LogError, max_tail_read_bytes}
use llamarig.AuditLog.Tail.{
  ReadAt, Reading, chunk_size, count_newlines, wants_more, chunk_start, add_chunk, read_chunks,
  read_tail_chunks,
}
use llamarig.AuditLog.Tail.Chunks.{chunk_fits}

-- `io.ReaderAt` on a file that holds `file` and may grow behind it.
abbrev pub Reads : Text → ReadAt → Type 0
Reads file read_at =
    (n start : ℕ) → start + n ≤ length file → read_at n start ≡ ok (take n (drop start file))

pub length-take_le : (n : ℕ) (s : Text) → n ≤ length s → length (take n s) ≡ n
length-take_le zero s h = refl
length-take_le (suc n) [] h = omega arith
length-take_le (suc n) (c ∷ s) h = omega (arith, length-take_le n s)

pub length-drop_le : (n : ℕ) (s : Text) → length (drop n s) ≡ length s - n
length-drop_le zero s = omega arith
length-drop_le (suc n) [] = omega arith
length-drop_le (suc n) (c ∷ s) = omega (arith, length-drop_le n s)

pub drop_front : (a b : Text) → drop (length a) (a ++ b) ≡ b
drop_front [] b = refl
drop_front (x ∷ a) b = drop_front a b

pub take_whole : (a : Text) → take (length a) a ≡ a
take_whole [] = refl
take_whole (x ∷ a) = ap (◌∷◌ x) (take_whole a)

take_split : (s n e : ℕ) (f : Text) → s + n ≡ e → take s f ++ take n (drop s f) ≡ take e f
take_split zero n e f h = let same : n ≡ e = omega arith in rw same refl
take_split (suc s) n zero f h = absurd (omega arith)
take_split (suc s) zero (suc e) [] h = refl
take_split (suc s) (suc n) (suc e) [] h = refl
take_split (suc s) n (suc e) (c ∷ f) h = ap (◌∷◌ c) (take_split s n e f (omega arith))

pub count-append : (a b : Text) → count_newlines (a ++ b) ≡ count_newlines a + count_newlines b
unfolding count_newlines
count-append [] b = omega arith
count-append (c ∷ a) b = ground (arith, count-append a b)

-- A number of bytes of whole chunks.
abbrev pub IsChunks : ℕ → Type 0
IsChunks n = (k : ℕ) × (n ≡ k * chunk_size)

-- What the loop keeps, of a file whose first bytes were `whole` when it was opened.
record IsReading (file whole : Text) (r : Reading) : Type 0 where
  kept : take r.end file ++ r.contents ≡ whole
  inside : r.end ≤ length file
  total : r.total_bytes ≡ length r.contents
  counted : r.newlines ≡ count_newlines r.contents
  capped : r.total_bytes ≤ max_tail_read_bytes
  chunked : (r.end ≡ 0) ⊎ IsChunks r.total_bytes

-- Why the loop stops: the file's start, the limit, or enough newlines in whole chunks.
abbrev pub Suffices : ℕ → Text → Text → Type 0
Suffices lines before contents =
    (before ≡ [])
    ⊎ (length contents ≡ max_tail_read_bytes)
    ⊎ ((lines ≤ count_newlines contents) × IsChunks (length contents))

abbrev pub ReadsEnd : ℕ → Text → Option (Result LogError Text) → Type 0
ReadsEnd lines whole out =
    (before : Text) × (contents : Text) × (out ≡ some (ok contents))
    × (before ++ contents ≡ whole)
    × (length contents ≤ max_tail_read_bytes)
    × Suffices lines before contents

stop-IsChunks :
    (contents : Text) (r : Reading)
    → ltb 0 r.end ≡ true
    → (r.end ≡ 0) ⊎ IsChunks r.total_bytes
    → r.total_bytes ≡ length contents
    → IsChunks (length contents)
stop-IsChunks contents r left (inl none_left) total = absurd (ground (arith, none_left))
stop-IsChunks contents r left (inr (k, chunks)) total = (k, sym total ∙ chunks)

round-IsChunks :
    (end total k : ℕ)
    → total ≡ k * chunk_size
    → total < max_tail_read_bytes
    → let start = end - min chunk_size (max_tail_read_bytes - total) in
      (start ≡ 0) ⊎ IsChunks (total + (end - start))
round-IsChunks end total k chunks more =
    let full : min chunk_size (max_tail_read_bytes - total) ≡ chunk_size = omega arith in
    elim (Bool-cases (ltb chunk_size end)) [
      | inr last ↦ inl (rw full (ground arith))
      | inl inner ↦ inr (suc k, rw full (ground arith))
    ]

round_more :
    (read_at : ReadAt) (lines : ℕ) (r : Reading)
    → wants_more read_at lines r ≡ true
    → (r.end ≡ 0) ⊎ IsChunks r.total_bytes
    → let start = chunk_start read_at lines r in
      (start ≡ 0) ⊎ IsChunks (r.total_bytes + (r.end - start))
unfolding wants_more
round_more read_at lines r more (inl none_left) = absurd (ground (arith, none_left))
round_more read_at lines r more (inr (k, chunks)) =
    round-IsChunks r.end r.total_bytes k chunks (ground arith)

stop_Suffices :
    (read_at : ReadAt) (lines : ℕ) (file whole : Text) (r : Reading)
    → IsReading file whole r
    → wants_more read_at lines r ≡ false
    → Suffices lines (take r.end file) r.contents
unfolding wants_more
stop_Suffices read_at lines file whole r i h = elim (Bool-cases (ltb 0 r.end)) [
  | inr first ↦ let none_left : r.end ≡ 0 = ground arith in inl (rw none_left refl)
  | inl some_left ↦ inr (elim (Bool-cases (ltb r.total_bytes max_tail_read_bytes)) [
    | inr limit ↦ inl (ground arith)
    | inl below ↦ inr (ground arith, stop-IsChunks r.contents r some_left i.chunked i.total)
  ])
]

round-IsReading :
    (read_at : ReadAt) (lines : ℕ) (file whole : Text) (r : Reading)
    → IsReading file whole r
    → wants_more read_at lines r ≡ true
    → let start = chunk_start read_at lines r in
      IsReading file whole (add_chunk read_at lines r (take (r.end - start) (drop start file)))
round-IsReading read_at lines file whole r i more =
    let (lower, fits) = chunk_fits read_at lines r more in
    let start = chunk_start read_at lines r in
    let chunk = take (r.end - start) (drop start file) in
    let size : length chunk ≡ r.end - start =
      length-take_le (r.end - start) (drop start file)
        (omega (arith, i.inside, length-drop_le start file)) in
    record {
      kept =
          sym (append_assoc (take start file) chunk r.contents)
          ∙ ap (λ (t : Text). t ++ r.contents)
              (take_split start (r.end - start) r.end file (omega arith))
          ∙ i.kept;
      inside = omega (arith, i.inside);
      total = omega (arith, i.total, size, length-append chunk r.contents);
      counted = omega (arith, i.counted, count-append chunk r.contents);
      capped = omega (arith, size);
      chunked = rw size (round_more read_at lines r more i.chunked);
    }

read_chunks-ReadsEnd :
    (read_at : ReadAt) (lines : ℕ) (file whole : Text) (fuel : ℕ) (r : Reading)
    → Reads file read_at
    → IsReading file whole r
    → r.end < fuel
    → ReadsEnd lines whole (read_chunks read_at lines fuel r)
unfolding read_chunks
read_chunks-ReadsEnd read_at lines file whole zero r reads i enough = absurd (omega arith)
read_chunks-ReadsEnd read_at lines file whole (suc fuel) r reads i enough =
    elim (Bool-cases (wants_more read_at lines r)) [
      | inr stop ↦ (
        take r.end file,
        r.contents,
        rw (read_chunks, stop),
        i.kept,
        omega (arith, i.total, i.capped),
        stop_Suffices read_at lines file whole r i stop,
      )
      | inl more ↦
          let (lower, fits) = chunk_fits read_at lines r more in
          let start = chunk_start read_at lines r in
          let got = reads (r.end - start) start (omega (arith, i.inside)) in
          let (before, contents, same, whole_split, size, why) =
            read_chunks-ReadsEnd read_at lines file whole fuel
              (add_chunk read_at lines r (take (r.end - start) (drop start file))) reads
              (round-IsReading read_at lines file whole r i more) (omega arith) in
          (before, contents, rw (read_chunks, more, got) same, whole_split, size, why)
    ]

-- Of a file opened with `size` bytes, which may grow meanwhile, the loop returns the end: all of
-- it, or 10 MiB, or a part with as many newlines as lines are wanted.
pub read_tail_chunks-ReadsEnd :
    (read_at : ReadAt) (file : Text) (size lines : ℕ)
    → Reads file read_at
    → size ≤ length file
    → ReadsEnd lines (take size file) (read_tail_chunks read_at size lines)
unfolding read_tail_chunks
read_tail_chunks-ReadsEnd read_at file size lines reads inside =
    read_chunks-ReadsEnd read_at lines file (take size file) (suc size)
      (record { end = size; total_bytes = 0; newlines = 0; contents = [] }) reads
      (record {
        kept = append-nil (take size file);
        inside = inside;
        total = refl;
        counted = unfold count_newlines in refl;
        capped = omega arith;
        chunked = inr (0, refl);
      })
      (omega arith)
