-- ===== src/Session/ByteLog/Disk/Contents.antt =====
-- byte_log.rs: what the log file keeps of the chunks that the disk appender task has taken.
use forgetty.Base.{
  ℕ, ◌+◌, ◌/◌, ◌≤◌, ◌<◌, ◌≡◌, ◌⊎◌, refl, sym, ap, min, List, [], ◌∷◌, ◌++◌, Bool, true, false, ◌&&◌,
  subst, take, arith, length, drop, drop_all, ◌-◌, leb, ◌∙◌, append-nil, append_assoc,
  length-append, Bool-cases, inl, inr, take-append-drop,
}
use forgetty.Session.ByteLog.{DiskMsg, chunk, flush, saturating_add, u64_max, read_tail}
use forgetty.Session.ByteLog.Ring.{
  take_last, take_last-take_last, take_last-append_all, length-take_last,
}
use forgetty.Session.ByteLog.Disk.{
  Appender, Written, in_full, partly, Flushed, all_passed, some_passed, Rotation, rotated,
  copy_failed, reopen_failed, flush_failed, DiskAnswer, pass_on, taken, write_all, flush_writer,
  rotate_log, append_chunk, answer_flush, receive, disk_appender_task,
}

-- The bytes that the writes of the messages took.
abbrev pub accepted : List (DiskAnswer × DiskMsg) → List ℕ
accepted [] = []
accepted ((answer, chunk bytes) ∷ rest) = taken answer.written bytes ++ accepted rest
accepted ((answer, flush) ∷ rest) = accepted rest

-- How many bytes the writes that failed had taken: the task does not count them.
abbrev pub uncounted_in : Written → List ℕ → ℕ
uncounted_in in_full bytes = 0
uncounted_in (partly n) bytes = length (take n bytes)

abbrev pub uncounted : List (DiskAnswer × DiskMsg) → ℕ
uncounted [] = 0
uncounted ((answer, chunk bytes) ∷ rest) = uncounted_in answer.written bytes + uncounted rest
uncounted ((answer, flush) ∷ rest) = uncounted rest

abbrev pub reopens : Rotation → Bool
reopens reopen_failed = false
reopens rotation = true

-- Every file that a rotation has put in place can be opened.
abbrev pub all_reopen : List (DiskAnswer × DiskMsg) → Bool
all_reopen [] = true
all_reopen ((answer, m) ∷ rest) = reopens answer.rotation && all_reopen rest

-- What the file and the buffer hold together.
abbrev pub contents : Appender → List ℕ
contents a = a.file ++ a.buffer

-- They hold the newest bytes of the stream, without a gap, and the size that the task keeps is the number
-- of these bytes but for at most `missed` that it has not counted.
pub record Keeps (missed : ℕ) (stream : List ℕ) (a : Appender) : Type 0 where
  pub attached : a.is_attached ≡ true
  pub newest : contents a ≡ take_last (length (contents a)) stream
  pub fits : length (contents a) ≤ length stream
  pub counted : a.file_size_approx ≤ length (contents a)
  pub close : length (contents a) ≤ a.file_size_approx + missed

contents-pass_on :
    (n : ℕ) (a : Appender) → a.is_attached ≡ true → contents (pass_on n a) ≡ contents a
unfolding pass_on
contents-pass_on n a attached = rw (attached, append_assoc a.file, take-append-drop n a.buffer) refl

-- A step that keeps the contents, the size and the place of the writer keeps the property.
Keeps-same :
    (missed : ℕ) (stream : List ℕ) (a b : Appender)
    → b.is_attached ≡ a.is_attached
    → contents b ≡ contents a
    → b.file_size_approx ≡ a.file_size_approx
    → Keeps missed stream a
    → Keeps missed stream b
Keeps-same missed stream a b place same size k =
    let len = ap (λ (xs : List ℕ). length xs) same in
    record {
      attached = place ∙ k.attached;
      newest = rw same k.newest;
      fits = omega (arith, len, k.fits);
      counted = omega (arith, len, size, k.counted);
      close = omega (arith, len, size, k.close);
    }

flush_writer-Keeps :
    (missed : ℕ) (stream : List ℕ) (f : Flushed) (a : Appender)
    → Keeps missed stream a
    → Keeps missed stream (flush_writer f a)
unfolding flush_writer pass_on
flush_writer-Keeps missed stream all_passed a k =
    Keeps-same missed stream a _ refl (contents-pass_on (length a.buffer) a k.attached) refl k
flush_writer-Keeps missed stream (some_passed n) a k =
    Keeps-same missed stream a _ refl (contents-pass_on n a k.attached) refl k

contents-write_all :
    (w : Written) (spilled : ℕ) (bytes : List ℕ) (a : Appender)
    → a.is_attached ≡ true
    → contents (write_all w spilled bytes a) ≡ contents a ++ taken w bytes
unfolding write_all
contents-write_all w spilled bytes a attached =
    contents-pass_on spilled (record a { buffer = a.buffer ++ taken w bytes }) attached
    ∙ sym (append_assoc a.file a.buffer (taken w bytes))

attached-write_all :
    (w : Written) (spilled : ℕ) (bytes : List ℕ) (a : Appender)
    → a.is_attached ≡ true
    → (write_all w spilled bytes a).is_attached ≡ true
unfolding write_all pass_on
attached-write_all w spilled bytes a attached = attached

-- With any size that misses the bytes of a failed write at most.
write_all-Keeps :
    (missed : ℕ) (stream bytes : List ℕ) (w : Written) (spilled size : ℕ) (a : Appender)
    → size ≤ a.file_size_approx + length (taken w bytes)
    → a.file_size_approx + length (taken w bytes) ≤ size + uncounted_in w bytes
    → Keeps missed stream a
    → Keeps
        (missed + uncounted_in w bytes)
        (stream ++ taken w bytes)
        (record (write_all w spilled bytes a) { file_size_approx = size })
unfolding write_all pass_on
write_all-Keeps missed stream bytes w spilled size a small near k =
    let e = contents-write_all w spilled bytes a k.attached in
    let len = ap (λ (xs : List ℕ). length xs) e ∙ length-append (contents a) (taken w bytes) in
    record {
      attached = k.attached;
      newest =
          e
          ∙ ap (λ (xs : List ℕ). xs ++ taken w bytes) k.newest
          ∙ take_last-append_all (length (contents a)) stream (taken w bytes) k.fits
          ∙ ap (λ n. take_last n (stream ++ taken w bytes)) (sym len);
      fits = omega (arith, len, length-append stream (taken w bytes), k.fits);
      counted = omega (arith, len, k.counted, small);
      close = omega (arith, len, k.close, near);
    }

-- A flush in full leaves everything in the file.
flushed_in_full :
    (a : Appender)
    → a.is_attached ≡ true
    → ((flush_writer all_passed a).buffer ≡ []) × ((flush_writer all_passed a).file ≡ contents a)
unfolding flush_writer pass_on
flushed_in_full a attached =
    let f = pass_on (length a.buffer) a in
    let empty : f.buffer ≡ [] = drop_all (length a.buffer) a.buffer (omega arith) in
    (
      empty,
      sym (append-nil f.file)
          ∙ ap (λ (xs : List ℕ). f.file ++ xs) (sym empty)
          ∙ contents-pass_on (length a.buffer) a attached,
    )

-- What a rotation that succeeds leaves.
record IsRotated (keep_bytes : ℕ) (a b : Appender) : Type 0 where
  pub attached : b.is_attached ≡ true
  pub kept : contents b ≡ take_last (min (length (contents a)) keep_bytes) (contents a)
  pub counted : b.file_size_approx ≡ min (length (contents a)) keep_bytes

rotate_log-IsRotated :
    (keep_bytes : ℕ) (a : Appender)
    → a.is_attached ≡ true
    → IsRotated keep_bytes a (rotate_log rotated keep_bytes a)
unfolding rotate_log read_tail
rotate_log-IsRotated keep_bytes a attached =
    let (empty, full) = flushed_in_full a attached in
    let tail = λ (xs : List ℕ). drop (length xs - min (length xs) keep_bytes) xs in
    record {
      attached = refl;
      kept =
          ap (λ (xs : List ℕ). tail (flush_writer all_passed a).file ++ xs) empty
          ∙ append-nil (tail (flush_writer all_passed a).file)
          ∙ ap tail full;
      counted = ap (λ (xs : List ℕ). min (length xs) keep_bytes) full;
    }

length-rotated :
    (keep_bytes : ℕ) (a b : Appender)
    → IsRotated keep_bytes a b
    → length (contents b) ≡ b.file_size_approx
length-rotated keep_bytes a b r =
    let len = ap (λ (xs : List ℕ). length xs) r.kept in
    omega
      (arith, len, length-take_last (min (length (contents a)) keep_bytes) (contents a), r.counted)

rotate_log-Keeps :
    (missed : ℕ) (stream : List ℕ) (r : Rotation) (keep_bytes : ℕ) (a : Appender)
    → reopens r ≡ true
    → Keeps missed stream a
    → Keeps missed stream (rotate_log r keep_bytes a)
unfolding rotate_log
rotate_log-Keeps missed stream rotated keep_bytes a h k =
    let b = rotate_log rotated keep_bytes a in
    let r = rotate_log-IsRotated keep_bytes a k.attached in
    let m = min (length (contents a)) keep_bytes in
    let len : length (contents b) ≡ m = length-rotated keep_bytes a b r ∙ r.counted in
    record {
      attached = r.attached;
      newest =
          r.kept
          ∙ ap (take_last m) k.newest
          ∙ take_last-take_last m (length (contents a)) stream (omega arith)
          ∙ ap (λ n. take_last n stream) (sym len);
      fits = omega (arith, len, k.fits);
      counted = omega (arith, length-rotated keep_bytes a b r);
      close = omega (arith, length-rotated keep_bytes a b r);
    }
rotate_log-Keeps missed stream copy_failed keep_bytes a h k =
    flush_writer-Keeps missed stream all_passed a k
rotate_log-Keeps missed stream reopen_failed keep_bytes a h k = cc
rotate_log-Keeps missed stream (flush_failed n) keep_bytes a h k =
    flush_writer-Keeps missed stream (some_passed n) a k

Written-cases : (w : Written) → (w ≡ in_full) ⊎ ((n : ℕ) × (w ≡ partly n))
Written-cases in_full = inl refl
Written-cases (partly n) = inr (n, refl)

append_chunk-Keeps :
    (missed : ℕ) (stream bytes : List ℕ) (answer : DiskAnswer) (a : Appender)
    → length (stream ++ taken answer.written bytes) ≤ u64_max
    → reopens answer.rotation ≡ true
    → Keeps missed stream a
    → Keeps
        (missed + uncounted_in answer.written bytes)
        (stream ++ taken answer.written bytes)
        (append_chunk answer bytes a)
unfolding append_chunk write_all pass_on
append_chunk-Keeps missed stream bytes answer a fits h k = elim (Written-cases answer.written) [
  | inr (n, part) ↦ rw part (
      write_all-Keeps missed stream bytes (partly n) answer.spilled a.file_size_approx a
        (omega arith) (omega arith) k)
  | inl full ↦
      let size = saturating_add a.file_size_approx (length bytes) in
      let fits' : length (stream ++ bytes) ≤ u64_max =
        subst (λ (w : Written). length (stream ++ taken w bytes) ≤ u64_max) full fits in
      let near : a.file_size_approx + length bytes ≤ size =
        omega (arith, fits', length-append stream bytes, k.counted, k.fits) in
      let w =
        write_all-Keeps missed stream bytes in_full answer.spilled size a (omega arith)
          (omega (arith, near)) k in
      elim (Bool-cases (leb a.max_disk_bytes size)) [
        | inl over ↦
            rw (full, over) (rotate_log-Keeps _ _ answer.rotation (a.max_disk_bytes / 2) _ h w)
        | inr under ↦ rw (full, under) w
      ]
]

answer_flush-Keeps :
    (missed : ℕ) (stream : List ℕ) (answer : DiskAnswer) (a : Appender)
    → Keeps missed stream a
    → Keeps missed stream (answer_flush answer a)
unfolding answer_flush
answer_flush-Keeps missed stream answer a k =
    let f = flush_writer-Keeps missed stream answer.flushed a k in
    record {
      attached = f.attached;
      newest = f.newest;
      fits = f.fits;
      counted = f.counted;
      close = f.close;
    }

-- After any run of messages and the closing flush, if every file that a rotation put in place can be
-- opened, the file and the buffer hold the newest bytes of what stood there and of what the writes took,
-- without a gap. The size that the task keeps is at most their number, and less by at most what it was
-- less by before and what the failed writes had taken. Writes may fail after any number of bytes,
-- flushes likewise, and rotations in every other step; all the bytes number at most 2^64 - 1.
pub disk_appender_task-Keeps :
    (messages : List (DiskAnswer × DiskMsg)) (last : DiskAnswer) (missed : ℕ) (stream : List ℕ)
    (a : Appender)
    → length (stream ++ accepted messages) ≤ u64_max
    → all_reopen messages ≡ true
    → Keeps missed stream a
    → Keeps
        (missed + uncounted messages)
        (stream ++ accepted messages)
        (disk_appender_task messages last a)
unfolding disk_appender_task
disk_appender_task-Keeps [] last missed stream a fits h k =
    let none_more : missed + 0 ≡ missed = omega arith in
    rw (append-nil, none_more) (flush_writer-Keeps missed stream last.flushed a k)
disk_appender_task-Keeps ((answer, chunk bytes) ∷ rest) last missed stream a fits h k =
    let now = taken answer.written bytes in
    let lost = uncounted_in answer.written bytes in
    let joined : stream ++ (now ++ accepted rest) ≡ (stream ++ now) ++ accepted rest =
      sym (append_assoc stream now (accepted rest)) in
    let summed : missed + (lost + uncounted rest) ≡ missed + lost + uncounted rest = omega arith in
    let fits' : length ((stream ++ now) ++ accepted rest) ≤ u64_max =
      subst (λ (xs : List ℕ). length xs ≤ u64_max) joined fits in
    let here : length (stream ++ now) ≤ u64_max =
      omega (arith, length-append (stream ++ now) (accepted rest), fits') in
    rw (joined, summed)
      (disk_appender_task-Keeps rest last (missed + lost) (stream ++ now)
        (append_chunk answer bytes a) fits' (ground (arith, h))
        (append_chunk-Keeps missed stream bytes answer a here (ground (arith, h)) k))
disk_appender_task-Keeps ((answer, flush) ∷ rest) last missed stream a fits h k =
    disk_appender_task-Keeps rest last missed stream (answer_flush answer a) fits
      (ground (arith, h)) (answer_flush-Keeps missed stream answer a k)

-- The disk cap: where the size is exact, a chunk that is written in full, with a rotation that
-- succeeds if one is due, leaves the log below `max_disk_bytes`, however large it was and however long
-- the chunk is, and the size exact. The writer is at the log, and the bytes number at most 2^64 - 1.
pub receive-lt-max :
    (bytes : List ℕ) (answer : DiskAnswer) (a : Appender)
    → length (contents a) + length bytes ≤ u64_max
    → a.is_attached ≡ true
    → a.file_size_approx ≡ length (contents a)
    → 0 < a.max_disk_bytes
    → answer.written ≡ in_full
    → answer.rotation ≡ rotated
    → let b = receive answer (chunk bytes) a in
      (length (contents b) < a.max_disk_bytes) × (b.file_size_approx ≡ length (contents b))
unfolding receive append_chunk
receive-lt-max bytes answer a h attached exact pos full rot =
    let size = saturating_add a.file_size_approx (length bytes) in
    let written = write_all in_full answer.spilled bytes a in
    let b : Appender = record written { file_size_approx = size } in
    let e = contents-write_all in_full answer.spilled bytes a attached in
    let len = ap (λ (xs : List ℕ). length xs) e ∙ length-append (contents a) bytes in
    let at_log : b.is_attached ≡ true =
      attached-write_all in_full answer.spilled bytes a attached in
    let r = rotate_log-IsRotated (a.max_disk_bytes / 2) b at_log in
    let cut = length-rotated (a.max_disk_bytes / 2) b _ r in
    elim (Bool-cases (leb a.max_disk_bytes size)) [
      | inl over ↦ rw (full, rot, over) (omega (arith, cut, r.counted, pos), omega (arith, cut))
      | inr under ↦
          let below : size < a.max_disk_bytes = ground (arith, under) in
          rw (full, under) (omega (arith, len, exact, h, below), omega (arith, len, exact, h))
    ]
