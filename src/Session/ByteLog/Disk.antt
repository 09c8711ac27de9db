-- ===== src/Session/ByteLog/Disk.antt =====
-- The disk appender task of byte_log.rs: the log file, its writer and its rotation.
pub mod Contents
use forgetty.Base.{
  ℕ, ◌+◌, ◌/◌, ◌≤◌, ◌<◌, ◌≡◌, ◌⊎◌, refl, sym, ap, subst, min, List, [], ◌∷◌, ◌++◌, Bool, true,
  false, ◌&&◌, arith, length, take, drop, drop_all, ◌-◌, leb, if◌then◌else◌, ◌∙◌, append-nil,
  append_assoc, length-append, Bool-cases, inl, inr, take-append-drop,
}
use forgetty.Session.ByteLog.{DiskMsg, chunk, flush, saturating_add, u64_max, read_tail}
use forgetty.Session.ByteLog.Ring.{
  take_last, take_last-take_last, take_last-append_all, length-take_last,
}

-- The task's variables. `file` is what the log file holds and `buffer` what the `BufWriter` has not
-- written yet; `is_attached` tells whether the writer's file is still the one that the path of the log
-- names; `replies` counts the flush signals that were answered.
pub record Appender : Type 0 where
  pub file : List ℕ
  pub buffer : List ℕ
  pub is_attached : Bool
  pub file_size_approx : ℕ
  pub max_disk_bytes : ℕ
  pub replies : ℕ

-- How a write of a chunk ends: in full, or with an error after so many of its bytes were taken.
pub data Written : Type 0 where
  in_full : Written
  partly : ℕ → Written

-- How a flush ends: in full, or with an error after so many bytes were passed on.
pub data Flushed : Type 0 where
  all_passed : Flushed
  some_passed : ℕ → Flushed

-- How `rotate_log` ends: it succeeds; its flush fails; the copy to the temporary file or the rename
-- fails after the flush; or the new file, already in place, cannot be opened.
pub data Rotation : Type 0 where
  rotated copy_failed reopen_failed : Rotation
  flush_failed : ℕ → Rotation

-- How the file system answers during one message. A write passes `spilled` bytes of the buffer on.
pub record DiskAnswer : Type 0 where
  pub written : Written
  pub spilled : ℕ
  pub flushed : Flushed
  pub rotation : Rotation

-- `n` bytes of the buffer go to the writer's file.
pass_on : ℕ → Appender → Appender
pass_on n a = record a {
  file = if a.is_attached then a.file ++ take n a.buffer else a.file;
  buffer = drop n a.buffer;
}

-- The bytes of a chunk that a write takes.
abbrev pub taken : Written → List ℕ → List ℕ
taken in_full bytes = bytes
taken (partly n) bytes = take n bytes

-- `writer.write_all(&data)`
write_all : Written → ℕ → List ℕ → Appender → Appender
unfolding pass_on
write_all w spilled bytes a = pass_on spilled (record a { buffer = a.buffer ++ taken w bytes })

-- `writer.flush()`
flush_writer : Flushed → Appender → Appender
unfolding pass_on
flush_writer all_passed a = pass_on (length a.buffer) a
flush_writer (some_passed n) a = pass_on n a

-- `rotate_log`, and the match on its result: the newest `keep_bytes` bytes of the flushed file
-- replace it, and the size is set to their number; a failure leaves the size. Where the new file cannot
-- be opened, the writer stays at the old one, which has no name any more.
rotate_log : Rotation → ℕ → Appender → Appender
unfolding flush_writer
rotate_log rotated keep_bytes a =
    let flushed = flush_writer all_passed a in
    record flushed {
      file = read_tail keep_bytes flushed.file;
      is_attached = true;
      file_size_approx = min (length flushed.file) keep_bytes;
    }
rotate_log copy_failed keep_bytes a = flush_writer all_passed a
rotate_log reopen_failed keep_bytes a =
    let flushed = flush_writer all_passed a in
    record flushed { file = read_tail keep_bytes flushed.file; is_attached = false }
rotate_log (flush_failed n) keep_bytes a = flush_writer (some_passed n) a

abbrev pub is_full : Written → Bool
is_full in_full = true
is_full (partly n) = false

-- The branch of `disk_appender_task` for a chunk.
append_chunk : DiskAnswer → List ℕ → Appender → Appender
unfolding write_all rotate_log
append_chunk answer bytes a =
    let after = write_all answer.written answer.spilled bytes a in
    if is_full answer.written
    then (let counted = record after {
      file_size_approx = saturating_add a.file_size_approx (length bytes);
    } in
        if leb a.max_disk_bytes counted.file_size_approx
        then rotate_log answer.rotation (a.max_disk_bytes / 2) counted
        else counted)
    else after

-- The branch for a flush signal: the reply is sent whether or not the flush succeeds.
answer_flush : DiskAnswer → Appender → Appender
unfolding flush_writer
answer_flush answer a =
    let flushed = flush_writer answer.flushed a in record flushed { replies = a.replies + 1 }

-- One round of the task's loop.
pub receive : DiskAnswer → DiskMsg → Appender → Appender
unfolding append_chunk answer_flush
receive answer (chunk bytes) a = append_chunk answer bytes a
receive answer flush a = answer_flush answer a

-- The task until the channel is closed: the last branch flushes and returns.
pub disk_appender_task : List (DiskAnswer × DiskMsg) → DiskAnswer → Appender → Appender
unfolding receive flush_writer
disk_appender_task [] last a = flush_writer last.flushed a
disk_appender_task ((answer, m) ∷ rest) last a = disk_appender_task rest last (receive answer m a)
