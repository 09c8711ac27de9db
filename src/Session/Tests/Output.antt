-- ===== src/Session/Tests/Output.antt =====
-- The theorems on output, at the session of Demo.antt.
use forgetty.Base.{◌<◌, ◌≡◌, refl, [], ◌∷◌, ◌++◌, true, false, some, arith, length, drop, lookup}
use forgetty.Session.ByteLog.{ByteLog, new, present, ring_snapshot, chunk}
use forgetty.Session.ByteLog.Ring.{Tracks, append_all, ring_snapshot-append_all}
use forgetty.Session.ByteLog.Disk.{
  Appender, DiskAnswer, in_full, partly, all_passed, some_passed, rotated, copy_failed,
  disk_appender_task, receive,
}
use forgetty.Session.ByteLog.Disk.Contents.{
  Keeps, disk_appender_task-Keeps, receive-lt-max, contents,
}
use forgetty.Session.Output.{subscribe_with_snapshot, pending}
use forgetty.Session.Replay.{process_all, output_of, replay-pending}
use forgetty.Session.Tests.Demo.{demo, demo_env, demo_log}

small_log :
    new (present (1 ∷ 2 ∷ 3 ∷ [])) 2 0
    ≡ some (record {
      ring = 2 ∷ 3 ∷ [];
      ring_capacity = 2;
      total_bytes_written = 3;
      disk_tx = record { queue = []; is_open = false };
    })
unfolding new
small_log = refl

ring_snapshot-append_all_example :
    ring_snapshot (
      append_all ((4 ∷ []) ∷ (5 ∷ []) ∷ []) (record {
        ring = 2 ∷ 3 ∷ [];
        ring_capacity = 2;
        total_bytes_written = 3;
        disk_tx = record { queue = []; is_open = false };
      }))
    ≡ (4 ∷ 5 ∷ [], 5)
ring_snapshot-append_all_example =
    ring_snapshot-append_all (present (1 ∷ 2 ∷ 3 ∷ [])) 2 0 ((4 ∷ []) ∷ (5 ∷ []) ∷ [])
      (record {
        ring = 2 ∷ 3 ∷ [];
        ring_capacity = 2;
        total_bytes_written = 3;
        disk_tx = record { queue = []; is_open = false };
      })
      (omega arith) small_log

abbrev good_answer : DiskAnswer
good_answer = record { written = in_full; spilled = 1; flushed = all_passed; rotation = rotated }

-- One byte of the chunk is taken before the write fails.
abbrev bad_answer : DiskAnswer
bad_answer = record {
  written = partly 1;
  spilled = 1;
  flushed = some_passed 1;
  rotation = copy_failed;
}

abbrev log_on_disk : Appender
log_on_disk = record {
  file = 1 ∷ 2 ∷ [];
  buffer = [];
  is_attached = true;
  file_size_approx = 2;
  max_disk_bytes = 4;
  replies = 0;
}

log_on_disk-Keeps : Keeps 0 (1 ∷ 2 ∷ []) log_on_disk
log_on_disk-Keeps = record {
  attached = refl;
  newest = refl;
  fits = omega arith;
  counted = omega arith;
  close = omega arith;
}

disk_appender_task-Keeps_example : Keeps 1 (1 ∷ 2 ∷ 3 ∷ 5 ∷ 6 ∷ []) (
    disk_appender_task
      ((bad_answer, chunk (3 ∷ 4 ∷ [])) ∷ (good_answer, chunk (5 ∷ 6 ∷ [])) ∷ [])
      good_answer
      log_on_disk)
disk_appender_task-Keeps_example =
    disk_appender_task-Keeps
      ((bad_answer, chunk (3 ∷ 4 ∷ [])) ∷ (good_answer, chunk (5 ∷ 6 ∷ [])) ∷ []) good_answer 0
      (1 ∷ 2 ∷ []) log_on_disk (omega arith) refl log_on_disk-Keeps

receive-lt-max_example :
    let b = receive good_answer (chunk (3 ∷ 4 ∷ [])) log_on_disk in
    (length (contents b) < 4) × (b.file_size_approx ≡ length (contents b))
receive-lt-max_example =
    receive-lt-max (3 ∷ 4 ∷ []) good_answer log_on_disk (omega arith) refl refl (omega arith) refl
      refl

pub log_1 : lookup 1 demo.byte_logs ≡ some demo_log
unfolding lookup
log_1 = refl

pub demo_log-Tracks : Tracks 2 (4 ∷ 5 ∷ 6 ∷ []) demo_log
demo_log-Tracks = record { sized = refl; window = refl; counted = refl }

replay-pending_example :
    let t = process_all ((demo_env, 3, 8 ∷ []) ∷ (demo_env, 1, 7 ∷ []) ∷ []) demo in
    let (rx, replay, high_water) = subscribe_with_snapshot 1 demo in
    let live = output_of 1 (pending rx t) in
    (replay ++ live ≡ drop 1 ((4 ∷ 5 ∷ 6 ∷ []) ++ live))
    × (high_water ≡ 3)
    × ((log' : ByteLog) × (lookup 1 t.byte_logs ≡ some log')
        × Tracks 2 ((4 ∷ 5 ∷ 6 ∷ []) ++ live) log')
replay-pending_example =
    replay-pending 1 2 (4 ∷ 5 ∷ 6 ∷ []) demo_log
      ((demo_env, 3, 8 ∷ []) ∷ (demo_env, 1, 7 ∷ []) ∷ []) demo log_1 demo_log-Tracks
