-- ===== src/Session/ByteLog.antt =====
-- crates/forgetty-session/src/byte_log.rs: the per-pane ring of recent output and the queue to the
-- task that writes it to disk. A byte is a number.
pub mod Ring
pub mod Disk
use forgetty.Base.{
  ℕ, ◌+◌, ◌-◌, ◌^◌, min, List, [], ◌∷◌, ◌++◌, Option, none, some, Bool, true, false, length, drop,
  ltb, ◌==◌, if◌then◌else◌, ◌&&◌,
}

-- `u64::MAX`, where `saturating_add` stops.
abbrev pub u64_max : ℕ
u64_max = 2 ^ 64 - 1

abbrev pub saturating_add : ℕ → ℕ → ℕ
saturating_add a b = min (a + b) u64_max

-- The bounded channel to the disk appender task.
abbrev pub disk_channel_cap : ℕ
disk_channel_cap = 64

pub data DiskMsg : Type 0 where
  chunk : List ℕ → DiskMsg
  flush : DiskMsg

pub record Channel : Type 0 where
  pub queue : List DiskMsg
  pub is_open : Bool

-- `mpsc::Sender::try_send`: a message is dropped if the channel is full or has no receiver.
pub try_send : DiskMsg → Channel → Channel
try_send m c =
    if c.is_open && ltb (length c.queue) disk_channel_cap
    then record c { queue = c.queue ++ m ∷ [] }
    else c

pub record ByteLog : Type 0 where
  pub ring : List ℕ
  pub ring_capacity : ℕ
  pub total_bytes_written : ℕ
  pub disk_tx : Channel

-- What `ByteLog::new` meets on disk. `unreadable` is a file whose open, seek or read fails, or a
-- directory that cannot be made; `unsized` one whose `metadata` fails, which is only logged.
pub data LogFile : Type 0 where
  missing unreadable unsized : LogFile
  present : List ℕ → LogFile

-- The newest `n` bytes: a seek to the end less `n`, and a read of all that follows.
pub read_tail : ℕ → List ℕ → List ℕ
read_tail n bytes = drop (length bytes - min (length bytes) n) bytes

fresh : List ℕ → ℕ → ℕ → ℕ → ByteLog
fresh ring ring_capacity total max_disk_bytes = record {
  ring = ring;
  ring_capacity = ring_capacity;
  total_bytes_written = total;
  disk_tx = record { queue = []; is_open = ltb 0 max_disk_bytes };
}

-- `ByteLog::new`. At capacity 0 nothing is read, and `read_tail 0` is the empty list.
unfoldable pub new : LogFile → ℕ → ℕ → Option ByteLog
unfolding fresh read_tail
new missing ring_capacity max_disk_bytes = some (fresh [] ring_capacity 0 max_disk_bytes)
new unreadable ring_capacity max_disk_bytes = none
new unsized ring_capacity max_disk_bytes = some (fresh [] ring_capacity 0 max_disk_bytes)
new (present bytes) ring_capacity max_disk_bytes =
    some (fresh (read_tail ring_capacity bytes) ring_capacity (length bytes) max_disk_bytes)

-- `while self.ring.len() > self.ring_capacity { self.ring.pop_front(); }`, by recursion on the ring.
pub evict : ℕ → List ℕ → List ℕ
evict capacity [] = []
evict capacity (b ∷ ring) =
    let rest = evict capacity ring in if ltb capacity (length (b ∷ ring)) then rest else b ∷ ring

-- The ring after the new bytes: cleared at capacity 0.
pub push_ring : ℕ → List ℕ → List ℕ → List ℕ
unfolding evict
push_ring capacity ring bytes =
    let full = ring ++ bytes in if capacity == 0 then [] else evict capacity full

-- `ByteLog::append`; an empty chunk returns early.
unfoldable pub append : List ℕ → ByteLog → ByteLog
unfolding push_ring try_send
append [] log = log
append (b ∷ bytes) log = record log {
  ring = push_ring log.ring_capacity log.ring (b ∷ bytes);
  total_bytes_written = saturating_add log.total_bytes_written (length (b ∷ bytes));
  disk_tx = try_send (chunk (b ∷ bytes)) log.disk_tx;
}

-- `ByteLog::ring_snapshot`: the ring, and the number of bytes written so far.
unfoldable pub ring_snapshot : ByteLog → List ℕ × ℕ
ring_snapshot log = (log.ring, log.total_bytes_written)
