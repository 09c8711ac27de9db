-- ===== src/Session/ByteLog/Ring.antt =====
-- The ring of byte_log.rs and its specification, the newest bytes of the whole stream.
use forgetty.Base.{
  ℕ, suc, ◌+◌, ◌-◌, ◌≤◌, ◌≡◌, refl, sym, ap, subst, min, List, [], ◌∷◌, ◌++◌, some, arith, length,
  drop, append-nil, append_assoc, length-append, length-drop, drop-nil, drop-drop, drop-append,
  drop_all, ltb, ◌==◌, inl, inr, Bool-cases,
}
use forgetty.Session.ByteLog.{
  ByteLog, LogFile, u64_max, read_tail, fresh, new, evict, push_ring, append, ring_snapshot,
  missing, unreadable, unsized, present,
}

-- The newest `n` elements of a list.
abbrev pub take_last {ℓ} : {A : Type ℓ} → ℕ → List A → List A
take_last n xs = drop (length xs - n) xs

pub evict-take_last : (capacity : ℕ) (ring : List ℕ) → evict capacity ring ≡ take_last capacity ring
unfolding evict
evict-take_last capacity [] = ground arith
evict-take_last capacity (b ∷ ring) = elim (Bool-cases (ltb capacity (length (b ∷ ring)))) [
  | inl over ↦
      let e : length (b ∷ ring) - capacity ≡ suc (length ring - capacity) = ground arith in
      rw (over, e) (evict-take_last capacity ring)
  | inr fits ↦ let e : length (b ∷ ring) - capacity ≡ 0 = ground arith in rw (fits, e)
]

module _ {ℓ} {A : Type ℓ} where
  -- What an older window and the new elements leave is what the whole stream leaves.
  pub take_last-append :
      (n : ℕ) (xs ys : List A) → take_last n (take_last n xs ++ ys) ≡ take_last n (xs ++ ys)
  take_last-append n xs ys =
      let k = length xs - n in
      let joined : drop k xs ++ ys ≡ drop k (xs ++ ys) = sym (drop-append k xs ys (omega arith)) in
      let e : k + (length (xs ++ ys) - k - n) ≡ length (xs ++ ys) - n =
        omega (arith, length-append xs ys) in
      rw (joined, length-drop k (xs ++ ys), drop-drop, e)

  pub take_last-zero : (xs : List A) → take_last 0 xs ≡ []
  take_last-zero xs = drop_all (length xs - 0) xs (omega arith)

  -- A window of a window, if the inner one is at least as wide.
  pub take_last-take_last :
      (m n : ℕ) (xs : List A) → m ≤ n → take_last m (take_last n xs) ≡ take_last m xs
  take_last-take_last m n xs h =
      let k = length xs - n in
      let e : k + (length xs - k - m) ≡ length xs - m = omega arith in
      rw (length-drop k xs, drop-drop, e)

  -- A window grows with the stream when it takes the new elements in.
  pub take_last-append_all :
      (n : ℕ) (xs ys : List A)
      → n ≤ length xs
      → take_last n xs ++ ys ≡ take_last (n + length ys) (xs ++ ys)
  take_last-append_all n xs ys h =
      let e : length (xs ++ ys) - (n + length ys) ≡ length xs - n =
        omega (arith, length-append xs ys) in
      rw e (sym (drop-append (length xs - n) xs ys (omega arith)))

  pub length-take_last : (n : ℕ) (xs : List A) → length (take_last n xs) ≡ min n (length xs)
  length-take_last n xs = omega (arith, length-drop (length xs - n) xs)

  pub length-take_last-le : (n : ℕ) (xs : List A) → length (take_last n xs) ≤ n
  length-take_last-le n xs = omega (arith, length-drop (length xs - n) xs)

-- A log of the given capacity has seen the stream: the ring holds its newest bytes and the
-- counter its length.
pub record Tracks (capacity : ℕ) (stream : List ℕ) (log : ByteLog) : Type 0 where
  pub sized : log.ring_capacity ≡ capacity
  pub window : log.ring ≡ take_last capacity stream
  pub counted : log.total_bytes_written ≡ min (length stream) u64_max

push_ring-take_last :
    (capacity : ℕ) (ring bytes : List ℕ)
    → push_ring capacity ring bytes ≡ take_last capacity (ring ++ bytes)
unfolding push_ring
push_ring-take_last capacity ring bytes = elim (Bool-cases (capacity == 0)) [
  | inl off ↦
      let e : capacity ≡ 0 = ground arith in rw (off, e) (sym (take_last-zero (ring ++ bytes)))
  | inr on ↦ rw on (evict-take_last capacity (ring ++ bytes))
]

-- `append` keeps this for the stream that grows by the chunk, whatever the sizes.
pub append-Tracks :
    (capacity : ℕ) (stream bytes : List ℕ) (log : ByteLog)
    → Tracks capacity stream log
    → Tracks capacity (stream ++ bytes) (append bytes log)
unfolding append
append-Tracks capacity stream [] log t = rw append-nil t
append-Tracks capacity stream (b ∷ bytes) log t = record {
  sized = t.sized;
  window =
      rw (push_ring-take_last log.ring_capacity log.ring (b ∷ bytes), t.window, t.sized)
        (take_last-append capacity stream (b ∷ bytes));
  counted = omega (arith, t.counted, length-append stream (b ∷ bytes));
}

-- The bytes that stand on disk when a log is opened.
abbrev pub file_bytes : LogFile → List ℕ
file_bytes (present bytes) = bytes
file_bytes other = []

fresh-Tracks :
    (bytes : List ℕ) (capacity max_disk : ℕ)
    → length bytes ≤ u64_max
    → Tracks capacity bytes (fresh (read_tail capacity bytes) capacity (length bytes) max_disk)
unfolding fresh read_tail
fresh-Tracks bytes capacity max_disk h =
    let k : length bytes - min (length bytes) capacity ≡ length bytes - capacity = omega arith in
    record { sized = refl; window = ap (λ n. drop n bytes) k; counted = omega arith }

fresh-nil-Tracks : (capacity max_disk : ℕ) → Tracks capacity [] (fresh [] capacity 0 max_disk)
unfolding fresh
fresh-nil-Tracks capacity max_disk = record {
  sized = refl;
  window = sym (drop-nil (0 - capacity));
  counted = omega arith;
}

-- A log opened on a file has seen the file, if its size fits the counter.
pub new-Tracks :
    (file : LogFile) (capacity max_disk : ℕ) (log : ByteLog)
    → length (file_bytes file) ≤ u64_max
    → new file capacity max_disk ≡ some log
    → Tracks capacity (file_bytes file) log
unfolding new
new-Tracks missing capacity max_disk log h e =
    subst (Tracks capacity []) (cc) (fresh-nil-Tracks capacity max_disk)
new-Tracks unreadable capacity max_disk log h e = cc
new-Tracks unsized capacity max_disk log h e =
    subst (Tracks capacity []) (cc) (fresh-nil-Tracks capacity max_disk)
new-Tracks (present bytes) capacity max_disk log h e =
    subst (Tracks capacity bytes) (cc) (fresh-Tracks bytes capacity max_disk h)

-- The bytes of a sequence of chunks, in order.
abbrev pub concat : List (List ℕ) → List ℕ
concat [] = []
concat (c ∷ cs) = c ++ concat cs

pub append_all : List (List ℕ) → ByteLog → ByteLog
append_all [] log = log
append_all (c ∷ cs) log = append_all cs (append c log)

pub append_all-Tracks :
    (capacity : ℕ) (chunks : List (List ℕ)) (stream : List ℕ) (log : ByteLog)
    → Tracks capacity stream log
    → Tracks capacity (stream ++ concat chunks) (append_all chunks log)
unfolding append_all
append_all-Tracks capacity [] stream log t = rw append-nil t
append_all-Tracks capacity (c ∷ cs) stream log t = rw (← append_assoc stream c (concat cs)) (
    append_all-Tracks capacity cs (stream ++ c) (append c log)
      (append-Tracks capacity stream c log t))

-- Whatever file a log is opened on, and whatever chunks are appended then, a snapshot of its ring
-- is the newest `capacity` bytes of the file followed by the chunks, with the number of all these
-- bytes, which stops at the largest 64-bit number. The file's own size fits 64 bits.
pub ring_snapshot-append_all :
    (file : LogFile) (capacity max_disk : ℕ) (chunks : List (List ℕ)) (log : ByteLog)
    → length (file_bytes file) ≤ u64_max
    → new file capacity max_disk ≡ some log
    → ring_snapshot (append_all chunks log) ≡ (
      take_last capacity (file_bytes file ++ concat chunks),
      min (length (file_bytes file ++ concat chunks)) u64_max,
    )
unfolding ring_snapshot
ring_snapshot-append_all file capacity max_disk chunks log h e =
    let t =
      append_all-Tracks capacity chunks (file_bytes file) log
        (new-Tracks file capacity max_disk log h e) in
    rw (t.window, t.counted) refl
