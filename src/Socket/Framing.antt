-- ===== src/Socket/Framing.antt =====
-- crates/forgetty-socket/src/framing.rs: frames of a 4-byte big-endian length and a payload. A byte is
-- a number below 256, and a stream the bytes that are still to be read before it is closed.
use forgetty.Base.{
  ℕ, zero, suc, ◌+◌, ◌*◌, ◌/◌, ◌%◌, ◌^◌, ◌≤◌, ◌<◌, ◌≡◌, refl, ap, ◌∙◌, List, [], ◌∷◌, ◌++◌, false,
  Option, none, some, arith, min, length, take, ltb, if◌then◌else◌, append_assoc, Bool-cases,
  Option-cases, inl, inr,
}

abbrev pub max_frame_size : ℕ
max_frame_size = 4 * 1024 * 1024

-- `u32::to_be_bytes`
unfoldable pub to_be_bytes : ℕ → List ℕ
to_be_bytes n = n / 0x1000000 % 256 ∷ n / 0x10000 % 256 ∷ n / 0x100 % 256 ∷ n % 256 ∷ []

pub data FrameError : Type 0 where
  payload_too_long frame_too_long : ℕ → FrameError
  unexpected_eof : FrameError

-- What was written to the stream, and the error. A write to the stream is taken to succeed.
unfoldable pub write_frame : List ℕ → List ℕ → List ℕ × Option FrameError
unfolding to_be_bytes
write_frame stream payload =
    if ltb max_frame_size (length payload)
    then (stream, some (payload_too_long (length payload)))
    else ((stream ++ to_be_bytes (length payload)) ++ payload, none)

-- `read_exact` of `n` bytes: the bytes and the rest, unless the stream ends before.
unfoldable pub read_exact : ℕ → List ℕ → Option (List ℕ × List ℕ)
read_exact zero stream = some ([], stream)
read_exact (suc n) [] = none
read_exact (suc n) (b ∷ stream) = elim (read_exact n stream) [
  | none ↦ none
  | some (bytes, rest) ↦ some (b ∷ bytes, rest)
]

-- `u32::from_be_bytes`, on four bytes.
unfoldable pub from_be_bytes : List ℕ → ℕ
from_be_bytes (a ∷ b ∷ c ∷ d ∷ []) = a * 0x1000000 + b * 0x10000 + c * 0x100 + d
from_be_bytes _ = 0

-- The payload and the rest of the stream, or the error.
pub data ReadResult : Type 0 where
  frame : List ℕ → List ℕ → ReadResult
  no_frame : FrameError → ReadResult

unfoldable pub read_frame : List ℕ → ReadResult
unfolding read_exact from_be_bytes
read_frame stream = elim (read_exact 4 stream) [
  | none ↦ no_frame unexpected_eof
  | some (len_buf, rest) ↦
      let len = from_be_bytes len_buf in
      if ltb max_frame_size len then no_frame (frame_too_long len) else elim (read_exact len rest) [
        | none ↦ no_frame unexpected_eof
        | some (payload, after) ↦ frame payload after
      ]
]

-- The bytes of a frame.
abbrev pub frame_bytes : List ℕ → List ℕ
frame_bytes payload = to_be_bytes (length payload) ++ payload

pub read_exact-append : (xs ys : List ℕ) → read_exact (length xs) (xs ++ ys) ≡ some (xs, ys)
unfolding read_exact
read_exact-append [] ys = refl
read_exact-append (x ∷ xs) ys = rw (read_exact-append xs ys) refl

read_exact-short : (n : ℕ) (xs : List ℕ) → length xs < n → read_exact n xs ≡ none
unfolding read_exact
read_exact-short zero xs h = absurd (omega arith)
read_exact-short (suc n) [] h = refl
read_exact-short (suc n) (x ∷ xs) h = rw (read_exact-short n xs (omega arith)) refl

pub read_exact-some :
    (n : ℕ) (stream bytes rest : List ℕ)
    → read_exact n stream ≡ some (bytes, rest)
    → (stream ≡ bytes ++ rest) × (length bytes ≡ n)
unfolding read_exact
read_exact-some zero stream bytes rest h = (cc, ground arith)
read_exact-some (suc n) [] bytes rest h = cc
read_exact-some (suc n) (b ∷ stream) bytes rest h = elim (Option-cases (read_exact n stream)) [
  | inl e ↦ ground arith
  | inr ((bs, r), e) ↦
      let (split, len) = read_exact-some n stream bs r e in ground (arith, split, len)
]

pub from_be_bytes-to_be_bytes : (n : ℕ) → n < 2 ^ 32 → from_be_bytes (to_be_bytes n) ≡ n
unfolding from_be_bytes to_be_bytes
from_be_bytes-to_be_bytes n h = omega arith

length_header : (n : ℕ) → length (to_be_bytes n) ≡ 4
unfolding to_be_bytes
length_header n = refl

pub read_header :
    (n : ℕ) (rest : List ℕ) → read_exact 4 (to_be_bytes n ++ rest) ≡ some (to_be_bytes n, rest)
unfolding read_exact to_be_bytes
read_header n rest = refl

read_frame_step :
    (n : ℕ) (rest payload after : List ℕ)
    → n ≤ max_frame_size
    → read_exact n rest ≡ some (payload, after)
    → read_frame (to_be_bytes n ++ rest) ≡ frame payload after
unfolding read_frame
read_frame_step n rest payload after h e =
    let fits : ltb max_frame_size n ≡ false = ground arith in
    rw (read_header n rest, read_frame, from_be_bytes-to_be_bytes n (omega arith), fits, e) refl

length-take : (n : ℕ) (xs : List ℕ) → length (take n xs) ≡ min n (length xs)
length-take zero xs = omega arith
length-take (suc n) [] = omega arith
length-take (suc n) (x ∷ xs) = omega (arith, length-take n xs)

-- Reading gives back what was written: a payload within the size limit is written without an error
-- behind what stands on the stream, and its frame, whatever follows it, is read as that payload with
-- exactly the following bytes left.
pub read_frame-write_frame :
    (payload before after : List ℕ)
    → length payload ≤ max_frame_size
    → (write_frame before payload ≡ (before ++ frame_bytes payload, none))
      × (read_frame (frame_bytes payload ++ after) ≡ frame payload after)
unfolding write_frame
read_frame-write_frame payload before after h =
    let fits : ltb max_frame_size (length payload) ≡ false = ground arith in
    (
      rw fits (λ i. (append_assoc before (to_be_bytes (length payload)) payload i, none)),
      ap read_frame (append_assoc (to_be_bytes (length payload)) payload after)
          ∙ read_frame_step (length payload) (payload ++ after) payload after h
              (read_exact-append payload after),
    )

-- A frame of which the end has not arrived is never taken for a whole one: from any part of a frame
-- that is shorter than it, the reader reports the end of the stream.
read_frame_truncated :
    (payload : List ℕ) (k : ℕ)
    → length payload ≤ max_frame_size
    → k < length (frame_bytes payload)
    → read_frame (take k (frame_bytes payload)) ≡ no_frame unexpected_eof
unfolding read_frame to_be_bytes read_exact
read_frame_truncated payload zero h k = refl
read_frame_truncated payload (suc zero) h k = refl
read_frame_truncated payload (suc (suc zero)) h k = refl
read_frame_truncated payload (suc (suc (suc zero))) h k = refl
read_frame_truncated payload (suc (suc (suc (suc j)))) h k =
    let n = length payload in
    let fits : ltb max_frame_size n ≡ false = ground arith in
    let short : length (take j payload) < n = omega (arith, length-take j payload) in
    rw (from_be_bytes-to_be_bytes n (omega arith), fits, read_exact-short n (take j payload) short)
      refl

-- Whatever stands on the stream, a payload that is returned was there: the stream is a header of four
-- bytes that denotes the payload's length, the payload, and the rest; and it is within the limit.
pub read_frame_sound :
    (stream payload after : List ℕ)
    → read_frame stream ≡ frame payload after
    → (header : List ℕ) × (stream ≡ header ++ payload ++ after)
      × (length header ≡ 4)
      × (from_be_bytes header ≡ length payload)
      × (length payload ≤ max_frame_size)
unfolding read_frame
read_frame_sound stream payload after h = elim (Option-cases (read_exact 4 stream)) [
  | inl e ↦ ground arith
  | inr ((header, rest), e) ↦
      let (split, four) = read_exact-some 4 stream header rest e in
      let n = from_be_bytes header in
      elim (Bool-cases (ltb max_frame_size n)) [
        | inl long ↦ ground arith
        | inr fits ↦ elim (Option-cases (read_exact n rest)) [
          | inl e2 ↦ ground arith
          | inr ((p, r), e2) ↦
              let (split2, len) = read_exact-some n rest p r e2 in
              let same : frame p r ≡ frame payload after = ground arith in
              let p_same : p ≡ payload = cc in
              let r_same : r ≡ after = cc in
              (header, ground arith, four, ground arith, ground arith)
        ]
      ]
]
