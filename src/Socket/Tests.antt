-- ===== src/Socket/Tests.antt =====
-- The theorems on frames, at concrete streams.
mod Requests
mod Uuids
mod Streams
use forgetty.Base.{ℕ, ◌≤◌, ◌≡◌, refl, List, [], ◌∷◌, ◌++◌, none, arith, length, take}
use forgetty.Socket.Framing.{
  max_frame_size, to_be_bytes, from_be_bytes, write_frame, read_frame, frame, no_frame,
  unexpected_eof, frame_bytes, read_frame-write_frame, read_frame_sound,
}

read_frame-write_frame_example :
    (write_frame (9 ∷ []) (1 ∷ 2 ∷ []) ≡ ((9 ∷ []) ++ frame_bytes (1 ∷ 2 ∷ []), none))
    × (read_frame (frame_bytes (1 ∷ 2 ∷ []) ++ 5 ∷ []) ≡ frame (1 ∷ 2 ∷ []) (5 ∷ []))
read_frame-write_frame_example = read_frame-write_frame (1 ∷ 2 ∷ []) (9 ∷ []) (5 ∷ []) (omega arith)

two_bytes : read_frame (0 ∷ 0 ∷ 0 ∷ 2 ∷ 1 ∷ 2 ∷ 5 ∷ []) ≡ frame (1 ∷ 2 ∷ []) (5 ∷ [])
unfolding read_frame
two_bytes = refl

read_frame_sound_example :
    (header : List ℕ) × ((0 ∷ 0 ∷ 0 ∷ 2 ∷ 1 ∷ 2 ∷ 5 ∷ []) ≡ header ++ (1 ∷ 2 ∷ []) ++ 5 ∷ [])
    × (length header ≡ 4)
    × (from_be_bytes header ≡ 2)
    × (2 ≤ max_frame_size)
read_frame_sound_example =
    read_frame_sound (0 ∷ 0 ∷ 0 ∷ 2 ∷ 1 ∷ 2 ∷ 5 ∷ []) (1 ∷ 2 ∷ []) (5 ∷ []) two_bytes
