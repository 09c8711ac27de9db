-- ===== src/Socket/Stream/Client.antt =====
-- crates/forgetty-gtk/src/daemon_client.rs: how a window reads the output of a pane, behind the
-- acknowledgement.
use forgetty.Base.{
  ℕ, zero, suc, ◌+◌, ◌<◌, ◌≡◌, ◌⊎◌, refl, ap, ◌∙◌, List, [], ◌∷◌, Option-cases, Bool-cases, inl,
  inr, none, some, length, length-append, ltb, ◌==◌, if◌then◌else◌, arith,
}
use forgetty.Socket.Framing.{max_frame_size, read_exact, from_be_bytes, read_exact-some}

-- Why the loop ends. The window's end of the channel to it stays open.
pub data End : Type 0 where
  eof out_of_fuel : End
  too_long : ℕ → End

-- One round: the end, an empty frame, or the payload of a frame; with the rest of the stream.
pub data Round : Type 0 where
  stops : End → Round
  skips : List ℕ → Round
  hands_on : List ℕ → List ℕ → Round

unfoldable pub read_round : List ℕ → Round
read_round stream = elim (read_exact 4 stream) [
  | none ↦ stops eof
  | some (len_buf, rest) ↦
      let len = from_be_bytes len_buf in
      if ltb max_frame_size len
      then stops (too_long len)
      else if len == 0
      then skips rest
      else elim (read_exact len rest) [
        | none ↦ stops eof
        | some (payload, after) ↦ hands_on payload after
      ]
]

-- The loop: the messages that the window is handed, and the end.
unfoldable pub read_rounds : ℕ → List ℕ → List (List ℕ) × End
unfolding read_round
read_rounds zero stream = ([], out_of_fuel)
read_rounds (suc fuel) stream = elim (read_round stream) [
  | stops end ↦ ([], end)
  | skips rest ↦ read_rounds fuel rest
  | hands_on payload after ↦ let more = read_rounds fuel after in (payload ∷ more.0, more.1)
]

-- Each round takes a header off the stream, so that it has more bytes than rounds.
unfoldable pub subscribe_output_inner : List ℕ → List (List ℕ) × End
unfolding read_rounds
subscribe_output_inner stream = read_rounds (suc (length stream)) stream

read_exact-length :
    (n : ℕ) (stream bytes rest : List ℕ)
    → read_exact n stream ≡ some (bytes, rest)
    → length stream ≡ n + length rest
read_exact-length n stream bytes rest e =
    let (split, len) = read_exact-some n stream bytes rest e in
    ap length split ∙ omega (arith, length-append bytes rest)

-- The loop is over at the end of the stream, or at a frame that is too long.
abbrev pub IsOver : End → Type 0
IsOver end = (end ≡ eof) ⊎ ((n : ℕ) × (end ≡ too_long n) × (max_frame_size < n))

-- A round that does not end the loop leaves a shorter stream.
abbrev IsShorter : ℕ → Round → Type 0
IsShorter n (stops end) = IsOver end
IsShorter n (skips rest) = length rest < n
IsShorter n (hands_on payload after) = length after < n

read_round-IsShorter : (stream : List ℕ) → IsShorter (length stream) (read_round stream)
unfolding read_round
read_round-IsShorter stream = elim (Option-cases (read_exact 4 stream)) [
  | inl short ↦ rw (short, read_round) (inl refl)
  | inr ((header, rest), e) ↦
      let four = read_exact-length 4 stream header rest e in
      let n = from_be_bytes header in
      elim (Bool-cases (ltb max_frame_size n)) [
        | inl long ↦ rw (e, read_round, long) (inr (n, refl, ground arith))
        | inr fits ↦ elim (Bool-cases (n == 0)) [
          | inl nothing ↦ rw (e, read_round, fits, nothing) (omega arith)
          | inr some_bytes ↦ elim (Option-cases (read_exact n rest)) [
            | inl short ↦ rw (e, read_round, fits, some_bytes, short) (inl refl)
            | inr ((payload, after), e2) ↦
                let len = read_exact-length n rest payload after e2 in
                rw (e, read_round, fits, some_bytes, e2) (omega arith)
          ]
        ]
      ]
]

Round-cases :
    (r : Round)
    → ((end : End) × (r ≡ stops end))
      ⊎ (((rest : List ℕ) × (r ≡ skips rest))
          ⊎ ((payload : List ℕ) × (after : List ℕ) × (r ≡ hands_on payload after)))
Round-cases (stops end) = inl (end, refl)
Round-cases (skips rest) = inr (inl (rest, refl))
Round-cases (hands_on payload after) = inr (inr (payload, after, refl))

read_rounds-IsOver :
    (fuel : ℕ) (stream : List ℕ) → length stream < fuel → IsOver (read_rounds fuel stream).1
unfolding read_rounds
read_rounds-IsOver zero stream h = absurd (omega arith)
read_rounds-IsOver (suc fuel) stream h =
    let shorter = read_round-IsShorter stream in
    elim (Round-cases (read_round stream)) [
      | inl (end, e) ↦ rw (e, read_rounds) (rw e at shorter)
      | inr (inl (rest, e)) ↦
          let less : length rest < length stream = rw e at shorter in
          rw (e, read_rounds) (read_rounds-IsOver fuel rest (omega arith))
      | inr (inr (payload, after, e)) ↦
          let less : length after < length stream = rw e at shorter in
          rw (e, read_rounds) (read_rounds-IsOver fuel after (omega arith))
    ]

-- Whatever bytes a daemon sends before it closes the stream, the window's loop comes to an end: at the
-- end of the stream, or at a frame that is too long.
pub subscribe_output_inner-IsOver : (stream : List ℕ) → IsOver (subscribe_output_inner stream).1
unfolding subscribe_output_inner
subscribe_output_inner-IsOver stream = read_rounds-IsOver (suc (length stream)) stream (omega arith)
