-- ===== src/Transport/Ws/Laws.antt =====
-- The adapter as a byte stream: nothing is lost or reordered, and a flush is a frame boundary.
use mathlib.Core.List.{append_assoc}
use pulsemq_cli.Base.{
  ℕ, suc, ◌+◌, ◌-◌, ◌≤◌, ◌<◌, min, true, false, List, [], ◌∷◌, ◌++◌, Bytes, length, take, drop, ltb,
  ◌≡◌, ◌≢◌, refl, sym, ap, ◌∙◌, arith, take-append-drop, length-take-le, drop-add, drop-all,
  Bool-cases, lt→ltb, ltb→lt, length-take, length-drop, inl, inr,
}
use pulsemq_cli.Transport.Ws.{
  Poll, binary, close_frame, ended, control, error, not_ready, WsByteStream, ReadResult, ready,
  read_error, pending, read_loop, poll_read, flushed, poll_flush,
}

-- The bytes of the binary messages, in order.
abbrev pub payloads : List Poll → Bytes
payloads [] = []
payloads (binary bytes ∷ ms) = bytes ++ payloads ms
payloads (close_frame ∷ ms) = payloads ms
payloads (ended ∷ ms) = payloads ms
payloads (control ∷ ms) = payloads ms
payloads (error e ∷ ms) = payloads ms
payloads (not_ready ∷ ms) = payloads ms

-- What is still to be read: the rest of the buffer, then the messages.
abbrev pub unread : WsByteStream → Bytes
unread s = drop s.read_pos s.read_buf ++ payloads s.messages

abbrev pub delivered : ReadResult → Bytes
delivered (ready bytes) = bytes
delivered (read_error e) = []
delivered pending = []

-- A copy of at most `room` bytes from the buffer splits what is unread.
copy_split :
    (room pos : ℕ) (buf rest : Bytes)
    → take (min (length buf - pos) room) (drop pos buf)
        ++ (drop (pos + min (length buf - pos) room) buf ++ rest)
      ≡ drop pos buf ++ rest
copy_split room pos buf rest =
    let n = min (length buf - pos) room in
    sym (append_assoc (take n (drop pos buf)) (drop (pos + n) buf) rest)
    ∙ ap (λ (t : Bytes). (take n (drop pos buf) ++ t) ++ rest) (drop-add pos n buf)
    ∙ ap (λ (t : Bytes). t ++ rest) (take-append-drop n (drop pos buf))

read_loop_conserves :
    (room : ℕ) (ms : List Poll) (s : WsByteStream)
    → delivered (read_loop room ms s).0 ++ unread (read_loop room ms s).1 ≡ payloads ms
unfolding read_loop
read_loop_conserves room [] s = refl
read_loop_conserves room (binary [] ∷ ms) s = read_loop_conserves room ms _
read_loop_conserves room (binary (b ∷ bytes) ∷ ms) s =
    rw (lt→ltb 0 (suc (length bytes)) (omega arith)) (copy_split room 0 (b ∷ bytes) (payloads ms))
read_loop_conserves room (control ∷ ms) s = read_loop_conserves room ms s
read_loop_conserves room (close_frame ∷ ms) s = refl
read_loop_conserves room (ended ∷ ms) s = refl
read_loop_conserves room (error e ∷ ms) s = refl
read_loop_conserves room (not_ready ∷ ms) s = refl

read_loop-room :
    (room : ℕ) (ms : List Poll) (s : WsByteStream)
    → length (delivered (read_loop room ms s).0) ≤ room
unfolding read_loop
read_loop-room room [] s = omega arith
read_loop-room room (binary bytes ∷ ms) s = ground (
  arith,
  length-take-le (min (length bytes - 0) room) bytes,
  read_loop-room room ms (record s { read_buf = bytes; read_pos = 0 }),
)
read_loop-room room (control ∷ ms) s = read_loop-room room ms s
read_loop-room room (close_frame ∷ ms) s = omega arith
read_loop-room room (ended ∷ ms) s = omega arith
read_loop-room room (error e ∷ ms) s = omega arith
read_loop-room room (not_ready ∷ ms) s = omega arith

-- A WebSocket read hands out the next bytes of the messages in order and without loss, and no more
-- than there is room for.
pub poll_read_conserves :
    (room : ℕ) (s : WsByteStream)
    → let (r, s') = poll_read room s in
      (delivered r ++ unread s' ≡ unread s) × (length (delivered r) ≤ room)
unfolding poll_read
poll_read_conserves room s = elim (Bool-cases (ltb s.read_pos (length s.read_buf))) [
  | inl e ↦ rw e (
    copy_split room s.read_pos s.read_buf (payloads s.messages),
    omega (
      arith,
      length-take-le (min (length s.read_buf - s.read_pos) room) (drop s.read_pos s.read_buf),
    ),
  )
  | inr e ↦
      rw (e, drop-all s.read_pos s.read_buf (ground arith))
        (read_loop_conserves room s.messages s, read_loop-room room s.messages s)
]

-- The messages up to a close frame or the end of the stream hold no bytes.
abbrev pub AtEnd : List Poll → Type 0
AtEnd [] = ⊥
AtEnd (binary bytes ∷ ms) = (bytes ≡ []) × AtEnd ms
AtEnd (close_frame ∷ ms) = Unit
AtEnd (ended ∷ ms) = Unit
AtEnd (control ∷ ms) = AtEnd ms
AtEnd (error e ∷ ms) = ⊥
AtEnd (not_ready ∷ ms) = ⊥

-- A copy to a caller with room delivers something.
copy_delivers :
    (room pos : ℕ) (buf : Bytes)
    → 0 < room
    → pos < length buf
    → ready (take (min (length buf - pos) room) (drop pos buf)) ≢ ready []
copy_delivers room pos buf h k e = omega (
  arith,
  ap (λ (r : ReadResult). length (delivered r)) e,
  length-take (min (length buf - pos) room) (drop pos buf),
  length-drop pos buf,
)

read_loop-AtEnd :
    (room : ℕ) (ms : List Poll) (s : WsByteStream)
    → 0 < room
    → (read_loop room ms s).0 ≡ ready []
    → AtEnd ms
unfolding read_loop
read_loop-AtEnd room [] s h e = cc
read_loop-AtEnd room (binary [] ∷ ms) s h e = (refl, read_loop-AtEnd room ms _ h e)
read_loop-AtEnd room (binary (b ∷ bytes) ∷ ms) s h e = absurd (
    copy_delivers room 0 (b ∷ bytes) h (omega arith)
      (rw (lt→ltb 0 (suc (length bytes)) (omega arith)) at e))
read_loop-AtEnd room (control ∷ ms) s h e = read_loop-AtEnd room ms s h e
read_loop-AtEnd room (close_frame ∷ ms) s h e = tt
read_loop-AtEnd room (ended ∷ ms) s h e = tt
read_loop-AtEnd room (error x ∷ ms) s h e = cc
read_loop-AtEnd room (not_ready ∷ ms) s h e = cc

-- A caller that has room is told of the end of the stream only when the buffer is used up and the
-- peer closed: an empty message is no end.
poll_read_eof :
    (room : ℕ) (s : WsByteStream)
    → 0 < room
    → (poll_read room s).0 ≡ ready []
    → (length s.read_buf ≤ s.read_pos) × AtEnd s.messages
unfolding poll_read
poll_read_eof room s h e = elim (Bool-cases (ltb s.read_pos (length s.read_buf))) [
  | inl t ↦
      absurd (copy_delivers room s.read_pos s.read_buf h (ltb→lt _ _ t) (rw (t, poll_read) at e))
  | inr t ↦ (ground arith, read_loop-AtEnd room s.messages s h (rw (t, poll_read) at e))
]

-- A flush that succeeds sends what had been written as one binary frame, or none if nothing was
-- written; if a frame was still being sent, it only ends that, and what was written since stays in
-- the buffer.
pub poll_flush_frame :
    (s s' : WsByteStream)
    → poll_flush s ≡ (flushed, s')
    → (s'.sending ≡ false)
      × (s.sending ≡ true → (s'.frames ≡ s.frames) × (s'.write_buf ≡ s.write_buf))
      × (s.sending ≡ false → s.write_buf ≡ [] → (s'.frames ≡ s.frames) × (s'.write_buf ≡ []))
      × (s.sending ≡ false
          → s.write_buf ≢ []
          → (s'.frames ≡ s.frames ++ (s.write_buf ∷ [])) × (s'.write_buf ≡ []))
unfolding poll_flush
poll_flush_frame s s' h = ground arith
