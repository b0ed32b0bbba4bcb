-- ===== src/Transport/Ws.antt =====
-- The WebSocket adapter (src/transport/ws.rs): a byte stream over discrete messages.
pub mod Laws
pub mod Upgrade
use pulsemq_cli.Base.{
  ℕ, zero, suc, ◌+◌, ◌-◌, min, Bool, true, false, Option, none, some, List, [], ◌∷◌, ◌++◌, Bytes,
  length, take, drop, ltb, if◌then◌else◌,
}

-- What polling the inner stream for the next message gives. `not_ready` is `Poll::Pending`; a message
-- that is neither binary nor a close frame is `control`.
pub data Poll : Type 0 where
  binary : Bytes → Poll
  close_frame : Poll
  ended : Poll
  control : Poll
  error : Bytes → Poll
  not_ready : Poll

-- What polling the inner sink gives.
pub data SinkPoll : Type 0 where
  sink_ready : SinkPoll
  sink_error : Bytes → SinkPoll
  sink_pending : SinkPoll

-- `inner` as scripts of answers, and the binary frames handed to it so far, oldest first.
pub record WsByteStream : Type 0 where
  pub messages : List Poll
  pub readies : List SinkPoll
  pub flushes : List SinkPoll
  pub starts : List (Option Bytes)  -- `start_send`: an error, or none
  pub frames : List Bytes
  pub read_buf : Bytes
  pub read_pos : ℕ
  pub write_buf : Bytes
  pub sending : Bool

-- `Poll<io::Result<()>>`, with the bytes put into the caller's buffer.
pub data ReadResult : Type 0 where
  ready : Bytes → ReadResult
  read_error : Bytes → ReadResult
  pending : ReadResult

-- The bytes that one copy takes from the buffer: all that is left, or as many as the caller has room
-- for.
abbrev chunk : ℕ → WsByteStream → Bytes
chunk room s = take (min (length s.read_buf - s.read_pos) room) (drop s.read_pos s.read_buf)

-- `put_slice` and the advance of `read_pos`.
abbrev copy : ℕ → WsByteStream → ReadResult × WsByteStream
copy room s = (
  ready (chunk room s),
  record s { read_pos = s.read_pos + min (length s.read_buf - s.read_pos) room },
)

-- The loop of `poll_read`, over the messages that `poll_next` delivers.
read_loop : ℕ → List Poll → WsByteStream → ReadResult × WsByteStream
read_loop room [] s = (pending, record s { messages = []; read_buf = []; read_pos = 0 })
read_loop room (binary bytes ∷ ms) s =
    let next = read_loop room ms (record s { read_buf = bytes; read_pos = 0 }) in
    let filled : WsByteStream = record s { messages = ms; read_buf = bytes; read_pos = 0 } in
    if ltb 0 (length bytes) then copy room filled else next
read_loop room (close_frame ∷ ms) s =
    (ready [], record s { messages = ms; read_buf = []; read_pos = 0 })
read_loop room (ended ∷ ms) s = (ready [], record s { messages = ms; read_buf = []; read_pos = 0 })
read_loop room (control ∷ ms) s = read_loop room ms s
read_loop room (error e ∷ ms) s =
    (read_error e, record s { messages = ms; read_buf = []; read_pos = 0 })
read_loop room (not_ready ∷ ms) s =
    (pending, record s { messages = ms; read_buf = []; read_pos = 0 })

-- `room` is `buf.remaining()`.
unfoldable pub poll_read : ℕ → WsByteStream → ReadResult × WsByteStream
unfolding read_loop
poll_read room s =
    if ltb s.read_pos (length s.read_buf) then copy room s else read_loop room s.messages s

-- Always `Ready(Ok(buf.len()))`.
pub poll_write : Bytes → WsByteStream → ℕ × WsByteStream
poll_write buf s = (length buf, record s { write_buf = s.write_buf ++ buf })

pub data FlushResult : Type 0 where
  flushed : FlushResult
  flush_error : Bytes → FlushResult
  flush_pending : FlushResult

abbrev pop : {A : Type 0} → A → List A → A × List A
pop d [] = (d, [])
pop d (a ∷ rest) = (a, rest)

-- The arm for `sending`, and the flush of an empty buffer: one `poll_flush` of the sink.
abbrev on_flush : Bool → SinkPoll → WsByteStream → FlushResult × WsByteStream
on_flush sending sink_ready s = (flushed, record s { sending = false })
on_flush sending (sink_error e) s = (flush_error e, s)
on_flush sending sink_pending s = (flush_pending, s)

drive_flush : WsByteStream → FlushResult × WsByteStream
drive_flush s =
    let (answer, rest) = pop sink_pending s.flushes in
    on_flush s.sending answer (record s { flushes = rest })

-- `start_send`: the buffer has been taken, whatever the answer.
abbrev on_start : Option Bytes → Bytes → WsByteStream → FlushResult × WsByteStream
on_start (some e) bytes s = (flush_error e, s)
on_start none bytes s = drive_flush (record s { sending = true; frames = s.frames ++ (bytes ∷ []) })

start_frame : WsByteStream → FlushResult × WsByteStream
unfolding drive_flush
start_frame s =
    let (answer, rest) = pop none s.starts in
    on_start answer s.write_buf (record s { starts = rest; write_buf = [] })

abbrev on_ready : SinkPoll → WsByteStream → FlushResult × WsByteStream
on_ready sink_ready s = start_frame s
on_ready (sink_error e) s = (flush_error e, s)
on_ready sink_pending s = (flush_pending, s)

-- The loop goes round at most once: after `start_send` it is in the arm for `sending`.
unfoldable pub poll_flush : WsByteStream → FlushResult × WsByteStream
unfolding start_frame drive_flush
poll_flush s =
    let (answer, rest) = pop sink_pending s.readies in
    if s.sending
    then drive_flush s
    else if ltb 0 (length s.write_buf)
    then on_ready answer (record s { readies = rest })
    else drive_flush s
