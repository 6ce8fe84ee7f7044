-- ===== src/Ipc/Session.antt =====
-- A client of sway/ipc-server.c with its socket: ipc_client_handle_readable, and histories of what
-- arrives and of the calls of the event loop. Allocations succeed.
pub mod Streams
pub mod Steps
pub mod Readable
pub mod Conversation
use swirl.Prelude.{
  ℕ, ◌+◌, ◌-◌, ◌%◌, ◌^◌, ◌||◌, ◌==◌, ltb, leb, Bool, true, false, not, Option, none, some, List, [],
  ◌∷◌, ◌++◌, if◌then◌else◌, take, drop, length,
}
use swirl.Prelude.Text.{text_eq}
use swirl.Ipc.Message.{Bytes, Message, ipc_magic, ipc_header_size, uint32_at}
use swirl.Ipc.Client.{IpcClient, new_client, Written, ipc_client_handle_writable}
use swirl.Ipc.Commands.{
  Compositor, Call, returned, disconnected, overrun, ipc_client_handle_command,
}

-- A connected client, the bytes that its socket has for the server, those that the server has written
-- to it, the commands that have been handled, and the state of the rest of the compositor.
pub record Session (W : Type 0) : Type 0 where
  pub client : IpcClient
  pub available : Bytes
  pub sent : Bytes
  pub handled : List Message
  pub world : W

abbrev pub new_session : {W : Type 0} → W → Session W
new_session state = record {
  client = new_client;
  available = [];
  sent = [];
  handled = [];
  world = state;
}

-- The state of the compositor with the events that the client is subscribed to.
abbrev pub context : {W : Type 0} → Session W → W × ℕ
context s = (s.world, s.client.subscribed_events)

-- The 32 bits of the `int` that FIONREAD stores.
abbrev pub read_available : {W : Type 0} → Session W → ℕ
read_available s = length s.available % 2 ^ 32

-- Whether 32 bits are a negative `int`.
abbrev pub is_negative : ℕ → Bool
is_negative n = leb (2 ^ 31) n

-- A command whose payload is there; the pending length is reset first.
unfoldable pub handle_pending : {W : Type 0} → Compositor W → ℕ → ℕ → Session W → Call (Session W)
unfolding ipc_client_handle_command
handle_pending w payload_length payload_type s =
    let text = take payload_length s.available in
    let reset = record (s.client) { pending_length = 0; pending_type = payload_type } in
    let call =
      ipc_client_handle_command true w reset payload_length payload_type s.available s.world in
    elim call [
      | disconnected ↦ disconnected
      | overrun ↦ overrun
      | returned (client, rest, world) ↦ returned (record s {
        client = client;
        available = rest;
        world = world;
        handled = s.handled ++ record { kind = payload_type; payload = text } ∷ [];
      })
    ]

-- The header of a message has been received, of the number of bytes `available` found there.
unfoldable pub handle_header :
    {W : Type 0} → Compositor W → Bytes → ℕ → Session W → Call (Session W)
unfolding handle_pending
handle_header w buf available s =
    let payload_length = uint32_at (drop 6 buf) in
    let payload_type = uint32_at (drop 10 buf) in
    let pending = record s {
      client = record (s.client) { pending_length = payload_length; pending_type = payload_type };
    } in
    if leb payload_length (available - ipc_header_size)
    then handle_pending w payload_length payload_type pending
    else returned pending

-- `ipc_client_handle_readable` of a socket without error or hang-up.
unfoldable pub ipc_client_handle_readable :
    {W : Type 0} → Compositor W → Session W → Call (Session W)
unfolding handle_pending handle_header
ipc_client_handle_readable w s =
    let available = read_available s in
    let pending_length = s.client.pending_length in
    if ltb 0 pending_length
    then (if leb pending_length available
        then handle_pending w pending_length s.client.pending_type s
        else returned s)
    else if is_negative available || ltb available ipc_header_size
    then returned s
    else (let buf = take ipc_header_size s.available in
        let received = record s { available = drop ipc_header_size s.available } in
        if text_eq (take 6 buf) ipc_magic
        then handle_header w buf available received
        else disconnected)

-- Bytes arrive at the socket, or the event loop finds it readable, or writable, where `write`
-- returns what is given.
pub data Event : Type 0 where
  arrived : Bytes → Event
  readable : Event
  writable : Written → Event
  hang_up : Event

unfoldable pub handle_event : {W : Type 0} → Compositor W → Event → Session W → Call (Session W)
unfolding ipc_client_handle_readable ipc_client_handle_writable
handle_event w (arrived bytes) s = returned (record s { available = s.available ++ bytes })
handle_event w readable s = ipc_client_handle_readable w s
handle_event w (writable written) s = elim (ipc_client_handle_writable s.client written) [
  | none ↦ disconnected
  | some (client, bytes) ↦ returned (record s { client = client; sent = s.sent ++ bytes })
]
handle_event w hang_up s = disconnected

-- The session after a history, unless the client was disconnected or a call went wrong.
unfoldable pub run_session : {W : Type 0} → Compositor W → List Event → Session W → Call (Session W)
unfolding handle_event
run_session w [] s = returned s
run_session w (e ∷ es) s = elim (handle_event w e s) [
  | disconnected ↦ disconnected
  | overrun ↦ overrun
  | returned s' ↦ run_session w es s'
]
