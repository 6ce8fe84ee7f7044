-- ===== src/Ipc/Client.antt =====
-- A client of the IPC server (`struct ipc_client` of sway/ipc-server.c) with ipc_send_reply and
-- ipc_client_handle_writable. `none` is a client that has been disconnected and freed. The write
-- buffer is the list of its bytes in use, whose number is `write_buffer_len`.
pub mod Sizes
use Prim.Native.Nat.{bit_or, bit_and}
use swirl.Prelude.{
  ℕ, zero, suc, ◌+◌, ◌*◌, ◌%◌, ◌^◌, ◌==◌, ltb, leb, Bool, true, false, not, Option, none, some,
  List, [], ◌∷◌, ◌++◌, length, take, drop, if◌then◌else◌,
}
use swirl.Ipc.Message.{Bytes, header, ipc_header_size}

-- The sockets and event sources are left out, but for the fact that the server waits until it can
-- write.
pub record IpcClient : Type 0 where
  pub pending_length : ℕ
  pub pending_type : ℕ
  pub subscribed_events : ℕ
  pub write_buffer : Bytes
  pub write_buffer_size : ℕ
  pub awaits_writable : Bool

-- The client that `ipc_handle_connection` makes.
abbrev pub new_client : IpcClient
new_client = record {
  pending_length = 0;
  pending_type = 0;
  subscribed_events = 0;
  write_buffer = [];
  write_buffer_size = 128;
  awaits_writable = false;
}

-- The loop of `ipc_send_reply`, in a number of rounds: the size doubles until it is greater than what
-- is needed.
unfoldable pub grow : ℕ → ℕ → ℕ → ℕ
grow zero needed size = size
grow (suc rounds) needed size = elim (leb size needed) [
  | false ↦ size
  | true ↦ grow rounds needed (size * 2 % 2 ^ 64)
]

-- `ipc_send_reply`; `has_memory` is whether `realloc` succeeds.
unfoldable pub ipc_send_reply : Bool → IpcClient → ℕ → Bytes → Option IpcClient
unfolding grow
ipc_send_reply has_memory client payload_type text =
    let payload_length = length text % 2 ^ 32 in
    let needed = length client.write_buffer + ipc_header_size + payload_length in
    let size = grow (suc needed) needed client.write_buffer_size in
    if ltb 4000000 size
    then none
    else if not has_memory
    then none
    else some (record client {
      write_buffer_size = size;
      write_buffer =
          client.write_buffer ++ (header payload_length payload_type ++ take payload_length text);
      awaits_writable = true;
    })

-- What `write` returns: how many bytes it took at most, or that it would block, or another error.
pub data Written : Type 0 where
  took : ℕ → Written
  would_block failed : Written

-- `ipc_client_handle_writable` of a socket without error or hang-up: the client, and the bytes that
-- have gone to the socket.
unfoldable pub ipc_client_handle_writable : IpcClient → Written → Option (IpcClient × Bytes)
ipc_client_handle_writable client would_block = some (client, [])
ipc_client_handle_writable client failed =
    if length client.write_buffer == 0 then some (client, []) else none
ipc_client_handle_writable client (took n) =
    let rest = drop n client.write_buffer in
    if length client.write_buffer == 0
    then some (client, [])
    else some (
      record client {
        write_buffer = rest;
        awaits_writable = if length rest == 0 then false else client.awaits_writable;
      },
      take n client.write_buffer,
    )

-- `event_mask(ev)`
abbrev pub event_mask : ℕ → ℕ
event_mask ev = 2 ^ (ev % 128)
