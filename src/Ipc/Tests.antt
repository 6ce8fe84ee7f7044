-- ===== src/Ipc/Tests.antt =====
-- Runs of the definitions on small conversations, and the properties at these inputs.
use swirl.Prelude.{
  ℕ, ◌+◌, ◌-◌, ◌^◌, ◌≡◌, refl, arith, not, ◌==◌, Bool, true, false, none, some, List, [], ◌∷◌, ◌++◌,
  length, take, drop, if◌then◌else◌,
}
use swirl.Prelude.Text.{codes, text_eq}
use swirl.Ipc.Message.{Bytes, Message, AreMessages, encode, encode_all}
use swirl.Ipc.Client.{IpcClient, new_client, ipc_send_reply, took}
use swirl.Ipc.Commands.{Compositor, returned, disconnected, is_too_small, subscribe_loop}
use swirl.Ipc.Session.{Session, new_session, Event, arrived, readable, writable, run_session}
use swirl.Ipc.Session.Streams.{replies_of, context_of, replies_all}
use swirl.Ipc.Session.Conversation.{
  Serves, readable_times, run_session-Serves, run_session-answers_all,
}
use swirl.Ipc.Response.{
  Piece, piece, ipc_recv_response, response, response_aborted, response_unfinished,
  ipc_recv_response-encode,
}
use swirl.Ipc.Events.{ipc_event, deliver_all, ipc_event-deliver_all}

-- A compositor that knows one array, and whose state is the number of its answers; it answers with
-- the next digit.
abbrev compositor : Compositor ℕ
compositor = record {
  array_of_names =
      λ text. if text_eq text (codes "[\"tick\"]") then some (codes "tick" ∷ []) else none;
  tick_event = λ text. codes "{}";
  answer = λ answers events type text.
      (answers + 1, record { kind = type; payload = (48 + answers) ∷ [] } ∷ []);
}

-- A subscription to ticks, a tick, and a request without a payload.
abbrev requests : List Message
requests =
    record { kind = 2; payload = codes "[\"tick\"]" }
    ∷ record { kind = 10; payload = codes "x" }
    ∷ record { kind = 7; payload = [] }
    ∷ []

-- The pieces in which they come: a part of the first header, the rest of it with half of the payload,
-- and all else but for three bytes.
abbrev stream : Bytes
stream = encode_all requests

abbrev history : List Event
history =
    arrived (take 10 stream)
    ∷ readable
    ∷ arrived (take 8 (drop 10 stream))
    ∷ readable
    ∷ arrived (take 30 (drop 18 stream))
    ∷ readable
    ∷ writable (took 5)
    ∷ readable
    ∷ []

abbrev history_start : List Event
history_start = readable ∷ writable (took 5) ∷ []

requests-AreMessages : AreMessages requests
requests-AreMessages = (
  record { fits = omega arith; kind_fits = omega arith },
  (
    record { fits = omega arith; kind_fits = omega arith },
    (record { fits = omega arith; kind_fits = omega arith }, tt),
  ),
)

stream_test : length (encode_all requests) ≡ 51
stream_test = refl

replies_test : length (encode_all (replies_all compositor 3 requests)) ≡ 137
unfolding replies_of context_of
replies_test = refl

subscribe_test : subscribe_loop (codes "workspace" ∷ codes "tick" ∷ []) 0 false ≡ (
  129,
  record { kind = 2; payload = codes "{\"success\": true}" }
      ∷ record { kind = 2147483655; payload = codes "{\"first\": true, \"payload\": \"\"}" }
      ∷ [],
)
unfolding subscribe_loop
subscribe_test = refl

unknown_event_test :
    subscribe_loop (codes "mode" ∷ codes "modes" ∷ []) 0 false
    ≡ (4, record { kind = 2; payload = codes "{\"success\": false}" } ∷ [])
unfolding subscribe_loop
unknown_event_test = refl

bad_magic_test :
    run_session compositor (arrived (codes "i3-ipd12345678") ∷ readable ∷ []) (new_session 3)
    ≡ disconnected
unfolding run_session
bad_magic_test = refl

-- The second answer is that of the state after the first.
state_test :
    replies_all compositor 3
      (record { kind = 7; payload = [] } ∷ record { kind = 0; payload = [] } ∷ [])
    ≡ record { kind = 7; payload = codes "3" } ∷ record { kind = 0; payload = codes "4" } ∷ []
unfolding replies_of context_of
state_test = refl

too_small_test : (is_too_small (2 ^ 32 - 1) ≡ true) × (is_too_small (2 ^ 32 - 2) ≡ false)
too_small_test = (refl, refl)

run_session-Serves_example :
    (s : Session ℕ) × (run_session compositor history (new_session 3) ≡ returned s)
    × Serves compositor 3 requests s
run_session-Serves_example =
    run_session-Serves compositor 3 requests history (drop 48 stream) requests-AreMessages
      (omega (arith, stream_test)) (omega (arith, replies_test)) tt refl

run_session-answers_all_example :
    (s : Session ℕ) × (run_session compositor
        ((arrived stream ∷ history_start) ++ (readable_times 3 ++ writable (took 200) ∷ []))
        (new_session 3)
      ≡ returned s)
    × (s.handled ≡ requests)
    × (s.sent ≡ encode_all (replies_all compositor 3 requests))
    × (s.client.write_buffer ≡ [])
run_session-answers_all_example =
    run_session-answers_all compositor 3 requests (arrived stream ∷ history_start) 200
      requests-AreMessages (omega (arith, stream_test)) (omega (arith, replies_test)) tt refl
      (omega (arith, replies_test))

-- A message of 5 bytes in pieces of 1, 9 and more bytes, with a byte of the next one.
abbrev reply : Message
reply = record { kind = 7; payload = codes "hello" }

ipc_recv_response-encode_example :
    (pieces' : List Piece) × (ipc_recv_response true (record {
      bytes = encode reply ++ 105 ∷ [];
      pieces = piece 0 ∷ piece 8 ∷ piece 99 ∷ piece 1 ∷ [];
    })
      ≡ response reply (record { bytes = 105 ∷ []; pieces = pieces' }))
ipc_recv_response-encode_example =
    ipc_recv_response-encode reply (105 ∷ []) (piece 0 ∷ piece 8 ∷ piece 99 ∷ piece 1 ∷ [])
      (omega arith) (omega arith) tt

closed_header_test :
    ipc_recv_response true (record { bytes = codes "i3-ipc"; pieces = [] }) ≡ response_aborted
unfolding ipc_recv_response
closed_header_test = refl

closed_payload_test :
    ipc_recv_response true (record { bytes = take 16 (encode reply); pieces = [] })
    ≡ response_unfinished
unfolding ipc_recv_response
closed_payload_test = refl

-- Three clients: the first is subscribed to other events, the second has no memory left, the third
-- is sent the tick.
abbrev clients : List IpcClient
clients =
    record new_client { subscribed_events = 1 }
    ∷ record new_client { subscribed_events = 128; write_buffer_size = 64 }
    ∷ record new_client { subscribed_events = 129 }
    ∷ []

abbrev memory_for : IpcClient → Bool
memory_for client = not (client.write_buffer_size == 64)

ipc_event-deliver_all_example :
    ipc_event memory_for 2147483655 (codes "{}") clients
    ≡ deliver_all memory_for 2147483655 (codes "{}") clients
ipc_event-deliver_all_example = ipc_event-deliver_all memory_for 2147483655 (codes "{}") clients

left_test : length (ipc_event memory_for 2147483655 (codes "{}") clients) ≡ 2
unfolding ipc_event ipc_send_reply
left_test = refl
