-- ===== src/Ipc/Commands.antt =====
-- ipc_client_handle_command of sway/ipc-server.c. What the JSON library reads from a request, and the
-- JSON text that answers a command other than a subscription, are parameters.
use Prim.Native.Nat.{bit_or, bit_and}
use swirl.Prelude.{
  ℕ, ◌+◌, ◌%◌, ◌^◌, leb, ◌==◌, Bool, false, not, ◌||◌, Option, none, some, List, [], ◌∷◌, ◌++◌,
  if◌then◌else◌, take, drop,
}
use swirl.Prelude.Text.{Text, codes, text_eq}
use swirl.Ipc.Message.{Bytes, Message}
use swirl.Ipc.Client.{IpcClient, ipc_send_reply, event_mask}

-- What the rest of the compositor and the JSON library do: the names in a request that is an array,
-- the text of a tick event, and for any other command, from the state `W` of the compositor and the
-- events that the client is subscribed to, the state afterwards, and the messages that the client is
-- sent while the command is carried out: such events and the reply. The state may hold all that
-- happens to the compositor until its next command.
pub record Compositor (W : Type 0) : Type 0 where
  pub array_of_names : Bytes → Option (List Text)
  pub tick_event : Bytes → Bytes
  pub answer : W → ℕ → ℕ → Bytes → W × List Message

-- How a call ends: it returns, or the client has been disconnected, or it has written behind the end
-- of an allocation.
pub data Call (A : Type 0) : Type 0 where
  returned : A → Call A
  disconnected : Call A
  overrun : Call A

-- `IPC_SUBSCRIBE`, `IPC_SEND_TICK` and `IPC_EVENT_TICK`
abbrev pub ipc_subscribe : ℕ
ipc_subscribe = 2

abbrev pub ipc_send_tick : ℕ
ipc_send_tick = 10

abbrev pub ipc_event_tick : ℕ
ipc_event_tick = 2147483655

-- The events that can be asked for, as `event_mask` sees them.
abbrev pub event_names : List (Text × ℕ)
event_names =
    (codes "workspace", 0)
    ∷ (codes "output", 1)
    ∷ (codes "barconfig_update", 4)
    ∷ (codes "bar_state_update", 20)
    ∷ (codes "mode", 2)
    ∷ (codes "shutdown", 6)
    ∷ (codes "window", 3)
    ∷ (codes "binding", 5)
    ∷ (codes "tick", 7)
    ∷ (codes "input", 21)
    ∷ (codes "minimize", 22)
    ∷ []

-- The chain of `strcmp`.
abbrev pub find_event : Text → List (Text × ℕ) → Option ℕ
find_event name [] = none
find_event name ((event, ev) ∷ rest) = if text_eq name event then some ev else find_event name rest

abbrev message : ℕ → Text → Message
message payload_type text = record { kind = payload_type; payload = text }

-- The loop over the names, from the events so far and `is_tick`: the events, and the replies.
unfoldable pub subscribe_loop : List Text → ℕ → Bool → ℕ × List Message
subscribe_loop [] events is_tick = (
  events,
  message ipc_subscribe (codes "{\"success\": true}")
      ∷ (if is_tick
          then message ipc_event_tick (codes "{\"first\": true, \"payload\": \"\"}") ∷ []
          else []),
)
subscribe_loop (name ∷ names) events is_tick = elim (find_event name event_names) [
  | none ↦ (events, message ipc_subscribe (codes "{\"success\": false}") ∷ [])
  | some ev ↦ subscribe_loop names (bit_or events (event_mask ev)) (is_tick || ev == 7)
]

abbrev pub subscribe : Option (List Text) → ℕ → ℕ × List Message
subscribe none events = (events, message ipc_subscribe (codes "{\"success\": false}") ∷ [])
subscribe (some names) events = subscribe_loop names events false

-- What ipc_event_tick sends to this client, from its events.
abbrev tick_events : {W : Type 0} → Compositor W → Bytes → ℕ → List Message
tick_events w text events =
    if bit_and events (event_mask ipc_event_tick) == 0
    then []
    else message ipc_event_tick (w.tick_event text) ∷ []

-- The switch: the state of the compositor and the events that the client is subscribed to afterwards,
-- and the messages that it is sent, in their order.
unfoldable pub outcome : {W : Type 0} → Compositor W → ℕ → Bytes → W × ℕ → (W × ℕ) × List Message
unfolding subscribe_loop
outcome w payload_type text (state, events) =
    let (events', subscribed) = subscribe (w.array_of_names text) events in
    let (state', answers) = w.answer state events payload_type text in
    if payload_type == ipc_subscribe
    then ((state, events'), subscribed)
    else if payload_type == ipc_send_tick
    then (
      (state, events),
      tick_events w text events ++ message ipc_send_tick (codes "{\"success\": true}") ∷ [],
    )
    else ((state', events), answers)

-- The replies are sent; one that cannot be sent ends the client.
abbrev pub send_replies : Bool → IpcClient → List Message → Option IpcClient
send_replies has_memory client [] = some client
send_replies has_memory client (m ∷ ms) = elim (ipc_send_reply has_memory client m.kind m.payload) [
  | none ↦ none
  | some client' ↦ send_replies has_memory client' ms
]

-- `malloc(payload_length + 1)`, where the sum is a `uint32_t`, has no room for the payload and the
-- zero behind it.
abbrev pub is_too_small : ℕ → Bool
is_too_small payload_length = leb ((payload_length + 1) % 2 ^ 32) payload_length

-- `ipc_client_handle_command`, where the socket has the bytes `available`, from the state of the
-- compositor: the client, the bytes that are left, and the compositor's state.
unfoldable pub ipc_client_handle_command :
    {W : Type 0}
    → Bool
    → Compositor W
    → IpcClient
    → ℕ
    → ℕ
    → Bytes
    → W
    → Call (IpcClient × Bytes × W)
unfolding outcome ipc_send_reply
ipc_client_handle_command has_memory w client payload_length payload_type available state =
    let text = take payload_length available in
    let done = outcome w payload_type text (state, client.subscribed_events) in
    let sent = send_replies has_memory (record client { subscribed_events = done.0.1 }) done.1 in
    if not has_memory
    then disconnected
    else if is_too_small payload_length
    then overrun
    else elim sent [
      | none ↦ disconnected
      | some client' ↦ returned (client', drop payload_length available, done.0.0)
    ]
