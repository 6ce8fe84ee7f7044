-- ===== src/Ipc/Session/Streams.antt =====
-- The streams between a client and the server of sway/ipc-server.c: what arrives, the replies that a
-- conversation calls for, and ipc_client_handle_command in these terms.
use swirl.Prelude.{
  ℕ, ◌+◌, ◌*◌, ◌^◌, ◌≤◌, ◌<◌, ◌≡◌, refl, false, ◌∙◌, sym, ap, arith, true, some, List, [], ◌∷◌,
  ◌++◌, length, take, drop, length-append, append_assoc, append-nil,
}
use swirl.Ipc.Message.{Bytes, Message, encode, encode_all}
use swirl.Ipc.Client.{IpcClient, ipc_send_reply, took, would_block, failed}
use swirl.Ipc.Client.Sizes.{HasRoom, ipc_send_reply_lem}
use swirl.Ipc.Commands.{
  Compositor, returned, outcome, send_replies, is_too_small, ipc_client_handle_command,
}
use swirl.Ipc.Session.{Event, arrived, readable, writable, hang_up}

-- All that arrives in a history.
abbrev pub all_arrived : List Event → Bytes
all_arrived [] = []
all_arrived (arrived bytes ∷ es) = bytes ++ all_arrived es
all_arrived (readable ∷ es) = all_arrived es
all_arrived (writable written ∷ es) = all_arrived es
all_arrived (hang_up ∷ es) = all_arrived es

-- The client does not hang up, and no `write` fails.
abbrev pub IsOpen : List Event → Type 0
IsOpen [] = Unit
IsOpen (arrived bytes ∷ es) = IsOpen es
IsOpen (readable ∷ es) = IsOpen es
IsOpen (writable (took n) ∷ es) = IsOpen es
IsOpen (writable would_block ∷ es) = IsOpen es
IsOpen (writable failed ∷ es) = ⊥
IsOpen (hang_up ∷ es) = ⊥

-- The messages that a client is sent for a command, and the state of the compositor with the events
-- that the client is subscribed to afterwards, from those before; and for a list of commands.
unfoldable pub replies_of : {W : Type 0} → Compositor W → W × ℕ → Message → List Message
unfolding outcome
replies_of w now m = (outcome w m.kind m.payload now).1

unfoldable pub context_of : {W : Type 0} → Compositor W → W × ℕ → Message → W × ℕ
unfolding outcome
context_of w now m = (outcome w m.kind m.payload now).0

abbrev pub replies_from : {W : Type 0} → Compositor W → W × ℕ → List Message → List Message
replies_from w now [] = []
replies_from w now (m ∷ ms) = replies_of w now m ++ replies_from w (context_of w now m) ms

abbrev pub context_from : {W : Type 0} → Compositor W → W × ℕ → List Message → W × ℕ
context_from w now [] = now
context_from w now (m ∷ ms) = context_from w (context_of w now m) ms

-- From a state of the compositor, for a new client, which is subscribed to nothing.
abbrev pub replies_all : {W : Type 0} → Compositor W → W → List Message → List Message
replies_all w state ms = replies_from w (state, 0) ms

pub encode_all-append :
    (ms ns : List Message) → encode_all (ms ++ ns) ≡ encode_all ms ++ encode_all ns
encode_all-append [] ns = refl
encode_all-append (m ∷ ms) ns =
    ap (λ t. encode m ++ t) (encode_all-append ms ns)
    ∙ sym (append_assoc (encode m) (encode_all ms) (encode_all ns))

pub replies_from-append :
    {W : Type 0}
    → (w : Compositor W) (now : W × ℕ) (ms ns : List Message)
    → replies_from w now (ms ++ ns)
      ≡ replies_from w now ms ++ replies_from w (context_from w now ms) ns
replies_from-append w now [] ns = refl
replies_from-append w now (m ∷ ms) ns =
    ap (λ t. replies_of w now m ++ t) (replies_from-append w (context_of w now m) ms ns)
    ∙ sym (append_assoc (replies_of w now m) _ _)

pub context_from-append :
    {W : Type 0}
    → (w : Compositor W) (now : W × ℕ) (ms ns : List Message)
    → context_from w now (ms ++ ns) ≡ context_from w (context_from w now ms) ns
context_from-append w now [] ns = refl
context_from-append w now (m ∷ ms) ns = context_from-append w (context_of w now m) ms ns

-- Messages that are sent stand behind what waited.
pub record AllSent (c : IpcClient) (ms : List Message) (d : IpcClient) : Type 0 where
  pub appended : d.write_buffer ≡ c.write_buffer ++ encode_all ms
  pub room : HasRoom d
  pub same_length : d.pending_length ≡ c.pending_length
  pub same_type : d.pending_type ≡ c.pending_type
  pub same_events : d.subscribed_events ≡ c.subscribed_events

send_replies_next :
    (c c1 : IpcClient) (m : Message) (ms : List Message)
    → ipc_send_reply true c m.kind m.payload ≡ some c1
    → send_replies true c (m ∷ ms) ≡ send_replies true c1 ms
send_replies_next c c1 m ms e = rw (send_replies, e) refl

send_replies_lem :
    (c : IpcClient) (ms : List Message)
    → HasRoom c
    → 2 * (length c.write_buffer + length (encode_all ms)) ≤ 4000000
    → (d : IpcClient) × (send_replies true c ms ≡ some d) × AllSent c ms d
send_replies_lem c [] r h = (
  c,
  refl,
  record {
    appended = sym (append-nil c.write_buffer);
    room = r;
    same_length = refl;
    same_type = refl;
    same_events = refl;
  },
)
send_replies_lem c (m ∷ ms) r h =
    let l = length-append (encode m) (encode_all ms) in
    let (c1, sent, s) = ipc_send_reply_lem c m r (omega arith) in
    let l1 = length-append c.write_buffer (encode m) in
    let same = ap length s.appended in
    let (d, all, t) = send_replies_lem c1 ms s.room (omega arith) in
    (
      d,
      send_replies_next c c1 m ms sent ∙ all,
      record {
        appended =
            t.appended
            ∙ ap (λ b. b ++ encode_all ms) s.appended
            ∙ append_assoc c.write_buffer (encode m) (encode_all ms);
        room = t.room;
        same_length = t.same_length ∙ s.same_length;
        same_type = t.same_type ∙ s.same_type;
        same_events = t.same_events ∙ s.same_events;
      },
    )

-- A command whose length is below 2 ^ 31 and whose replies fit is handled, and its payload is taken
-- from the socket.
pub handle_command_lem :
    {W : Type 0}
    → (w : Compositor W) (state : W) (c : IpcClient) (m : Message) (available : Bytes)
    → take (length m.payload) available ≡ m.payload
    → length m.payload < 2 ^ 31
    → HasRoom c
    → 2
        * (length c.write_buffer
            + length (encode_all (replies_of w (state, c.subscribed_events) m)))
      ≤ 4000000
    → (d : IpcClient) × (ipc_client_handle_command true w c
          (length m.payload)
          m.kind
          available
          state
        ≡ returned
            (d, drop (length m.payload) available, (context_of w (state, c.subscribed_events) m).0))
      × AllSent
          (record c { subscribed_events = (context_of w (state, c.subscribed_events) m).1 })
          (replies_of w (state, c.subscribed_events) m)
          d
unfolding ipc_client_handle_command replies_of context_of
handle_command_lem w state c m available text short r h =
    let c1 = record c { subscribed_events = (context_of w (state, c.subscribed_events) m).1 } in
    let (d, sent, s) =
      send_replies_lem c1 (replies_of w (state, c.subscribed_events) m)
        (record { positive = r.positive; inside = r.inside; bounded = r.bounded }) h in
    let fits : is_too_small (length m.payload) ≡ false = ground arith in
    (
      d,
      rw (ipc_client_handle_command, text, fits, sent)
          (ap
            (λ t. returned (
              d,
              drop (length m.payload) available,
              (outcome w m.kind t (state, c.subscribed_events)).0.0,
            ))
            text),
      record {
        appended = s.appended;
        room = s.room;
        same_length = s.same_length;
        same_type = s.same_type;
        same_events = s.same_events;
      },
    )
