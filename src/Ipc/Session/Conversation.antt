-- ===== src/Ipc/Session/Conversation.antt =====
-- Whole conversations with sway/ipc-server.c: a history of arriving bytes, of readable sockets and of
-- writes, from a new client on.
use swirl.Prelude.{
  ℕ, zero, suc, ◌+◌, ◌-◌, ◌≤◌, ◌==◌, ◌≡◌, refl, ◌∙◌, sym, ap, arith, false, List, [], ◌∷◌, ◌++◌,
  ◌<◌, ◌^◌, inl, inr, Bool-cases, List-cases, length, take, drop, length-append, append_assoc,
  append-nil, length-drop, take-append-drop, empty_if_length_zero, if◌then◌else◌,
}
use mathlib.Core.Path.{subst}
use swirl.Ipc.Message.{Bytes, Message, AreMessages, encode_all}
use swirl.Ipc.Client.{took, would_block, failed, ipc_client_handle_writable}
use swirl.Ipc.Client.Sizes.{HasRoom}
use swirl.Ipc.Commands.{Compositor, returned}
use swirl.Ipc.Session.{
  Session, new_session, context, Event, arrived, readable, writable, hang_up, handle_event,
  run_session,
}
use swirl.Ipc.Session.Streams.{all_arrived, IsOpen, replies_all, context_from}
use swirl.Ipc.Session.Steps.{Conversing, Expects}
use swirl.Ipc.Session.Readable.{readable_lem}

-- `n` calls of ipc_client_handle_readable.
abbrev pub readable_times : ℕ → List Event
readable_times zero = []
readable_times (suc n) = readable ∷ readable_times n

module _ {W : Type 0} (w : Compositor W) (state : W) (msgs : List Message) where
  start :
      (future : Bytes)
      → future ≡ encode_all msgs
      → Conversing w state msgs future (new_session state)
  start future e = record {
    rest = msgs;
    split = refl;
    written = refl;
    room = record { positive = omega arith; inside = omega arith; bounded = omega arith };
    events = refl;
    expects = inl (refl, e);
  }

  arrived_lem :
      (bytes future : Bytes) (s : Session W)
      → Conversing w state msgs (bytes ++ future) s
      → Conversing w state msgs future (record s { available = s.available ++ bytes })
  arrived_lem bytes future s k = record {
    rest = k.rest;
    split = k.split;
    written = k.written;
    room = k.room;
    events = k.events;
    expects =
        subst (λ t. Expects s.client t k.rest) (sym (append_assoc s.available bytes future))
          k.expects;
  }

  -- Nothing has been written.
  abbrev idle_after : Session W → Session W
  idle_after s = record s { sent = s.sent ++ [] }

  idle_after_lem :
      (future : Bytes) (s : Session W)
      → Conversing w state msgs future s
      → Conversing w state msgs future (idle_after s)
  idle_after_lem future s k = record {
    rest = k.rest;
    split = k.split;
    written = ap (λ t. t ++ s.client.write_buffer) (append-nil s.sent) ∙ k.written;
    room = k.room;
    events = k.events;
    expects = k.expects;
  }

  -- What `write` takes moves from the buffer to the socket.
  took_lem :
      (future : Bytes) (s : Session W) (n : ℕ)
      → Conversing w state msgs future s
      → (s' : Session W) × (handle_event w (writable (took n)) s ≡ returned s')
        × Conversing w state msgs future s'
        × (s'.handled ≡ s.handled)
        × (length s'.client.write_buffer ≡ length s.client.write_buffer - n)
  unfolding handle_event ipc_client_handle_writable
  took_lem future s n k = elim (Bool-cases (length s.client.write_buffer == 0)) [
    | inl idle ↦ (
      idle_after s,
      rw (handle_event, ipc_client_handle_writable, idle) refl,
      idle_after_lem future s k,
      refl,
      ground arith,
    )
    | inr busy ↦
        (let c = s.client in
          let rest = drop n c.write_buffer in
          let shorter = length-drop n c.write_buffer in
          let r = k.room in
          let d = record c {
            write_buffer = rest;
            awaits_writable = if length rest == 0 then false else c.awaits_writable;
          } in
          (
            record s { client = d; sent = s.sent ++ take n c.write_buffer },
            rw (handle_event, ipc_client_handle_writable, busy) refl,
            record {
              rest = k.rest;
              split = k.split;
              written =
                  append_assoc s.sent (take n c.write_buffer) rest
                  ∙ ap (λ t. s.sent ++ t) (take-append-drop n c.write_buffer)
                  ∙ k.written;
              room = record {
                positive = r.positive;
                inside = omega (arith, r.inside, shorter);
                bounded = r.bounded;
              };
              events = k.events;
              expects = k.expects;
            },
            refl,
            shorter,
          ))
  ]

  module _ (valid : AreMessages msgs) (few : length (encode_all msgs) < 2 ^ 31)
      (small : length (encode_all (replies_all w state msgs)) ≤ 2000000) where
    -- A history without a failure runs to its end.
    run_session_lem :
        (events : List Event) (future : Bytes) (s : Session W)
        → IsOpen events
        → Conversing w state msgs (all_arrived events ++ future) s
        → (s' : Session W) × ((es : List Event)
            → run_session w (events ++ es) s ≡ run_session w es s')
          × Conversing w state msgs future s'
    unfolding run_session handle_event ipc_client_handle_writable
    run_session_lem [] future s ok k = (s, λ es. refl, k)
    run_session_lem (arrived bytes ∷ events) future s ok k =
        run_session_lem events future (record s { available = s.available ++ bytes }) ok
          (arrived_lem bytes (all_arrived events ++ future) s (
            subst (λ t. Conversing w state msgs t s)
              (append_assoc bytes (all_arrived events) future) k))
    run_session_lem (readable ∷ events) future s ok k =
        let (s1, e, k1, advances) =
          readable_lem w state msgs few small (all_arrived events ++ future) s valid k in
        let (s', r, k') = run_session_lem events future s1 ok k1 in
        (s', λ es. rw (run_session, handle_event, e) (r es), k')
    run_session_lem (writable (took n) ∷ events) future s ok k =
        let (s1, e, k1, same, left) = took_lem (all_arrived events ++ future) s n k in
        let (s', r, k') = run_session_lem events future s1 ok k1 in
        (s', λ es. rw (run_session, e) (r es), k')
    run_session_lem (writable would_block ∷ events) future s ok k =
        run_session_lem events future (idle_after s) ok
          (idle_after_lem (all_arrived events ++ future) s k)
    run_session_lem (writable failed ∷ events) future s ok k = absurd ok
    run_session_lem (hang_up ∷ events) future s ok k = absurd ok

    -- Once all has arrived, each call handles a message, until all are handled.
    readable_times_lem :
        (n : ℕ) (s : Session W)
        → Conversing w state msgs [] s
        → length msgs ≤ length s.handled + n
        → (s' : Session W) × ((es : List Event)
            → run_session w (readable_times n ++ es) s ≡ run_session w es s')
          × Conversing w state msgs [] s'
          × (s'.handled ≡ msgs)
    unfolding run_session handle_event
    readable_times_lem zero s k h = elim (List-cases k.rest) [
      | inl over ↦
          (s, λ es. refl, k, sym (k.split ∙ ap (λ t. s.handled ++ t) over ∙ append-nil s.handled))
      | inr (m, later, e) ↦ absurd (
          let all = ap length (k.split ∙ ap (λ t. s.handled ++ t) e) in
          omega (arith, all, length-append s.handled (m ∷ later)))
    ]
    readable_times_lem (suc n) s k h =
        let (s1, e, k1, advances) = readable_lem w state msgs few small [] s valid k in
        let closer : length msgs ≤ length s1.handled + n = elim (advances refl) [
          | inl all ↦ omega (arith, ap length all)
          | inr one_more ↦ omega arith
        ] in
        let (s', r, k', all) = readable_times_lem n s1 k1 closer in
        (s', λ es. rw (run_session, handle_event, e) (r es), k', all)

-- What a conversation guarantees at any time: some of the messages have been handled, in their order
-- and unchanged, the bytes written and those that wait are what is sent for them, in their order, the
-- state of the compositor and the events are those that they lead to, and the buffer's bounds hold.
pub record Serves {W : Type 0} (w : Compositor W) (state : W) (msgs : List Message) (s : Session W)
    : Type 0 where
  pub rest : List Message
  pub split : msgs ≡ s.handled ++ rest
  pub written : s.sent ++ s.client.write_buffer ≡ encode_all (replies_all w state s.handled)
  pub now : context s ≡ context_from w (state, 0) s.handled
  pub room : HasRoom s.client

-- Let a client send messages whose types fit into 32 bits, less than 2 ^ 31 bytes in all, in any
-- pieces, of which any part has arrived, and let what is sent to it for them take up to two million
-- bytes. Then in any history of arrivals, calls of ipc_client_handle_readable and writes of any part
-- of the buffer, without a hang-up, a failing write or a failing allocation, and without events sent
-- in between, the server does not disconnect the client and does not write behind an allocation; it
-- has handled a first part of these messages and nothing else, each in the state of the compositor
-- that the ones before it led to; what it has written followed by what its buffer holds is what is
-- sent for these, in order; the compositor's state and the client's events are those that they lead
-- to; and the buffer is shorter than its size, which is at most 4000000.
pub run_session-Serves :
    {W : Type 0}
    → (w : Compositor W) (state : W) (msgs : List Message) (events : List Event) (future : Bytes)
    → AreMessages msgs
    → length (encode_all msgs) < 2 ^ 31
    → length (encode_all (replies_all w state msgs)) ≤ 2000000
    → IsOpen events
    → all_arrived events ++ future ≡ encode_all msgs
    → (s : Session W) × (run_session w events (new_session state) ≡ returned s)
      × Serves w state msgs s
unfolding run_session
run_session-Serves w state msgs events future valid few small ok stream =
    let (s, r, k) =
      run_session_lem w state msgs valid few small events future (new_session state) ok
        (start w state msgs _ stream) in
    (
      s,
      ap (λ es. run_session w es (new_session state)) (sym (append-nil events)) ∙ r [],
      record { rest = k.rest; split = k.split; written = k.written; now = k.events; room = k.room },
    )

-- Let a client send messages whose types fit into 32 bits, less than 2 ^ 31 bytes in all, with up to
-- two million bytes that are sent to it for them, and let a history without a hang-up, a failing
-- write or a failing allocation, and without events sent in between, in which these messages arrive
-- whole, be followed by as many calls of ipc_client_handle_readable as there are messages and a write
-- that takes all it is given. Then the server has handled all the messages, each in the state of the
-- compositor that the ones before it led to, has written all that is sent for them in order, and its
-- buffer is empty.
pub run_session-answers_all :
    {W : Type 0}
    → (w : Compositor W) (state : W) (msgs : List Message) (events : List Event) (n : ℕ)
    → AreMessages msgs
    → length (encode_all msgs) < 2 ^ 31
    → length (encode_all (replies_all w state msgs)) ≤ 2000000
    → IsOpen events
    → all_arrived events ≡ encode_all msgs
    → length (encode_all (replies_all w state msgs)) ≤ n
    → (s : Session W) × (run_session w
          (events ++ (readable_times (length msgs) ++ writable (took n) ∷ []))
          (new_session state)
        ≡ returned s)
      × (s.handled ≡ msgs)
      × (s.sent ≡ encode_all (replies_all w state msgs))
      × (s.client.write_buffer ≡ [])
unfolding run_session
run_session-answers_all w state msgs events n valid few small ok stream enough =
    let calls = readable_times (length msgs) in
    let (s1, r1, k1) =
      run_session_lem w state msgs valid few small events [] (new_session state) ok
        (start w state msgs _ (append-nil (all_arrived events) ∙ stream)) in
    let (s2, r2, k2, all) =
      readable_times_lem w state msgs valid few small (length msgs) s1 k1 (omega arith) in
    let (s3, e, k3, same, shorter) = took_lem w state msgs [] s2 n k2 in
    let waiting =
      ap length k2.written ∙ ap (λ t. length (encode_all (replies_all w state t))) all in
    let emptied : length s3.client.write_buffer ≡ 0 =
      omega (arith, waiting, shorter, length-append s2.sent s2.client.write_buffer) in
    let empty : s3.client.write_buffer ≡ [] = empty_if_length_zero s3.client.write_buffer emptied in
    (
      s3,
      r1 (calls ++ writable (took n) ∷ []) ∙ r2 (writable (took n) ∷ []) ∙ rw (run_session, e) refl,
      same ∙ all,
      sym (append-nil s3.sent)
          ∙ ap (λ t. s3.sent ++ t) (sym empty)
          ∙ k3.written
          ∙ ap (λ t. encode_all (replies_all w state t)) (same ∙ all),
      empty,
    )
