-- ===== src/Ipc/Session/Steps.antt =====
-- Each step of a conversation with sway/ipc-server.c: what the client and its socket hold, whatever
-- pieces the requests arrive in.
use swirl.Prelude.{
  ℕ, ◌+◌, ◌-◌, ◌*◌, ◌^◌, ◌≤◌, ◌<◌, ◌≡◌, refl, ◌∙◌, sym, ap, arith, List, [], ◌∷◌, ◌++◌, inl, inr,
  ◌⊎◌, Bool-cases, leb, length, take, drop, length-append, append_assoc, append-nil,
}
use swirl.Ipc.Message.{
  Bytes, Message, IsMessage, AreMessages, header, encode_all, uint32_at, uint32_bytes,
  uint32_round_trip,
}
use swirl.Ipc.Client.{IpcClient}
use swirl.Ipc.Client.Sizes.{HasRoom}
use swirl.Ipc.Commands.{Compositor, returned}
use swirl.Ipc.Session.{Session, context, handle_pending, handle_header}
use swirl.Ipc.Session.Streams.{
  replies_of, context_of, replies_all, replies_from, context_from, replies_from-append,
  context_from-append, encode_all-append, handle_command_lem,
}

-- The beginning of a stream, of which enough has arrived.
pub prefix_arrived :
    (zs rest xs ys : Bytes)
    → length zs ≤ length xs
    → xs ++ ys ≡ zs ++ rest
    → (take (length zs) xs ≡ zs) × (drop (length zs) xs ++ ys ≡ rest)
prefix_arrived [] rest xs ys h e = (refl, e)
prefix_arrived (z ∷ zs) rest [] ys h e = absurd (omega arith)
prefix_arrived (z ∷ zs) rest (x ∷ xs) ys h e =
    let heads : x ≡ z = cc in
    let tails : xs ++ ys ≡ zs ++ rest = cc in
    let (a, b) = prefix_arrived zs rest xs ys (omega arith) tails in
    (rw heads (ap (λ t. z ∷ t) a), b)

-- What has arrived and what will arrive begin with the rest of a message whose header has been read,
-- or with the next message.
abbrev pub Expects : IpcClient → Bytes → List Message → Type 0
Expects c stream rest =
    ((c.pending_length ≡ 0) × (stream ≡ encode_all rest))
    ⊎ ((m : Message) × (later : List Message) × (rest ≡ m ∷ later)
        × (c.pending_length ≡ length m.payload)
        × (0 < length m.payload)
        × (c.pending_type ≡ m.kind)
        × (stream ≡ m.payload ++ encode_all later))

pub later_IsMessage :
    (done : List Message) (m : Message) (later : List Message)
    → AreMessages (done ++ m ∷ later)
    → IsMessage m
later_IsMessage [] m later v = v.0
later_IsMessage (d ∷ done) m later v = later_IsMessage done m later v.1

pub length_one_more : (ms : List Message) (m : Message) → length (ms ++ m ∷ []) ≡ length ms + 1
length_one_more ms m = length-append ms (m ∷ [])

module _ {W : Type 0} (w : Compositor W) (state : W) (msgs : List Message) where
  -- The state of a conversation: some of the messages have been handled, their replies have been
  -- written or wait, and the rest of the messages is what the socket still brings.
  pub record Conversing (future : Bytes) (s : Session W) : Type 0 where
    pub rest : List Message
    pub split : msgs ≡ s.handled ++ rest
    pub written : s.sent ++ s.client.write_buffer ≡ encode_all (replies_all w state s.handled)
    pub room : HasRoom s.client
    pub events : context s ≡ context_from w (state, 0) s.handled
    pub expects : Expects s.client (s.available ++ future) rest

  -- A message is handled, or all are.
  abbrev pub Advances : Session W → Session W → Type 0
  Advances s s' = (s'.handled ≡ msgs) ⊎ (length s'.handled ≡ length s.handled + 1)

  replies_one_more :
      (ms : List Message) (m : Message)
      → encode_all (replies_all w state (ms ++ m ∷ []))
        ≡ encode_all (replies_all w state ms)
          ++ encode_all (replies_of w (context_from w (state, 0) ms) m)
  replies_one_more ms m =
      ap encode_all (
        replies_from-append w (state, 0) ms (m ∷ [])
        ∙ ap (λ t. replies_all w state ms ++ t)
            (append-nil (replies_of w (context_from w (state, 0) ms) m)))
      ∙ encode_all-append (replies_all w state ms) (replies_of w (context_from w (state, 0) ms) m)

  module _ (small : length (encode_all (replies_all w state msgs)) ≤ 2000000) where
    -- The replies to the next message fit.
    replies_fit :
        (s : Session W) (m : Message) (later : List Message)
        → msgs ≡ s.handled ++ m ∷ later
        → s.sent ++ s.client.write_buffer ≡ encode_all (replies_all w state s.handled)
        → context s ≡ context_from w (state, 0) s.handled
        → 2 * (length s.client.write_buffer + length (encode_all (replies_of w (context s) m)))
          ≤ 4000000
    replies_fit s m later split written events =
        let before = context_from w (state, 0) s.handled in
        let same = ap (λ ev. length (encode_all (replies_of w ev m))) events in
        let a = ap (λ t. length (encode_all (replies_all w state t))) split in
        let b =
          ap (λ t. length (encode_all t))
            (replies_from-append w (state, 0) s.handled (m ∷ later)) in
        let c =
          ap length (
            encode_all-append (replies_all w state s.handled)
              (replies_from w before (m ∷ later))) in
        let d = ap length (
          encode_all-append (replies_of w before m)
            (replies_from w (context_of w before m) later)) in
        let e = ap length written in
        omega (
          arith,
          a,
          b,
          c,
          d,
          e,
          same,
          length-append (encode_all (replies_all w state s.handled))
              (encode_all (replies_from w before (m ∷ later))),
          length-append (encode_all (replies_of w before m))
              (encode_all (replies_from w (context_of w before m) later)),
          length-append s.sent s.client.write_buffer,
        )

    -- The message whose payload has arrived is handled.
    pub handle_pending_lem :
        (future : Bytes) (s : Session W) (m : Message) (later : List Message)
        → msgs ≡ s.handled ++ m ∷ later
        → s.sent ++ s.client.write_buffer ≡ encode_all (replies_all w state s.handled)
        → context s ≡ context_from w (state, 0) s.handled
        → HasRoom s.client
        → s.available ++ future ≡ m.payload ++ encode_all later
        → length m.payload ≤ length s.available
        → length s.available < 2 ^ 31
        → (s' : Session W) × (handle_pending w (length m.payload) m.kind s ≡ returned s')
          × Conversing future s'
          × (s'.handled ≡ s.handled ++ m ∷ [])
    unfolding handle_pending
    handle_pending_lem future s m later split written events r stream h few =
        let (text, behind) =
          prefix_arrived m.payload (encode_all later) s.available future h stream in
        let c = record (s.client) { pending_length = 0; pending_type = m.kind } in
        let (d, handled, all) =
          handle_command_lem w s.world c m s.available text (omega arith)
            (record { positive = r.positive; inside = r.inside; bounded = r.bounded })
            (replies_fit s m later split written events) in
        let s' = record s {
          client = d;
          available = drop (length m.payload) s.available;
          handled = s.handled ++ m ∷ [];
          world = (context_of w (context s) m).0;
        } in
        (
          s',
          rw (handle_pending, handled, text) refl,
          record {
            rest = later;
            split = split ∙ sym (append_assoc s.handled (m ∷ []) later);
            written =
                ap (λ t. s.sent ++ t) all.appended
                ∙ sym (
                    append_assoc s.sent s.client.write_buffer
                      (encode_all (replies_of w (context s) m)))
                ∙ ap (λ t. t ++ encode_all (replies_of w (context s) m)) written
                ∙ ap
                    (λ ev.
                      encode_all (replies_all w state s.handled) ++ encode_all (replies_of w ev m))
                    events
                ∙ sym (replies_one_more s.handled m);
            room = all.room;
            events =
                ap (λ ev. ((context_of w (context s) m).0, ev)) all.same_events
                ∙ ap (λ ev. context_of w ev m) events
                ∙ sym (context_from-append w (state, 0) s.handled (m ∷ []));
            expects = inl (all.same_length, behind);
          },
          refl,
        )

    -- The header of the next message has been received.
    pub handle_header_lem :
        (future : Bytes) (available : ℕ) (s : Session W) (m : Message) (later : List Message)
        → available ≡ length s.available + 14
        → length s.available < 2 ^ 31
        → IsMessage m
        → msgs ≡ s.handled ++ m ∷ later
        → s.sent ++ s.client.write_buffer ≡ encode_all (replies_all w state s.handled)
        → context s ≡ context_from w (state, 0) s.handled
        → HasRoom s.client
        → s.available ++ future ≡ m.payload ++ encode_all later
        → (s' : Session W) × (handle_header w (header (length m.payload) m.kind) available s
            ≡ returned s')
          × Conversing future s'
          × (future ≡ [] → s'.handled ≡ s.handled ++ m ∷ [])
    unfolding handle_header
    handle_header_lem future available s m later counted few v split written events r stream =
        let n = length m.payload in
        let a = uint32_round_trip n (uint32_bytes m.kind) v.fits in
        let b : uint32_at (uint32_bytes m.kind) ≡ m.kind =
          uint32_round_trip m.kind [] v.kind_fits in
        let c = record (s.client) { pending_length = n; pending_type = m.kind } in
        let pending = record s { client = c } in
        let room : HasRoom c = record {
          positive = r.positive;
          inside = r.inside;
          bounded = r.bounded;
        } in
        elim (Bool-cases (leb n (available - 14))) [
          | inl there ↦
              (let (s', e, k, f) =
                  handle_pending_lem future pending m later split written events room stream
                    (ground arith) few in
                (s', rw (handle_header, a, b, there) e, k, λ _. f))
          | inr missing ↦ (
            pending,
            rw (handle_header, a, b, missing) refl,
            record {
              rest = m ∷ later;
              split = split;
              written = written;
              room = room;
              events = events;
              expects = inr (m, later, refl, refl, ground arith, refl, stream);
            },
            λ over. absurd (
                let all = ap length (ap (λ t. s.available ++ t) (sym over) ∙ stream) in
                ground (
                  arith,
                  all,
                  length-append s.available [],
                  length-append m.payload (encode_all later),
                )),
          )
        ]
