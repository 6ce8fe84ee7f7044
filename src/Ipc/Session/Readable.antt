-- ===== src/Ipc/Session/Readable.antt =====
-- A call of ipc_client_handle_readable of sway/ipc-server.c in a conversation.
use native.Mathlib.Nat.{mod-eq_of_lt}
use swirl.Prelude.{
  ℕ, ◌+◌, ◌%◌, ◌^◌, length-drop, ◌≤◌, ◌<◌, ◌≡◌, refl, ◌∙◌, sym, ap, arith, true, false, List, [],
  ◌∷◌, ◌++◌, inl, inr, Bool-cases, List-cases, ltb, leb, length, take, drop, length-append,
  append_assoc, append-nil,
}
use mathlib.Core.Path.{subst}
use swirl.Prelude.Text.{text_eq}
use swirl.Ipc.Message.{Bytes, Message, AreMessages, ipc_magic, header, encode, encode_all}
use swirl.Ipc.Commands.{Compositor, returned}
use swirl.Ipc.Session.{
  Session, is_negative, handle_pending, handle_header, ipc_client_handle_readable,
}
use swirl.Ipc.Session.Steps.{
  Conversing, Advances, handle_pending_lem, handle_header_lem, length_one_more, later_IsMessage,
  prefix_arrived,
}
use swirl.Ipc.Session.Streams.{replies_all, encode_all-append}

module _ {W : Type 0} (w : Compositor W) (state : W) (msgs : List Message)
    (few : length (encode_all msgs) < 2 ^ 31)
    (small : length (encode_all (replies_all w state msgs)) ≤ 2000000) where
  -- What has arrived and is not handled yet is a part of what the client sends.
  available_few :
      (done rest : List Message) (here future : Bytes) (size : ℕ)
      → msgs ≡ done ++ rest
      → size ≤ length (encode_all rest)
      → length (here ++ future) ≤ size
      → length here < 2 ^ 31
  available_few done rest here future size split part h =
      let a = ap (λ t. length (encode_all t)) split in
      let b = ap length (encode_all-append done rest) in
      omega
        (arith, a, b, length-append (encode_all done) (encode_all rest), length-append here future)

  -- A readable socket, while a payload is awaited.
  readable_payload :
      (future : Bytes) (s : Session W) (m : Message) (later : List Message)
      → Conversing w state msgs future s
      → msgs ≡ s.handled ++ m ∷ later
      → s.client.pending_length ≡ length m.payload
      → 0 < length m.payload
      → s.client.pending_type ≡ m.kind
      → s.available ++ future ≡ m.payload ++ encode_all later
      → (s' : Session W) × (ipc_client_handle_readable w s ≡ returned s')
        × Conversing w state msgs future s'
        × (future ≡ [] → Advances w state msgs s s')
  unfolding ipc_client_handle_readable
  readable_payload future s m later k split len more kind stream =
      let on : ltb 0 s.client.pending_length ≡ true = ground (arith, len) in
      let arrived = ap length stream in
      let behind = length-append m.payload (encode_all later) in
      let whole = length-append (encode m) (encode_all later) in
      let own = length-append (header (length m.payload) m.kind) m.payload in
      let short : length s.available < 2 ^ 31 =
        available_few s.handled (m ∷ later) s.available future
          (length m.payload + length (encode_all later)) split (omega arith) (omega arith) in
      let exact : length s.available % 2 ^ 32 ≡ length s.available = mod-eq_of_lt (omega arith) in
      elim (Bool-cases (leb s.client.pending_length (length s.available))) [
        | inl there ↦
            (let (s', e, k', f) =
                handle_pending_lem w state msgs small future s m later split k.written k.events
                  k.room stream (ground (arith, len)) short in
              let called : ipc_client_handle_readable w s
                  ≡ handle_pending w s.client.pending_length s.client.pending_type s =
                rw (ipc_client_handle_readable, on, exact, there) refl in
              (
                s',
                called
                    ∙ ap (λ n. handle_pending w n s.client.pending_type s) len
                    ∙ ap (λ t. handle_pending w (length m.payload) t s) kind
                    ∙ e,
                k',
                λ _. inr (ap length f ∙ length_one_more s.handled m),
              ))
        | inr missing ↦ (
          s,
          rw (ipc_client_handle_readable, on, exact, missing) refl,
          k,
          λ over. absurd (
              let all = ap length (ap (λ t. s.available ++ t) (sym over) ∙ stream) in
              ground (
                arith,
                len,
                all,
                length-append s.available [],
                length-append m.payload (encode_all later),
              )),
        )
      ]

  -- A call that receives a header.
  header_received :
      (s s' : Session W) (buf : Bytes)
      → ltb 0 s.client.pending_length ≡ false
      → length s.available % 2 ^ 32 ≡ length s.available
      → is_negative (length s.available) ≡ false
      → ltb (length s.available) 14 ≡ false
      → take 14 s.available ≡ buf
      → text_eq (take 6 buf) ipc_magic ≡ true
      → handle_header w buf (length s.available) (record s { available = drop 14 s.available })
        ≡ returned s'
      → ipc_client_handle_readable w s ≡ returned s'
  unfolding ipc_client_handle_readable
  header_received s s' buf off exact natural enough headed magic e =
      rw (ipc_client_handle_readable, off, exact, natural, enough, headed, magic) e

  -- A readable socket, while a header is awaited.
  readable_header :
      (future : Bytes) (s : Session W)
      → AreMessages msgs
      → (k : Conversing w state msgs future s) → s.client.pending_length ≡ 0
      → s.available ++ future ≡ encode_all k.rest
      → (s' : Session W) × (ipc_client_handle_readable w s ≡ returned s')
        × Conversing w state msgs future s'
        × (future ≡ [] → Advances w state msgs s s')
  unfolding ipc_client_handle_readable
  readable_header future s valid k none_pending stream =
      let off : ltb 0 s.client.pending_length ≡ false = ground (arith, none_pending) in
      let size = length-append s.available future in
      let arrived = ap length stream in
      let below : length s.available < 2 ^ 31 =
        available_few s.handled k.rest s.available future (length (encode_all k.rest)) k.split
          (omega arith) (omega arith) in
      let exact : length s.available % 2 ^ 32 ≡ length s.available = mod-eq_of_lt (omega arith) in
      let natural : is_negative (length s.available) ≡ false = ground arith in
      elim (List-cases k.rest) [
        | inl over ↦
            (let short : ltb (length s.available) 14 ≡ true =
                ground (arith, ap length (stream ∙ ap encode_all over), size) in
              (
                s,
                rw (ipc_client_handle_readable, off, exact, natural, short) refl,
                k,
                λ _. inl (sym (k.split ∙ ap (λ t. s.handled ++ t) over ∙ append-nil s.handled)),
              ))
        | inr (m, later, e) ↦
            (let split = k.split ∙ ap (λ t. s.handled ++ t) e in
              let next =
                stream
                ∙ ap encode_all e
                ∙ append_assoc (header (length m.payload) m.kind) m.payload (encode_all later) in
              elim (Bool-cases (ltb (length s.available) 14)) [
                | inl short ↦ (
                  s,
                  rw (ipc_client_handle_readable, off, exact, natural, short) refl,
                  k,
                  λ none_later. absurd (
                      let all = ap length next in
                      let none_more = ap length none_later in ground (arith, size, all, none_more)),
                )
                | inr enough ↦
                    (let (headed, behind) =
                        prefix_arrived (header (length m.payload) m.kind)
                          (m.payload ++ encode_all later) s.available future (ground arith) next in
                      let left = length-drop 14 s.available in
                      let counted : length s.available ≡ length (drop 14 s.available) + 14 =
                        ground arith in
                      let received = record s { available = drop 14 s.available } in
                      let (s', e', k', f) =
                        handle_header_lem w state msgs small future (length s.available) received m
                          later counted (omega arith)
                          (later_IsMessage s.handled m later (subst AreMessages split valid)) split
                          k.written k.events k.room behind in
                      (
                        s',
                        header_received s s' (header (length m.payload) m.kind) off exact natural
                            enough headed refl e',
                        k',
                        λ none_later. inr (ap length (f none_later) ∙ length_one_more s.handled m),
                      ))
              ])
      ]

  -- A call of ipc_client_handle_readable keeps the conversation going; if all has arrived, it
  -- handles the next message.
  pub readable_lem :
      (future : Bytes) (s : Session W)
      → AreMessages msgs
      → Conversing w state msgs future s
      → (s' : Session W) × (ipc_client_handle_readable w s ≡ returned s')
        × Conversing w state msgs future s'
        × (future ≡ [] → Advances w state msgs s s')
  readable_lem future s valid k = elim (k.expects) [
    | inl (none_pending, stream) ↦ readable_header future s valid k none_pending stream
    | inr (m, later, e, len, more, kind, stream) ↦
        readable_payload future s m later k (k.split ∙ ap (λ t. s.handled ++ t) e) len more kind
          stream
  ]
