-- ===== src/Ipc/Client/Sizes.antt =====
-- The sizes in ipc_send_reply of sway/ipc-server.c.
use swirl.Prelude.{
  ℕ, zero, suc, ◌+◌, ◌*◌, ◌%◌, ◌^◌, ◌≤◌, ◌<◌, ◌≡◌, refl, ◌∙◌, sym, ap, arith, ltb, leb, true, false,
  some, [], ◌++◌, inl, inr, Bool-cases, length, take, length-append, append-nil, take-append_all,
}
use swirl.Ipc.Message.{Bytes, ipc_header_size, Message, encode}
use swirl.Ipc.Client.{IpcClient, grow, ipc_send_reply}

-- Enough rounds make the size greater than what is needed, and it is no more than twice that, or
-- the size it had.
pub grow_lem :
    (rounds needed size bound : ℕ)
    → 0 < size
    → needed < 2 ^ 32
    → needed < size + rounds
    → size ≤ bound
    → 2 * needed ≤ bound
    → (needed < grow rounds needed size) × (grow rounds needed size ≤ bound)
unfolding grow
grow_lem zero needed size bound a b c d e = (omega arith, d)
grow_lem (suc rounds) needed size bound a b c d e = elim (Bool-cases (leb size needed)) [
  | inr enough ↦ rw (grow, enough) (ground arith, d)
  | inl more ↦
      (let small : size ≤ needed = ground arith in
        let doubled : size * 2 % 2 ^ 64 ≡ size * 2 = omega arith in
        rw (grow, more, doubled)
          (grow_lem rounds needed (size * 2) bound (omega arith) b (omega arith) (omega arith) e))
]

-- What is needed for the client's buffer with another text.
abbrev pub needed_for : IpcClient → Bytes → ℕ
needed_for c text = length c.write_buffer + ipc_header_size + length text

-- The bounds of the write buffer.
pub record HasRoom (c : IpcClient) : Type 0 where
  pub positive : 0 < c.write_buffer_size
  pub inside : length c.write_buffer < c.write_buffer_size
  pub bounded : c.write_buffer_size ≤ 4000000

-- A message that is sent stands behind what waited.
pub record Sent (c : IpcClient) (m : Message) (d : IpcClient) : Type 0 where
  pub appended : d.write_buffer ≡ c.write_buffer ++ encode m
  pub room : HasRoom d
  pub same_length : d.pending_length ≡ c.pending_length
  pub same_type : d.pending_type ≡ c.pending_type
  pub same_events : d.subscribed_events ≡ c.subscribed_events

pub ipc_send_reply_lem :
    (c : IpcClient) (m : Message)
    → HasRoom c
    → 2 * needed_for c m.payload ≤ 4000000
    → (d : IpcClient) × (ipc_send_reply true c m.kind m.payload ≡ some d) × Sent c m d
unfolding ipc_send_reply
ipc_send_reply_lem c m r h =
    let text = m.payload in
    let n = needed_for c text in
    let short : length text % 2 ^ 32 ≡ length text = omega arith in
    let whole : take (length text) text ≡ text =
      ap (take (length text)) (sym (append-nil text))
      ∙ take-append_all (length text) text [] refl in
    let size = grow (suc n) n c.write_buffer_size in
    let (more, less) =
      grow_lem (suc n) n c.write_buffer_size 4000000 r.positive (omega arith) (omega arith)
        r.bounded h in
    let fits : ltb 4000000 size ≡ false = ground arith in
    let d = record c {
      write_buffer_size = size;
      write_buffer = c.write_buffer ++ encode m;
      awaits_writable = true;
    } in
    (
      d,
      rw (ipc_send_reply, short, whole, fits) refl,
      record {
        appended = refl;
        room = record {
          positive = omega arith;
          inside = omega (arith, length-append c.write_buffer (encode m));
          bounded = less;
        };
        same_length = refl;
        same_type = refl;
        same_events = refl;
      },
    )
