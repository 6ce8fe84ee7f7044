-- ===== src/Ipc/Response.antt =====
-- A client's side of the IPC, common/ipc-client.c: ipc_recv_response, which takes a response from a
-- socket in whatever pieces recv returns it.
use Prim.Native.Nat.{min}
use swirl.Prelude.{
  ℕ, zero, suc, ◌+◌, ◌-◌, ◌%◌, ◌^◌, ◌≤◌, ◌<◌, ◌==◌, ◌≡◌, refl, leb, ◌∙◌, ap, arith, Bool, true,
  false, not, Option, none, some, List, [], ◌∷◌, ◌++◌, length, take, drop, take-append-drop,
  length-drop, append_assoc, append-nil, length-take, if◌then◌else◌, ◌&&◌,
}
use swirl.Prelude.Moves.{take-append_le, drop-append_le}
use swirl.Ipc.Message.{
  Bytes, Message, header, ipc_header_size, encode, uint32_at, uint32_bytes, uint32_round_trip,
}

-- What the next call of `recv` does: at most one byte more than the number, or an error.
pub data Piece : Type 0 where
  piece : ℕ → Piece
  recv_error : Piece

-- A connected socket: the bytes that the peer sends before it closes, and what the calls of `recv` do;
-- after these, a call returns all that was asked for, or all that is left.
pub record Socket : Type 0 where
  pub bytes : Bytes
  pub pieces : List Piece

-- What `recv(socketfd, .., wanted, 0)` returns on such a socket: -1 is `none`.
unfoldable pub recv : Socket → ℕ → Option (Bytes × Socket)
recv socket wanted = elim (socket.pieces) [
  | [] ↦ some (take wanted socket.bytes, record { bytes = drop wanted socket.bytes; pieces = [] })
  | piece n ∷ pieces ↦
      (let size = min (suc n) wanted in
        some (take size socket.bytes, record { bytes = drop size socket.bytes; pieces = pieces }))
  | recv_error ∷ pieces ↦ none
]

-- What a loop of `recv` ends with: all its bytes, `sway_abort`, or, within the rounds given, nothing.
pub data Receipt : Type 0 where
  received : Bytes → Socket → Receipt
  aborted unfinished : Receipt

-- A loop of ipc_recv_response, with `missing` bytes to go. The one for the header aborts if a call
-- returns no bytes, the one for the payload does not (`aborts_at_end`).
unfoldable pub receive : ℕ → Bool → Bytes → ℕ → Socket → Receipt
unfolding recv
receive zero aborts_at_end data_so_far missing socket =
    if missing == 0 then received data_so_far socket else unfinished
receive (suc rounds) aborts_at_end data_so_far missing socket = elim (missing == 0) [
  | true ↦ received data_so_far socket
  | false ↦ elim (recv socket missing) [
    | none ↦ aborted
    | some (bytes, socket') ↦ elim (aborts_at_end && length bytes == 0) [
      | true ↦ aborted
      | false ↦ receive rounds aborts_at_end (data_so_far ++ bytes) (missing - length bytes) socket'
    ]
  ]
]

-- What ipc_recv_response ends with; `out_of_bounds` is a write behind the payload's memory.
pub data Response : Type 0 where
  response : Message → Socket → Response
  no_memory response_aborted response_unfinished out_of_bounds : Response

-- The payload, of which `response->size + 1` bytes are allocated.
unfoldable pub receive_payload : Bool → ℕ → ℕ → Socket → Response
unfolding receive
receive_payload has_memory size type socket =
    if not has_memory
    then no_memory
    else if leb ((size + 1) % 2 ^ 32) size
    then out_of_bounds
    else elim (receive size false [] size socket) [
      | received payload socket' ↦ response (record { kind = type; payload = payload }) socket'
      | aborted ↦ response_aborted
      | unfinished ↦ response_unfinished
    ]

-- `ipc_recv_response`; each call of `recv` that is not the last brings a byte at least, so that a loop
-- for `n` bytes is given `n` rounds.
unfoldable pub ipc_recv_response : Bool → Socket → Response
unfolding receive receive_payload
ipc_recv_response has_memory socket =
    elim (receive ipc_header_size true [] ipc_header_size socket) [
      | received buf socket' ↦
          receive_payload has_memory (uint32_at (drop 6 buf)) (uint32_at (drop 10 buf)) socket'
      | aborted ↦ response_aborted
      | unfinished ↦ response_unfinished
    ]

-- No call of `recv` fails.
abbrev pub IsWhole : List Piece → Type 0
IsWhole [] = Unit
IsWhole (piece n ∷ pieces) = IsWhole pieces
IsWhole (recv_error ∷ pieces) = ⊥

-- A call takes some bytes off the stream, but no more than asked for.
recv_lem :
    (bytes : Bytes) (pieces : List Piece) (wanted : ℕ)
    → 0 < wanted
    → IsWhole pieces
    → (size : ℕ) × (pieces' : List Piece) × (0 < size)
      × (size ≤ wanted)
      × IsWhole pieces'
      × (recv (record { bytes = bytes; pieces = pieces }) wanted
          ≡ some (take size bytes, record { bytes = drop size bytes; pieces = pieces' }))
unfolding recv
recv_lem bytes [] wanted more whole = (wanted, [], more, omega arith, whole, refl)
recv_lem bytes (piece n ∷ pieces) wanted more whole =
    (min (suc n) wanted, pieces, omega arith, omega arith, whole, refl)
recv_lem bytes (recv_error ∷ pieces) wanted more whole = absurd whole

and_false : (b : Bool) → (b && false) ≡ false
and_false true = refl
and_false false = refl

receive_next :
    (rounds : ℕ) (aborts_at_end : Bool) (before bytes : Bytes) (missing : ℕ)
    (socket socket' : Socket)
    → recv socket missing ≡ some (bytes, socket')
    → missing == 0 ≡ false
    → length bytes == 0 ≡ false
    → receive (suc rounds) aborts_at_end before missing socket
      ≡ receive rounds aborts_at_end (before ++ bytes) (missing - length bytes) socket'
unfolding receive
receive_next rounds aborts before bytes missing socket socket' e more some_bytes =
    rw (receive, more, e, some_bytes, and_false aborts) refl

-- With a round for each byte, a loop takes what it is to take, whatever the pieces are.
receive_lem :
    (rounds : ℕ) (aborts_at_end : Bool) (before zs rest : Bytes) (pieces : List Piece)
    → IsWhole pieces
    → length zs ≤ rounds
    → (pieces' : List Piece) × IsWhole pieces'
      × (receive rounds aborts_at_end before
            (length zs)
            (record { bytes = zs ++ rest; pieces = pieces })
          ≡ received (before ++ zs) (record { bytes = rest; pieces = pieces' }))
unfolding receive
receive_lem zero aborts before [] rest pieces whole h = (pieces, whole, rw (append-nil before) refl)
receive_lem zero aborts before (z ∷ zs) rest pieces whole h = absurd (omega arith)
receive_lem (suc rounds) aborts before [] rest pieces whole h =
    (pieces, whole, rw (append-nil before) refl)
receive_lem (suc rounds) aborts before (z ∷ zs) rest pieces whole h =
    let all = z ∷ zs in
    let (size, pieces1, more, less, whole1, e) =
      recv_lem (all ++ rest) pieces (length all) (omega arith) whole in
    let taken : take size (all ++ rest) ≡ take size all = take-append_le size all rest less in
    let left : drop size (all ++ rest) ≡ drop size all ++ rest =
      drop-append_le size all rest less in
    let short = length-drop size all in
    let e' =
      e
      ∙ ap (λ t. some (t, record { bytes = drop size (all ++ rest); pieces = pieces1 })) taken
      ∙ ap (λ t. some (take size all, record { bytes = t; pieces = pieces1 })) left in
    let some_bytes : length (take size all) == 0 ≡ false = ground (arith, length-take size all) in
    let to_go : length all - length (take size all) ≡ length (drop size all) =
      omega (arith, length-take size all, short) in
    let (pieces', whole', r) =
      receive_lem rounds aborts (before ++ take size all) (drop size all) rest pieces1 whole1
        (omega arith) in
    let joined : (before ++ take size all) ++ drop size all ≡ before ++ all =
      append_assoc before (take size all) (drop size all)
      ∙ ap (λ t. before ++ t) (take-append-drop size all) in
    (
      pieces',
      whole',
      receive_next rounds aborts before (take size all) (length all)
            (record { bytes = all ++ rest; pieces = pieces })
            (record { bytes = drop size all ++ rest; pieces = pieces1 }) e' (ground arith)
            some_bytes
          ∙ ap
              (λ n.
                receive rounds aborts (before ++ take size all) n
                  (record { bytes = drop size all ++ rest; pieces = pieces1 }))
              to_go
          ∙ r
          ∙ ap (λ t. received t (record { bytes = rest; pieces = pieces' })) joined,
    )

-- Let the peer send a message whose type fits into 32 bits and whose length is less than 2 ^ 32 - 1,
-- and then any other bytes. Then ipc_recv_response, whatever the sizes of the pieces that recv
-- returns, as long as no call of recv and no allocation fails, ends with this message, and leaves
-- the other bytes to be received.
pub ipc_recv_response-encode :
    (m : Message) (rest : Bytes) (pieces : List Piece)
    → length m.payload + 1 < 2 ^ 32
    → m.kind < 2 ^ 32
    → IsWhole pieces
    → (pieces' : List Piece) × (ipc_recv_response true
          (record { bytes = encode m ++ rest; pieces = pieces })
        ≡ response m (record { bytes = rest; pieces = pieces' }))
unfolding ipc_recv_response receive_payload
ipc_recv_response-encode m rest pieces fits kind_fits whole =
    let n = length m.payload in
    let head = header n m.kind in
    let (pieces1, whole1, r1) =
      receive_lem 14 true [] head (m.payload ++ rest) pieces whole (omega arith) in
    let (pieces2, whole2, r2) =
      receive_lem n false [] m.payload rest pieces1 whole1 (omega arith) in
    let a = uint32_round_trip n (uint32_bytes m.kind) (omega arith) in
    let b : uint32_at (uint32_bytes m.kind) ≡ m.kind = uint32_round_trip m.kind [] kind_fits in
    let inside : leb ((n + 1) % 2 ^ 32) n ≡ false = ground arith in
    (
      pieces2,
      ap (λ t. ipc_recv_response true (record { bytes = t; pieces = pieces }))
            (append_assoc head m.payload rest)
          ∙ rw (ipc_recv_response, r1, a, inside, r2, b) refl,
    )
