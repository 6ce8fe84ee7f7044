-- ===== src/Ipc/Message.antt =====
-- The messages of include/ipc.h and their bytes, as ipc_send_reply and ipc_client_handle_readable of
-- sway/ipc-server.c and common/ipc-client.c write and read them: the magic string, two numbers of
-- type uint32_t, and the payload. The bytes of a number stand in the order of a little-endian
-- machine.
use swirl.Prelude.{ℕ, ◌+◌, ◌*◌, ◌/◌, ◌%◌, ◌^◌, ◌<◌, ◌≡◌, arith, List, [], ◌∷◌, ◌++◌, length}
use swirl.Prelude.Text.{codes}

abbrev pub Bytes : Type 0
Bytes = List ℕ

-- `ipc_magic`
abbrev pub ipc_magic : Bytes
ipc_magic = codes "i3-ipc"

-- `IPC_HEADER_SIZE`
abbrev pub ipc_header_size : ℕ
ipc_header_size = 14

abbrev pub uint32_bytes : ℕ → Bytes
uint32_bytes n = n % 256 ∷ n / 256 % 256 ∷ n / 65536 % 256 ∷ n / 16777216 % 256 ∷ []

-- `memcpy(&n, bytes, sizeof(uint32_t))`, of four bytes at least.
abbrev pub uint32_at : Bytes → ℕ
uint32_at (a ∷ b ∷ c ∷ d ∷ bytes) = a + 256 * b + 65536 * c + 16777216 * d
uint32_at (a ∷ b ∷ c ∷ []) = 0
uint32_at (a ∷ b ∷ []) = 0
uint32_at (a ∷ []) = 0
uint32_at [] = 0

-- `data[IPC_HEADER_SIZE]`
abbrev pub header : ℕ → ℕ → Bytes
header payload_length payload_type =
    ipc_magic ++ (uint32_bytes payload_length ++ uint32_bytes payload_type)

-- A message: `payload_type` and the payload with its length.
pub record Message : Type 0 where
  pub kind : ℕ
  pub payload : Bytes

abbrev pub encode : Message → Bytes
encode m = header (length m.payload) m.kind ++ m.payload

abbrev pub encode_all : List Message → Bytes
encode_all [] = []
encode_all (m ∷ ms) = encode m ++ encode_all ms

-- The numbers of the header fit into 32 bits.
pub record IsMessage (m : Message) : Type 0 where
  pub fits : length m.payload < 2 ^ 32
  pub kind_fits : m.kind < 2 ^ 32

abbrev pub AreMessages : List Message → Type 0
AreMessages [] = Unit
AreMessages (m ∷ ms) = IsMessage m × AreMessages ms

pub uint32_round_trip : (n : ℕ) (rest : Bytes) → n < 2 ^ 32 → uint32_at (uint32_bytes n ++ rest) ≡ n
uint32_round_trip n rest h = omega arith
