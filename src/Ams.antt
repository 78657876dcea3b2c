-- ===== src/Ams.antt =====
-- ams.go and the address type of defs.go: AMS addresses, the 32-byte header and the frame around
-- a request. A `[6]byte` is a record of six bytes; a fixed-size field is written and read little-endian.
pub mod Header
pub mod Frame
pub mod NetIdText
mod Samples
use go_ads.Common.{
  ℕ, ◌+◌, ◌*◌, ◌^◌, ◌%◌, ◌<◌, ◌≤◌, Bool, true, false, ◌&&◌, List, [], ◌∷◌, ◌++◌, Bytes, length, ltb,
  ◌==◌, if◌then◌else◌, Result, ok, err, malformed, ◌>>=◌, IsByte, IsU16, IsU32,
}
use go_ads.Common.Words.{put_le, get_le}

pub record NetId : Type 0 where
  pub b0 : ℕ
  pub b1 : ℕ
  pub b2 : ℕ
  pub b3 : ℕ
  pub b4 : ℕ
  pub b5 : ℕ

pub record AmsAddress : Type 0 where
  pub net_id : NetId
  pub port : ℕ  -- uint16

pub record AmsHeader : Type 0 where
  pub target : AmsAddress
  pub source : AmsAddress
  pub command : ℕ  -- uint16
  pub state : ℕ  -- uint16
  pub length_field : ℕ  -- uint32
  pub error_code : ℕ  -- uint32
  pub invoke_id : ℕ  -- uint32

abbrev pub ams_header_size : ℕ
ams_header_size = 32

-- 32 MiB
abbrev pub max_ams_payload_size : ℕ
max_ams_payload_size = 32 * 1024 * 1024

unfoldable pub put_address : AmsAddress → Bytes
put_address a =
    a.net_id.b0
    ∷ a.net_id.b1
    ∷ a.net_id.b2
    ∷ a.net_id.b3
    ∷ a.net_id.b4
    ∷ a.net_id.b5
    ∷ put_le 2 a.port

unfoldable pub get_address : Bytes → Result (AmsAddress × Bytes)
get_address (b0 ∷ b1 ∷ b2 ∷ b3 ∷ b4 ∷ b5 ∷ bs) = do
  (port, rest) ← get_le 2 bs
  let id : NetId = record { b0 = b0; b1 = b1; b2 = b2; b3 = b3; b4 = b4; b5 = b5 }
  ok (record { net_id = id; port = port }, rest)
get_address _ = err malformed

-- `EncodeAMSHeader`: `binary.Write` of the struct, field by field.
pub encode_ams_header : AmsHeader → Bytes
encode_ams_header h =
    put_address h.target
    ++ put_address h.source
    ++ put_le 2 h.command
    ++ put_le 2 h.state
    ++ put_le 4 h.length_field
    ++ put_le 4 h.error_code
    ++ put_le 4 h.invoke_id

-- `binary.Read` into the struct.
unfoldable pub get_header : Bytes → Result (AmsHeader × Bytes)
get_header b = do
  (target, r1) ← get_address b
  (source, r2) ← get_address r1
  (command, r3) ← get_le 2 r2
  (state, r4) ← get_le 2 r3
  (length_field, r5) ← get_le 4 r4
  (error_code, r6) ← get_le 4 r5
  (invoke_id, r7) ← get_le 4 r6
  let h : AmsHeader = record {
    target = target;
    source = source;
    command = command;
    state = state;
    length_field = length_field;
    error_code = error_code;
    invoke_id = invoke_id;
  }
  ok (h, r7)

pub parse_ams_header : Bytes → Result AmsHeader
parse_ams_header b = if ltb (length b) ams_header_size then err malformed else do
  (h, rest) ← get_header b
  if ltb max_ams_payload_size h.length_field then err malformed else ok h

pub equal : AmsAddress → AmsAddress → Bool
equal a b =
    a.net_id.b0 == b.net_id.b0
    && a.net_id.b1 == b.net_id.b1
    && a.net_id.b2 == b.net_id.b2
    && a.net_id.b3 == b.net_id.b3
    && a.net_id.b4 == b.net_id.b4
    && a.net_id.b5 == b.net_id.b5
    && a.port == b.port

-- The frame that `encodeTo` sends: the 6-byte TCP header, the AMS header and the payload. The
-- lengths are converted to `uint32`.
unfoldable pub encode_to : AmsAddress → AmsAddress → ℕ → Bytes → ℕ → Bytes
unfolding encode_ams_header
encode_to source target command payload invoke_id =
    let header : AmsHeader = record {
      target = target;
      source = source;
      command = command;
      state = 4;
      length_field = length payload % 2 ^ 32;
      error_code = 0;
      invoke_id = invoke_id;
    } in
    put_le 1 0
    ++ put_le 1 0
    ++ put_le 4 ((ams_header_size + length payload) % 2 ^ 32)
    ++ encode_ams_header header
    ++ payload

-- The ranges of Go's field types.
pub record IsNetId (n : NetId) : Type 0 where
  pub b0_fits : IsByte n.b0
  pub b1_fits : IsByte n.b1
  pub b2_fits : IsByte n.b2
  pub b3_fits : IsByte n.b3
  pub b4_fits : IsByte n.b4
  pub b5_fits : IsByte n.b5

pub record IsAddress (a : AmsAddress) : Type 0 where
  pub net_id_fits : IsNetId a.net_id
  pub port_fits : IsU16 a.port

pub record IsHeader (h : AmsHeader) : Type 0 where
  pub target_fits : IsAddress h.target
  pub source_fits : IsAddress h.source
  pub command_fits : IsU16 h.command
  pub state_fits : IsU16 h.state
  pub length_fits : IsU32 h.length_field
  pub error_fits : IsU32 h.error_code
  pub invoke_fits : IsU32 h.invoke_id
