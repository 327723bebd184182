-- ===== src/Agwpe.antt =====
-- transport/ax25/agwpe/frame.go: the frames that are exchanged with a modem.
pub mod Kinds
pub mod Callsign
pub mod Ports
pub mod RoundTrip
mod Tests
use wl2k_go.Prelude.{
  ℕ, zero, suc, ◌+◌, ◌-◌, ◌*◌, ◌/◌, ◌%◌, ◌^◌, Option, none, some, List, [], ◌∷◌, ◌++◌, Bytes, leb,
  ltb, ◌==◌, if◌then◌else◌, length, take, drop, replicate,
}
use wl2k_go.Go.Result.{Result as Outcome, ok, err, panic, ◌>>=◌}
use wl2k_go.Go.Strings.{cut_at}

-- io.EOF and io.ErrUnexpectedEOF.
pub data ReadError : Type 0 where
  eof unexpected_eof : ReadError

abbrev pub Result {κ} : Type κ → Type κ
Result A = Outcome ReadError A

-- What arrives on the connection, in the pieces that single calls of `Read` see.
abbrev pub Chunks : Type 0
Chunks = List Bytes

-- `copy(c[:], s)` into ten bytes.
abbrev pub callsign_from_string : Bytes → Bytes
callsign_from_string s = take 10 (s ++ replicate 10 0)

unfoldable pub str_from_bytes : Bytes → Bytes
str_from_bytes b = elim (cut_at 0 b) [ none ↦ b | some r ↦ r.0 ]

pub record Header : Type 0 where
  pub port : ℕ
  pub data_kind : ℕ
  pub pid : ℕ
  pub from : Bytes
  pub to : Bytes
  pub data_len : ℕ

pub record Frame : Type 0 where
  pub header : Header
  pub payload : Bytes

-- A uint32, the low byte first.
abbrev pub le32 : ℕ → Bytes
le32 n = n % 256 ∷ n / 256 % 256 ∷ n / 65536 % 256 ∷ n / 16777216 % 256 ∷ []

-- `binary.Write`: the fields in order; the reserved ones are zero.
unfoldable pub write_header : Header → Bytes
write_header h =
    h.port
    ∷ 0
    ∷ 0
    ∷ 0
    ∷ h.data_kind
    ∷ 0
    ∷ h.pid
    ∷ 0
    ∷ (h.from ++ (h.to ++ (le32 h.data_len ++ (0 ∷ 0 ∷ 0 ∷ 0 ∷ []))))

-- The length is that of the data, in 32 bits.
unfoldable pub write_frame : Frame → Bytes
write_frame f = write_header (record f.header { data_len = length f.payload % 2 ^ 32 }) ++ f.payload

-- One call of `Read` for `n` bytes: at most the next piece.
unfoldable pub read_some : ℕ → Chunks → Result (Bytes × Chunks)
read_some zero chunks = ok ([], chunks)
read_some (suc n) [] = err eof
read_some (suc n) (c ∷ chunks) =
    if leb (length c) (suc n) then ok (c, chunks) else ok (take (suc n) c, drop (suc n) c ∷ chunks)

-- The end of the connection, before the first byte or behind some.
abbrev pub ended : Bytes → ReadError
ended [] = eof
ended (b ∷ done) = unexpected_eof

-- `io.ReadFull` behind some bytes that it has, for `n` more.
unfoldable pub read_more : Bytes → ℕ → Chunks → Result (Bytes × Chunks)
read_more done zero chunks = ok (done, chunks)
read_more done (suc n) [] = err (ended done)
read_more done (suc n) (c ∷ chunks) =
    let rest = read_more (done ++ c) (suc n - length c) chunks in
    if leb (length c) (suc n) then rest else ok (done ++ take (suc n) c, drop (suc n) c ∷ chunks)

abbrev pub read_full : ℕ → Chunks → Result (Bytes × Chunks)
read_full n chunks = read_more [] n chunks

abbrev pub byte_at : Bytes → ℕ → ℕ
byte_at b i = byte (drop i b)
  where
    byte : Bytes → ℕ
    byte [] = 0
    byte (x ∷ xs) = x

-- The fields of the 36 bytes of a header; the reserved ones are passed over.
unfoldable pub decode_header : Bytes → Header
decode_header b = record {
  port = byte_at b 0;
  data_kind = byte_at b 4;
  pid = byte_at b 6;
  from = take 10 (drop 8 b);
  to = take 10 (drop 18 b);
  data_len = byte_at b 28 + 256 * byte_at b 29 + 65536 * byte_at b 30 + 16777216 * byte_at b 31;
}

-- `binary.Read` of a header.
unfoldable pub read_header : Chunks → Result (Header × Chunks)
read_header chunks = read_full 36 chunks >>= λ r. ok (decode_header r.0, r.1)

-- The header, then one `Read` for the data; it is an error if that gives less.
unfoldable pub read_frame : Chunks → Result (Frame × Chunks)
read_frame chunks = read_header chunks >>= λ r. read_some r.0.data_len r.1 >>= λ d.
    if length d.0 == r.0.data_len
    then ok (record { header = r.0; payload = d.0 }, d.1)
    else err unexpected_eof
