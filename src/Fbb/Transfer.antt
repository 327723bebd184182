-- ===== src/Fbb/Transfer.antt =====
-- fbb/b2f.go, writeCompressed and readCompressed: one message as a header, blocks of at most 125
-- bytes and a checksum. The connection is the list of the bytes that the other side has sent; a
-- read past its end is io.EOF. Writes, the flush and the status updates always succeed.
pub mod Blocks
pub mod RoundTrip
pub mod Errors
pub mod Progress
mod Tests
use wl2k_go.Prelude.{
  ℕ, zero, suc, ◌+◌, ◌-◌, ◌%◌, Bool, true, false, Option, none, some, List, [], ◌∷◌, ◌++◌, Bytes,
  ltb, leb, ◌==◌, if◌then◌else◌, length, take, drop,
}
use wl2k_go.Prelude.Int.{ℤ, pos, negsuc, eq_ℤ, ltb_ℤ}
use wl2k_go.Go.Result.{ok, err, panic, ◌>>=◌}
use wl2k_go.Go.Strings.{cut_at}
use wl2k_go.Go.Strconv.{atoi, show_int}
use wl2k_go.Go.Mime.{q_encode}
use wl2k_go.Fbb.Error.{
  Error, Result, eof, invalid_compressed_data, cms_error, bad_first_byte, title_unparsed,
  offset_unparsed, header_length_mismatch, offset_not_integer, offset_mismatch, bad_checksum,
  length_mismatch, unexpected_byte, out_of_fuel,
}
use wl2k_go.Fbb.Proposal.{Proposal}
use wl2k_go.Fbb.Line.{next_line}

abbrev pub max_msg_length : ℕ
max_msg_length = 125

abbrev pub chr_nul : ℕ
chr_nul = 0

abbrev pub chr_soh : ℕ
chr_soh = 1

abbrev pub chr_stx : ℕ
chr_stx = 2

abbrev pub chr_eot : ℕ
chr_eot = 4

-- How a write ends, with the bytes that went out before.
pub data Written : Type 0 where
  done : Bytes → Written
  failed : Bytes → Error → Written
  panicked : Bytes → Written

-- The inner loop of a block: the bytes, added up.
unfoldable pub sum_bytes : ℕ → Bytes → ℕ
sum_bytes n [] = n
sum_bytes n (c ∷ s) = sum_bytes (n + c) s

-- The loop over the buffer, with the checksum so far. A block takes a byte at least, so as many
-- rounds as there are bytes are enough.
unfoldable pub write_blocks : ℕ → Bytes → ℕ → Bytes × ℕ
write_blocks zero buffer checksum = ([], checksum)
write_blocks (suc f) [] checksum = ([], checksum)
write_blocks (suc f) (c ∷ s) checksum =
    let n = if ltb (length (c ∷ s)) max_msg_length then length (c ∷ s) else max_msg_length in
    let block = take n (c ∷ s) in
    let more = write_blocks f (drop n (c ∷ s)) (sum_bytes checksum block) in
    (chr_stx ∷ n % 256 ∷ (block ++ more.0), more.1)

-- `-n & 0xff` for a sum of bytes.
abbrev pub negate_byte : ℕ → ℕ
negate_byte n = (256 - n % 256) % 256

-- The bytes of the header: its length in one byte, the title and the offset, each ended by a NUL.
abbrev pub write_header : Bytes → Bytes → Bytes
write_header title offset =
    chr_soh
    ∷ (length title + length offset + 2) % 256
    ∷ (title ++ chr_nul ∷ (offset ++ chr_nul ∷ []))

unfoldable pub write_data : Bytes → Bytes → Bytes
write_data header buffer =
    let (blocks, checksum) = write_blocks (length buffer) buffer 0 in
    header ++ (blocks ++ chr_eot ∷ negate_byte checksum ∷ [])

-- A slice from a negative offset, or from one past the end, panics.
unfoldable pub write_compressed : Proposal → Written
write_compressed p =
    let header = write_header (q_encode p.title) (show_int p.offset) in
    if ltb_ℤ p.compressed_size (pos 6)
    then failed header invalid_compressed_data
    else elim p.offset [
      | negsuc n ↦ panicked header
      | pos n ↦
          if leb n (length p.compressed_data)
          then done (write_data header (drop n p.compressed_data))
          else panicked header
    ]

-- `ReadByte`.
abbrev pub read_byte : Bytes → Result (ℕ × Bytes)
read_byte [] = err eof
read_byte (c ∷ s) = ok (c, s)

-- `c, _ = ReadByte()`, with no look at the error: at the end of the connection the byte is 0.
abbrev pub read_byte_or_zero : Bytes → ℕ × Bytes
read_byte_or_zero [] = (0, [])
read_byte_or_zero (c ∷ s) = (c, s)

-- `ReadString(0)` without its last byte.
abbrev pub read_field : Error → Bytes → Result (Bytes × Bytes)
read_field e s = elim (cut_at chr_nul s) [ none ↦ err e | some r ↦ ok r ]

-- What the reader has taken: the bytes, and their sum modulo 256.
pub record Received : Type 0 where
  pub buf : Bytes
  pub sum : ℕ

-- `buf.WriteByte(c)` and the sum.
abbrev pub take_in : Received → ℕ → Received
take_in r c = record { buf = r.buf ++ (c ∷ []); sum = (r.sum + c) % 256 }

-- The loop over one block, with the count of bytes left.
unfoldable pub read_block : ℕ → Bytes → Received → Result (Received × Bytes)
read_block zero s r = ok (r, s)
read_block (suc n) [] r = err eof
read_block (suc n) (c ∷ s) r = read_block n s (take_in r c)

-- The end of the data: the checksum, then the length.
unfoldable pub read_end : ℤ → Bytes → Received → Result (Bytes × Bytes)
read_end size s r =
    let (c, rest) = read_byte_or_zero s in
    if (r.sum + c) % 256 == 0
    then if eq_ℤ size (pos (length r.buf)) then ok (r.buf, rest) else err length_mismatch
    else err bad_checksum

-- The number of bytes in a block; a length of 0 stands for 256.
abbrev pub block_length : ℕ → ℕ
block_length n = if n == 0 then 256 else n

-- The loop over the blocks. Each takes a byte at least.
unfoldable pub read_blocks : ℕ → ℤ → Bytes → Received → Result (Bytes × Bytes)
read_blocks zero size s r = err out_of_fuel
read_blocks (suc f) size [] r = err eof
read_blocks (suc f) size (c ∷ s) r =
    let (n, s') = read_byte_or_zero s in
    let more = read_block (block_length n) s' r >>= λ p. read_blocks f size p.1 p.0 in
    if c == chr_stx
    then more
    else (if c == chr_eot then read_end size s r else err (unexpected_byte c))

-- The text that `nextLine` returns beside an error: what there is of a line if the connection
-- ends, and nothing if the line is itself an error.
abbrev pub line_text : Bytes → Error → Bytes
line_text s eof = s
line_text s _ = []

-- `decode` is `WordDecoder.DecodeHeader`, which calls a package for character sets.
module _ (decode : Bytes → Bytes) where
  -- What the header must say, when its fields are read.
  unfoldable pub check_header : ℕ → Bytes → Bytes → Proposal → Result Proposal
  check_header header_length title offset p =
      if header_length == length title + length offset + 2
      then (let (n, valid) = atoi offset in
          if valid
          then (if eq_ℤ n p.offset
              then ok (record p { title = decode title })
              else err (offset_mismatch p.offset n))
          else err offset_not_integer)
      else err (header_length_mismatch header_length (length title + length offset + 2))

  -- The header behind its first byte.
  unfoldable pub read_header : Bytes → Proposal → Result (Proposal × Bytes)
  read_header s p = do
    (header_length, s₁) ← read_byte s
    (title, s₂) ← read_field title_unparsed s₁
    (offset, s₃) ← read_field offset_unparsed s₂
    p' ← check_header header_length title offset p
    ok (p', s₃)

  -- The data behind the header.
  unfoldable pub read_data : Bytes → Proposal → Result (Proposal × Bytes)
  read_data s p = do
    (buf, rest) ← read_blocks (suc (length s)) p.compressed_size s (record { buf = []; sum = 0 })
    ok (record p { compressed_data = buf }, rest)

  -- The line behind a '*' is reported as the error.
  unfoldable pub cms_line : Bytes → Result (Proposal × Bytes)
  cms_line s = elim (next_line s) [
    | ok (line, rest) ↦ err (cms_error line)
    | err e ↦ err (cms_error (line_text s e))
    | panic ↦ panic
  ]

  -- The proposal with its title and data, and what follows on the connection.
  unfoldable pub read_compressed : Bytes → Proposal → Result (Proposal × Bytes)
  read_compressed [] p = err eof
  read_compressed (c ∷ s) p =
      if c == chr_soh
      then (read_header s p >>= λ r. read_data r.1 r.0)
      else (if c == b'*' then cms_line s else err (bad_first_byte c))
