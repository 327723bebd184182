-- ===== src/Lzhuf/Put.antt =====
-- lzhuf/writer.go: putCode and encodeEnd. The buffer is a bytes.Buffer, whose writes never fail. An
-- uint has 64 bits.
pub mod Stream
pub mod Buffer
pub mod Append
pub mod End
use wl2k_go.Prelude.{
  ℕ, ◌+◌, ◌-◌, ◌*◌, ◌/◌, ◌%◌, ◌^◌, List, [], ◌∷◌, ◌++◌, Bytes, bit_or, ltb, ◌==◌, if◌then◌else◌,
}
use wl2k_go.Lzhuf.Bits.{shr, shl}

-- The fields of the writer that hold the bits: `buf`, `putbuf` and `putlen`.
pub record Put : Type 0 where
  pub buf : Bytes
  pub putbuf : ℕ
  pub putlen : ℕ

abbrev pub uint : ℕ → ℕ
uint x = x % 2 ^ 64

-- The test behind the first byte: a second byte, or the rest of the buffer.
abbrev second_byte : ℕ → ℕ → Put → Put
second_byte l c s =
    let left = s.putlen - 8 in
    if ltb s.putlen 8 then record s { putbuf = uint (s.putbuf * 256) } else record {
      buf = s.buf ++ s.putbuf % 256 ∷ [];
      putbuf = uint (shl c (l - left));
      putlen = left;
    }

abbrev first_byte : ℕ → ℕ → Put → Put
first_byte l c s =
    if ltb s.putlen 8
    then s
    else second_byte l c
        (record s { buf = s.buf ++ s.putbuf / 256 % 256 ∷ []; putlen = s.putlen - 8 })

-- `putCode`: the highest `l` bits of a code of 16 bits.
unfoldable pub put_code : ℕ → ℕ → Put → Put
put_code l c s =
    first_byte l c
      (record s { putbuf = bit_or s.putbuf (shr c s.putlen); putlen = (s.putlen + l) % 256 })

-- `encodeEnd`.
unfoldable pub encode_end : Put → Put
encode_end s = if s.putlen == 0 then s else record s { buf = s.buf ++ s.putbuf / 256 % 256 ∷ [] }
