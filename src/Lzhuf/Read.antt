-- ===== src/Lzhuf/Read.antt =====
-- lzhuf/bit_reader.go: the reader of bits. An uint64 drops the high bits that do not fit.
pub mod Stream
use wl2k_go.Prelude.{
  ℕ, zero, suc, ◌+◌, ◌-◌, ◌*◌, ◌%◌, ◌^◌, Bool, true, false, List, [], ◌∷◌, Bytes, bit_or, ltb,
  if◌then◌else◌,
}
use wl2k_go.Lzhuf.Bits.{shr, shl}

-- The fields of `bitReader`, and the bytes that have not been read. The only error of these is their end, which is
-- kept as io.ErrUnexpectedEOF.
pub record BitReader : Type 0 where
  pub rest : Bytes
  pub n : ℕ
  pub bits : ℕ
  pub failed : Bool

-- The loop of `ReadBits64`, and whether it came to its end. A round adds eight bits, so as many rounds as
-- bits are asked for are enough.
unfoldable pub fill : ℕ → ℕ → BitReader → BitReader × Bool
fill zero want r = (r, true)
fill (suc f) want r = elim r.rest [
  | [] ↦ if ltb r.bits want then (record r { failed = true }, false) else (r, true)
  | b ∷ rest ↦
      let more =
        fill f want
          (record r { rest = rest; n = bit_or (r.n * 256 % 2 ^ 64) b; bits = r.bits + 8 }) in
      if ltb r.bits want then more else (r, true)
]

-- `ReadBits64`: the bits as a number, 0 at the end of the input.
unfoldable pub read_bits : ℕ → BitReader → BitReader × ℕ
unfolding fill
read_bits want r =
    let (r', done) = fill want want r in
    if done
    then (record r' { bits = r'.bits - want }, shr r'.n (r'.bits - want) % shl 1 want)
    else (r', 0)
