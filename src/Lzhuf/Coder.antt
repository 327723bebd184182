-- ===== src/Lzhuf/Coder.antt =====
-- lzhuf/writer.go and lzhuf/reader.go: the codes of characters and of positions.
pub mod Encode
pub mod Char
pub mod RoundTrip
pub mod Loop
pub mod Place
pub mod Tests
use wl2k_go.Prelude.{
  ℕ, zero, suc, ◌+◌, ◌-◌, ◌*◌, ◌/◌, ◌%◌, Bool, true, false, Option, none, some, ltb, ◌==◌, get_or,
  bit_or, if◌then◌else◌,
}
use wl2k_go.Lzhuf.Position.{p_code, p_len, d_code, d_len}
use wl2k_go.Lzhuf.Put.{Put, put_code}
use wl2k_go.Lzhuf.Read.{BitReader, read_bits}
use wl2k_go.Lzhuf.Tree.{Tree, root, table_size, update}

-- The loop of `encodeChar` from a leaf to the root: the length of the code, and the code. Without an end
-- within the fuel there is none.
unfoldable pub code_loop : ℕ → Tree → ℕ → ℕ → ℕ → Option (ℕ × ℕ)
code_loop zero z k i j = none
code_loop (suc f) z k i j =
    let i' = i / 2 + (if k % 2 == 0 then 0 else 0x8000) in
    let more = code_loop f z (z.prnt k) i' (suc j) in
    if z.prnt k == root then some (suc j, i') else more

-- The code is put, and the tree is told of the character.
abbrev pub put_char : ℕ → Tree → Put → Option (ℕ × ℕ) → Option (Put × Tree)
put_char c z s none = none
put_char c z s (some (j, i)) = some (put_code j i s, update c z)

-- `encodeChar`.
unfoldable pub encode_char : ℕ → Tree → Put → Option (Put × Tree)
encode_char c z s = put_char c z s (code_loop table_size z (z.prnt (c + table_size)) 0 0)

-- The loop of `decodeChar` from a node to a leaf.
unfoldable pub decode_loop : ℕ → Tree → ℕ → BitReader → Option (BitReader × ℕ)
decode_loop zero z c r = none
decode_loop (suc f) z c r =
    let (r', b) = read_bits 1 r in
    let more = decode_loop f z (z.son (c + b)) r' in
    if ltb c table_size then more else some (r, c - table_size)

abbrev pub got_char : Tree → Option (BitReader × ℕ) → Option (BitReader × ℕ × Tree)
got_char z none = none
got_char z (some (r, c)) = some (r, c, update c z)

-- `decodeChar`.
unfoldable pub decode_char : Tree → BitReader → Option (BitReader × ℕ × Tree)
decode_char z r = got_char z (decode_loop table_size z (z.son root) r)

-- `encodePosition`: the upper six bits by table, and the lower six as they are.
unfoldable pub encode_position : ℕ → Put → Put
encode_position c s =
    let i = c / 64 in
    put_code 6 (c % 64 * 1024) (put_code (get_or p_len i 0) (get_or p_code i 0 * 256) s)

-- The loop of `decodePosition` over the bits that are left.
unfoldable pub position_loop : ℕ → ℕ → BitReader → BitReader × ℕ
position_loop zero i r = (r, i)
position_loop (suc j) i r = let (r', b) = read_bits 1 r in position_loop j (i * 2 + b) r'

-- `decodePosition`.
unfoldable pub decode_position : BitReader → BitReader × ℕ
decode_position r =
    let (r', i) = read_bits 8 r in
    let (q, low) = position_loop (get_or d_len i 0 - 2) i r' in
    (q, bit_or (get_or d_code i 0 * 64) (low % 64))
