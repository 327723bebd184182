-- ===== src/Ardop.antt =====
-- transport/ardop/frame.go, crc16.go, and the bytes of conn.go's Write: the frames between the program and a
-- modem (TNC) of the ARDOP protocol.
pub mod RoundTrip
pub mod Faults
pub mod Tests
use wl2k_go.Prelude.{
  ℕ, zero, suc, ◌+◌, ◌-◌, ◌*◌, ◌/◌, ◌%◌, ◌^◌, Bool, true, false, Option, none, some, List, [], ◌∷◌,
  ◌++◌, Bytes, bit_xor, ltb, ◌==◌, if◌then◌else◌, length, take, drop, replicate, min, get_or,
}
use wl2k_go.Go.Result.{Result as Outcome, ok, err, panic, ◌>>=◌}
use wl2k_go.Go.Strings.{codes, cut_at}

abbrev pub polynomial : ℕ
polynomial = 0x8810

-- One bit of the data into a sum of 16 bits.
abbrev crc16_bit : ℕ → ℕ → ℕ
crc16_bit bit sum =
    let shifted = sum * 2 % 65536 + bit in
    if ltb 0x7fff sum then bit_xor shifted polynomial else shifted

-- The `k` lower bits of a byte, the highest of them first.
unfoldable pub crc16_byte : ℕ → ℕ → ℕ → ℕ
crc16_byte zero b sum = sum
crc16_byte (suc k) b sum = crc16_byte k b (crc16_bit (b / 2 ^ k % 2) sum)

unfoldable pub crc16_bytes : Bytes → ℕ → ℕ
unfolding crc16_byte
crc16_bytes [] sum = sum
crc16_bytes (b ∷ data') sum = crc16_bytes data' (crc16_byte 8 b sum)

-- `crc16Sum`.
unfoldable pub crc16_sum : Bytes → ℕ
unfolding crc16_bytes
crc16_sum data' = crc16_bytes data' 0xffff

-- A `uint16` in big-endian order.
abbrev pub big_endian : ℕ → Bytes
big_endian n = n / 256 ∷ n % 256 ∷ []

-- `cmdFrame` and `dFrame`.
pub data Frame : Type 0 where
  cmd_frame : Bytes → Frame
  d_frame : Bytes → Bytes → Frame

pub data Error : Type 0 where
  eof checksum_mismatch : Error
  unexpected_frame_type : ℕ → Error

-- The checksum behind the bytes, on a connection that is not TCP.
abbrev pub checksum : Bool → Bytes → Bytes
checksum true payload = []
checksum false payload = big_endian (crc16_sum payload)

abbrev pub prefix : Bool → Bytes → Bytes
prefix true word = []
prefix false word = word

-- `writeCtrlFrame`, of a text that is formatted.
unfoldable pub write_ctrl_frame : Bool → Bytes → Bytes
unfolding crc16_sum
write_ctrl_frame is_tcp text =
    prefix is_tcp (codes "C:") ++ ((text ++ 13 ∷ []) ++ checksum is_tcp (text ++ 13 ∷ []))

-- What `Write` of a connection sends of `p`: the count has 16 bits, and longer data is cut off.
unfoldable pub clip : Bytes → Bytes
clip p = if ltb 65535 (length p) then take 65535 p else p

abbrev pub sized : Bytes → Bytes
sized p = big_endian (length (clip p)) ++ clip p

unfoldable pub write_data : Bool → Bytes → Bytes
unfolding crc16_sum
write_data is_tcp p = prefix is_tcp (codes "D:") ++ (sized p ++ checksum is_tcp (sized p))

-- The types in front of a frame: behind a '*' stands the type, and one more byte that is not looked at.
unfoldable pub frame_type : ℕ → Bytes → Option (ℕ × Bytes)
frame_type t [] = if t == b'*' then none else some (t, [])
frame_type t (x ∷ []) = if t == b'*' then frame_type x [] else some (t, x ∷ [])
frame_type t (x ∷ y ∷ s) =
    let rest = frame_type x s in if t == b'*' then rest else some (t, x ∷ y ∷ s)

-- The bytes that are there, and zeros up to `n`: a buffer of `n` that is read into.
abbrev pub padded : ℕ → Bytes → Bytes
padded n s = take n s ++ replicate (n - length (take n s)) 0

-- `binary.BigEndian.Uint16` of two bytes.
abbrev pub uint16 : Bytes → ℕ
uint16 s = get_or s 0 0 * 256 + get_or s 1 0

-- The check of the sum. One call of `Read` gives `got` bytes of it, two at most, and its error is not
-- looked at.
unfoldable pub verify : Bool → ℕ → Bytes → Bytes → Outcome Error Bytes
unfolding crc16_sum
verify true got data' s = ok s
verify false got data' s =
    let n = min got 2 in
    if crc16_sum data' == uint16 (padded 2 (take n s)) then ok (drop n s) else err checksum_mismatch

-- `dFrame{dataType: string(data[2:5]), data: data[5:]}`, which panics if there are less than 5 bytes.
unfoldable pub data_frame : Bytes → Bytes → Outcome Error (Frame × Bytes)
data_frame data' rest =
    if ltb (length data') 5
    then panic
    else ok (d_frame (take 3 (drop 2 data')) (drop 5 data'), rest)

-- The case 'c': a command ends with a carriage return.
unfoldable pub read_command : Bool → ℕ → Bytes → Outcome Error (Frame × Bytes)
unfolding verify
read_command is_tcp got s = elim (cut_at 13 s) [
  | none ↦ err eof
  | some (line, rest) ↦
      verify is_tcp got (line ++ 13 ∷ []) rest >>= λ after. ok (cmd_frame line, after)
]

-- The case 'd': two bytes of length stand in front of the data, and are read with it. The length has 16
-- bits. An error in the loop of `Read` goes to the variable of the case alone: it is lost, and the
-- buffer stays zero where nothing was read.
unfoldable pub read_data : Bool → ℕ → Bytes → Outcome Error (Frame × Bytes)
unfolding verify data_frame
read_data is_tcp got [] = err eof
read_data is_tcp got (x ∷ []) = err eof
read_data is_tcp got (x ∷ y ∷ s) =
    let n = (uint16 (x ∷ y ∷ []) + 2) % 65536 in
    verify is_tcp got (padded n (x ∷ y ∷ s)) (drop n (x ∷ y ∷ s)) >>= λ after.
    data_frame (padded n (x ∷ y ∷ s)) after

-- `readFrameOfType`.
unfoldable pub read_frame_of_type : Bool → ℕ → ℕ → Bytes → Outcome Error (Frame × Bytes)
unfolding read_command read_data frame_type
read_frame_of_type is_tcp got t s = elim (frame_type t s) [
  | none ↦ err eof
  | some (t', s') ↦
      if t' == b'c'
      then read_command is_tcp got s'
      else (if t' == b'd' then read_data is_tcp got s' else err (unexpected_frame_type t'))
]
