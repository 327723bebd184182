-- ===== src/Lzhuf/Reader.antt =====
-- lzhuf/reader.go: the Reader. The buffered reader below it has read, and summed up, the whole input when the end of the
-- file is decoded.
mod Tests
pub mod Tokens
pub mod Window
pub mod RoundTrip
pub mod File
pub mod Whole
use wl2k_go.Prelude.{
  ℕ, zero, suc, ◌+◌, ◌-◌, ◌*◌, ◌/◌, ◌%◌, Bool, true, false, not, ◌&&◌, ◌||◌, Option, none, some,
  List, [], ◌∷◌, ◌++◌, Bytes, ltb, leb, ◌==◌, if◌then◌else◌, length, take, drop,
}
use wl2k_go.Prelude.Int.{ℤ, pos, negsuc, eq_ℤ, ltb_ℤ}
use wl2k_go.Go.Result.{Result as Outcome, ok, err, panic}
use wl2k_go.Lzhuf.Crc.{crc}
use wl2k_go.Lzhuf.Put.{Put}
use wl2k_go.Lzhuf.Read.{BitReader}
use wl2k_go.Lzhuf.Tree.{Array, Tree, store, root, new_lzhuff}
use wl2k_go.Lzhuf.Coder.{decode_char, decode_position}
use wl2k_go.Lzhuf.Search.{buffer_size, lookahead, threshold}
use wl2k_go.Lzhuf.Writer.{Token, literal, copy}

pub data Error : Type 0 where
  eof unexpected_eof checksum : Error

-- The fields of `Reader` and of its `lzhuf`. `sum` is what the checksum of the input will be.
pub record Reader : Type 0 where
  pub bits : BitReader
  pub tree : Tree
  pub text : Array
  pub crc16 : Bool
  pub header_crc : ℕ
  pub sum : ℕ
  pub size : ℤ
  pub at : ℕ
  pub r : ℕ
  pub buf : Bytes
  pub err : Option Error

-- `binary.Read` of `n` bytes in little-endian order.
unfoldable pub read_little_endian : ℕ → Bytes → Outcome Error (ℕ × Bytes)
read_little_endian zero s = ok (0, s)
read_little_endian (suc n) [] = err eof
read_little_endian (suc n) (b ∷ s) = elim (read_little_endian n s) [
  | ok (x, rest) ↦ ok (x * 256 + b, rest)
  | err e ↦ err unexpected_eof
  | panic ↦ panic
]

abbrev pub int32 : ℕ → ℤ
int32 x = if ltb x 0x80000000 then pos x else negsuc (0xffffffff - x)

-- `NewReader` behind the checksum of the header. Of the input of this point, the rest is summed up.
unfoldable pub sized_reader : Bool → ℕ → Bytes → Outcome Error Reader
unfolding read_little_endian
sized_reader crc16 header_crc s = elim (read_little_endian 4 s) [
  | ok (size, rest) ↦ ok (record {
    bits = record { rest = rest; n = 0; bits = 0; failed = false };
    tree = new_lzhuff;
    text = λ i. if ltb i (buffer_size - lookahead) then b' ' else 0;
    crc16 = crc16;
    header_crc = header_crc;
    sum = crc s;
    size = int32 size;
    at = 0;
    r = buffer_size - root;
    buf = [];
    err = none;
  })
  | err e ↦ err e
  | panic ↦ panic
]

-- `NewReader`.
unfoldable pub new_reader : Bool → Bytes → Outcome Error Reader
unfolding sized_reader
new_reader false s = sized_reader false 0 s
new_reader true s = elim (read_little_endian 2 s) [
  | ok (sum, rest) ↦ sized_reader true sum rest
  | err e ↦ err e
  | panic ↦ panic
]

-- `decodeChar`, and `decodePosition` if the character stands for a text that has been before.
abbrev pub read_position : ℕ → BitReader → Tree → Token × BitReader × Tree
read_position c r z =
    let (r', position) = decode_position r in (copy (c + threshold - 255) position, r', z)

abbrev pub got_token : Option (BitReader × ℕ × Tree) → Option (Token × BitReader × Tree)
got_token none = none
got_token (some (r, c, z)) =
    if ltb c 256 then some (literal c, r, z) else some (read_position c r z)

unfoldable pub decode_token : Tree → BitReader → Option (Token × BitReader × Tree)
decode_token z r = got_token (decode_char z r)

-- A byte that is decoded: into the text buffer (`advanceState`), and to the caller or, behind the room that he
-- gave, to the buffer of bytes that have not been read.
unfoldable pub deliver : ℕ → ℕ → Reader × Bytes → Reader × Bytes
deliver room c (d, out) =
    let stored = record d {
      text = store d.r c d.text;
      r = (d.r + 1) % buffer_size;
      at = d.at + 1;
    } in
    if ltb (length out) room
    then (stored, out ++ c ∷ [])
    else (record stored { buf = d.buf ++ c ∷ [] }, out)

-- The loop over a text that has been before, from the place `i` on.
unfoldable pub copy_text : ℕ → ℕ → ℕ → Reader × Bytes → Reader × Bytes
unfolding deliver
copy_text zero i room x = x
copy_text (suc k) i room x = copy_text k (i + 1) room (deliver room (x.0.text (i % buffer_size)) x)

-- What the loop of `Read` does with a token.
unfoldable pub use_token : ℕ → Token → Reader × Bytes → Reader × Bytes
unfolding deliver copy_text
use_token room (literal c) x = deliver room c x
use_token room (copy n position) x =
    copy_text n ((x.0.r + 2 * buffer_size - position - 1) % buffer_size) room x

-- The loop of `Read`. Each round gives a byte at least.
unfoldable pub read_loop : ℕ → ℕ → Reader × Bytes → Option (Reader × Bytes)
unfolding decode_token use_token
read_loop zero room x = some x
read_loop (suc f) room (d, out) =
    let rest : Option (Reader × Bytes) = elim (decode_token d.tree d.bits) [
      | none ↦ none
      | some (token, bits, tree) ↦
          read_loop f room (use_token room token (record d { bits = bits; tree = tree }, out))
    ] in
    if ltb (length out) room && not d.bits.failed && ltb_ℤ (pos d.at) d.size
    then rest
    else some (d, out)

-- `Read` behind its tests.
unfoldable pub read_on : ℕ → Reader → Option (Reader × Bytes)
unfolding read_loop
read_on room d = read_loop room room (record d { buf = drop room d.buf }, take room d.buf)

abbrev pub without_error : Option (Reader × Bytes) → Option (Reader × Bytes × Option Error)
without_error none = none
without_error (some (d, out)) = some (d, out, none)

-- The error of the bit reader, which is kept.
abbrev pub note_error : Reader → Reader
note_error d = if d.bits.failed then record d { err = some unexpected_eof } else d

-- `Read` into `room` bytes, with the error that it returns.
unfoldable pub read : ℕ → Reader → Option (Reader × Bytes × Option Error)
unfolding read_on
read room d =
    if not d.bits.failed && eq_ℤ (pos d.at) d.size && length d.buf == 0
    then some (d, [], some eof)
    else elim (note_error d).err [
      | some e ↦ some (note_error d, [], some e)
      | none ↦ without_error (read_on room (note_error d))
    ]

-- The rest of `Close`, when `Read` has kept no error.
abbrev pub close_checked : Reader → Option Error
close_checked d =
    if d.bits.failed
    then some unexpected_eof
    else (if d.crc16 && not (d.header_crc == d.sum)
        then some checksum
        else (if eq_ℤ d.size (pos (d.at - length d.buf)) then none else some checksum))

-- `Close` of the reader: none if the file was decoded without an error.
unfoldable pub close_reader : Reader → Option Error
close_reader d = elim d.err [ some e ↦ some e | none ↦ close_checked d ]
