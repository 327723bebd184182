-- ===== src/Lzhuf/Reader/Whole.antt =====
-- A file of tokens, packed and read again.
use wl2k_go.Prelude.{
  ℕ, zero, suc, ◌+◌, ◌-◌, ◌*◌, ◌%◌, ◌≤◌, ◌<◌, ◌≡◌, refl, sym, ap, ◌∙◌, Option, none, some, List, [],
  ◌∷◌, ◌++◌, Bytes, arith, length, length-append, true, false, Bool, not, ◌&&◌, ltb, ◌==◌,
  if◌then◌else◌,
}
use wl2k_go.Prelude.Int.{pos}
use wl2k_go.Go.Result.{ok}
use wl2k_go.Go.Sort.{All}
use wl2k_go.Lzhuf.Bits.{bits_of}
use wl2k_go.Lzhuf.Put.{Put, encode_end}
use wl2k_go.Lzhuf.Put.Stream.{stream, AreBytes}
use wl2k_go.Lzhuf.Put.End.{stream-encode_end, AreBytes-encode_end}
use wl2k_go.Lzhuf.Read.{BitReader}
use wl2k_go.Lzhuf.Tree.{Array, Tree, root, new_lzhuff}
use wl2k_go.Lzhuf.Tree.Keeps.{new-total, new_lzhuff-IsTree}
use wl2k_go.Lzhuf.Search.{buffer_size, lookahead}
use wl2k_go.Lzhuf.Writer.{Token, literal, copy, file_bytes}
use wl2k_go.Lzhuf.Reader.{
  Reader, eof, new_reader, read, read_loop, read_on, close_reader, without_error,
}
use wl2k_go.Lzhuf.Reader.Tokens.{
  IsToken, encode_tokens, update_all, AreCoded, tokens-AreCoded, encode_tokens-AreCoded, nothing,
  nothing-Holds,
}
use wl2k_go.Lzhuf.Reader.Window.{Window, push_all, expand_token, expand, InStep, length-repeat}
use wl2k_go.Lzhuf.Reader.RoundTrip.{later, read_loop-AreCoded, expand_token-some}
use wl2k_go.Lzhuf.Reader.File.{opened, header_of, new_reader-file_bytes}

-- What stands before the text: spaces, and the zeros of the end of the buffer.
abbrev pub before : Window
before =
    λ i. if ltb ((2048 - root + 2047 - i) % buffer_size) (buffer_size - lookahead) then b' ' else 0

expand_token_le : (t : Token) (h : Window) → IsToken t → length (expand_token t h) ≤ lookahead
expand_token_le (literal c) h is = omega arith
expand_token_le (copy n position) h is = omega (arith, length-repeat n position h, is.1)

expand_le :
    (ts : List Token) (h : Window) → All IsToken ts → length (expand ts h) ≤ lookahead * length ts
expand_le [] h is = omega arith
expand_le (t ∷ ts) h (i, is) =
    let s = expand_token t h in
    let rest = expand_le ts (push_all s h) is in
    omega (arith, expand_token_le t h i, rest, length-append {0} s (expand ts (push_all s h)))

expand_ge : (ts : List Token) (h : Window) → All IsToken ts → length ts ≤ length (expand ts h)
expand_ge [] h is = omega arith
expand_ge (t ∷ ts) h (i, is) =
    let s = expand_token t h in
    let rest = expand_ge ts (push_all s h) is in
    omega (arith, expand_token-some t h i, rest, length-append {0} s (expand ts (push_all s h)))

opened-InStep :
    (crc16 : Bool) (header_crc sum size : ℕ) (data' : Bytes)
    → (let d = opened crc16 header_crc sum size data' in InStep d.text d.r before)
opened-InStep crc16 header_crc sum size data' = record { inside = omega arith; seen = λ i lt. refl }

-- Of a reader that has just been opened, `Read` is its loop.
read-loop :
    (crc16 : Bool) (header_crc sum size room : ℕ) (data' : Bytes)
    → 0 < size
    → (let d = opened crc16 header_crc sum size data' in
        read room d ≡ without_error (read_loop room room (d, [])))
unfolding read read_on
read-loop crc16 header_crc sum size zero data' some_size =
    let more : (0 == size) ≡ false = ground arith in rw (read, more) refl
read-loop crc16 header_crc sum size (suc room) data' some_size =
    let more : (0 == size) ≡ false = ground arith in rw (read, more) refl

-- A reader at the end of its text.
module _ (crc16 : Bool) (sum size : ℕ) (data' : Bytes) (bits : BitReader) (tree : Tree)
    (text : Array) (r : ℕ) (fine : bits.failed ≡ false) where
  abbrev ended : Reader
  ended = later (opened crc16 (header_of crc16 sum) sum size data') bits tree text r size

  read-ended : (room : ℕ) → read room ended ≡ some (ended, [], some eof)
  unfolding read
  read-ended room = let same : (size == size) ≡ true = ground arith in rw (fine, same) refl

  close_reader-ended : close_reader ended ≡ none
  unfolding close_reader
  close_reader-ended =
      let same : (size == size - 0) ≡ true = ground arith in
      let right : (crc16 && not (header_of crc16 sum == sum)) ≡ false = ground arith in
      rw (fine, right, same) refl

-- A file of tokens: their codes behind the header of `Close`.
abbrev pub packed : Bool → List Token → Option Bytes
packed crc16 ts = elim (encode_tokens ts new_lzhuff nothing) [
  | none ↦ none
  | some (s, z) ↦ some (file_bytes crc16 (length (expand ts before)) (encode_end s).buf)
]

-- A file that is opened, read with so much room, and closed.
pub record IsRead (crc16 : Bool) (room : ℕ) (file text : Bytes) : Type 0 where
  pub at_first : Reader
  pub at_last : Reader
  pub opened_eq : new_reader crc16 file ≡ ok at_first
  pub read_eq : read room at_first ≡ some (at_last, text, none)
  pub end_eq : (more : ℕ) → read more at_last ≡ some (at_last, [], some eof)
  pub closed_eq : close_reader at_last ≡ none

IsRead-opened :
    (crc16 : Bool) (room sum : ℕ) (file data' : Bytes) (ts : List Token) (code pad : List ℕ)
    → All IsToken ts
    → AreCoded new_lzhuff ts code
    → 0 < length ts
    → length (expand ts before) ≤ room
    → AreBytes data'
    → stream data' ≡ code ++ pad
    → new_reader crc16 file
      ≡ ok (opened crc16 (header_of crc16 sum) sum (length (expand ts before)) data')
    → IsRead crc16 room file (expand ts before)
unfolding bits_of
IsRead-opened crc16 room sum file data' ts code pad is coded some_token fits bytes stream_eq o =
    let size = length (expand ts before) in
    let d = opened crc16 (header_of crc16 sum) sum size data' in
    let some_byte : 0 < size = omega (arith, expand_ge ts before is) in
    let from_start : size ≡ 0 + size = omega arith in
    let g =
      read_loop-AreCoded coded is room room d before [] pad refl (bytes, refl) stream_eq
        (opened-InStep crc16 (header_of crc16 sum) sum size data') (ap pos from_start) (omega arith)
        (omega (arith, expand_ge ts before is)) in
    record {
      at_first = d;
      at_last = ended crc16 sum size data' g.bits g.tree g.text g.r g.fine;
      opened_eq = o;
      read_eq =
          read-loop crc16 (header_of crc16 sum) sum size room data' some_byte
          ∙ ap without_error g.result
          ∙ ap (λ n. some (later d g.bits g.tree g.text g.r n, expand ts before, none))
              (sym from_start);
      end_eq = read-ended crc16 sum size data' g.bits g.tree g.text g.r g.fine;
      closed_eq = close_reader-ended crc16 sum size data' g.bits g.tree g.text g.r g.fine;
    }

pub packed-encode_tokens :
    (crc16 : Bool) (ts : List Token) (s : Put) (z : Tree)
    → encode_tokens ts new_lzhuff nothing ≡ some (s, z)
    → packed crc16 ts ≡ some (file_bytes crc16 (length (expand ts before)) (encode_end s).buf)
packed-encode_tokens crc16 ts s z e = rw (packed, e) refl

-- Some tokens, at least one and at most 3867 of them, are encoded and packed with or without a checksum. Each is a
-- byte, or a copy of 3 to 60 bytes from a place in the buffer. The file that comes of it is opened without an error;
-- a Read with room for all of it gives the text that the tokens stand for; each later Read reports the end, and Close
-- finds no error.
pub packed-IsRead :
    (crc16 : Bool) (room : ℕ) (ts : List Token)
    → All IsToken ts
    → 0 < length ts
    → length ts ≤ 3867
    → length (expand ts before) ≤ room
    → (file : Bytes) × (packed crc16 ts ≡ some file) × IsRead crc16 room file (expand ts before)
packed-IsRead crc16 room ts is some_token few fits =
    let (code, coded) =
      tokens-AreCoded ts new_lzhuff is new_lzhuff-IsTree (omega (arith, new-total)) in
    let (s, e, held) = encode_tokens-AreCoded coded nothing [] nothing-Holds in
    let data' = (encode_end s).buf in
    let (pad, stream_eq) = stream-encode_end s code held in
    let bytes = AreBytes-encode_end s code held in
    let (sum, o) =
      new_reader-file_bytes crc16 (length (expand ts before)) data'
        (omega (arith, expand_le ts before is)) bytes in
    let file = file_bytes crc16 (length (expand ts before)) data' in
    (
      file,
      packed-encode_tokens crc16 ts s (update_all ts new_lzhuff) e,
      IsRead-opened crc16 room sum file data' ts code pad is coded some_token fits bytes stream_eq
          o,
    )
