-- ===== src/Lzhuf/Reader/Tests.antt =====
-- Files of the compression, written and read.
use wl2k_go.Prelude.{◌≡◌, refl, some, List, [], ◌∷◌, Bytes, arith, true}
use wl2k_go.Lzhuf.Bits.{shr}
use wl2k_go.Lzhuf.Crc.{crc, add_bytes, udp_crc16}
use wl2k_go.Lzhuf.Put.{put_code, encode_end}
use wl2k_go.Lzhuf.Tree.{new_lzhuff, new_nodes, new_leaves}
use wl2k_go.Lzhuf.Coder.{encode_char, code_loop}
use wl2k_go.Lzhuf.Writer.{Token, literal, copy, file_bytes}
use wl2k_go.Lzhuf.Reader.Tokens.{encode_tokens}
use wl2k_go.Lzhuf.Reader.Window.{expand}
use wl2k_go.Lzhuf.Reader.Whole.{before, packed, IsRead, packed-IsRead}

abbrev some_tokens : List Token
some_tokens = literal b'a' ∷ literal b'b' ∷ copy 5 1 ∷ literal b'!' ∷ []

some_tokens_text :
    expand some_tokens before ≡ (b'a' ∷ b'b' ∷ b'a' ∷ b'b' ∷ b'a' ∷ b'b' ∷ b'a' ∷ b'!' ∷ [])
some_tokens_text = refl

packed-IsRead_example :
    (file : Bytes) × (packed true some_tokens ≡ some file)
    × IsRead true 100 file (b'a' ∷ b'b' ∷ b'a' ∷ b'b' ∷ b'a' ∷ b'b' ∷ b'a' ∷ b'!' ∷ [])
packed-IsRead_example =
    packed-IsRead true 100 some_tokens
      (omega arith, (omega arith, ((omega arith, omega arith, omega arith), (omega arith, tt))))
      (omega arith) (omega arith) (omega arith)

-- A file of the repository's tests.
packed_newline :
    packed true (literal 10 ∷ []) ≡ some (0xe ∷ 0x8f ∷ 0x1 ∷ 0x0 ∷ 0x0 ∷ 0x0 ∷ 0xcb ∷ 0x0 ∷ [])
unfolding encode_tokens encode_char code_loop new_lzhuff new_nodes new_leaves file_bytes crc
    encode_end add_bytes put_code udp_crc16 shr
packed_newline = refl
