-- ===== src/Lzhuf/Writer/Tests.antt =====
-- Runs of the Writer.
use wl2k_go.Prelude.{◌≡◌, refl, some, [], ◌∷◌, Bytes, true}
use wl2k_go.Lzhuf.Bits.{shr, shl}
use wl2k_go.Lzhuf.Crc.{crc, add_bytes, udp_crc16}
use wl2k_go.Lzhuf.Put.{put_code, encode_end}
use wl2k_go.Lzhuf.Tree.{
  new_lzhuff, new_nodes, new_leaves, update, climb, exchange_nodes, last_equal,
}
use wl2k_go.Lzhuf.Coder.{encode_char, code_loop}
use wl2k_go.Lzhuf.Search.{
  init_tree, last_right, successor, take_place, delete_node, compare_text, note_match, replace_node,
  descend, insert_node,
}
use wl2k_go.Lzhuf.Writer.{
  file_bytes, new_writer, encode_token, encode, add_byte, process_byte, advance, prefill,
  write_byte, write_bytes, flush, close_writer, compressed,
}

-- Two files of the repository's tests.
abbrev newline_file : Bytes
newline_file = 0xe ∷ 0x8f ∷ 0x1 ∷ 0x0 ∷ 0x0 ∷ 0x0 ∷ 0xcb ∷ 0x0 ∷ []

compressed_newline : compressed true (10 ∷ []) ≡ some newline_file
unfolding encode_char code_loop new_lzhuff new_nodes new_leaves file_bytes crc encode_end add_bytes
    put_code udp_crc16 shr init_tree last_right successor take_place delete_node compare_text
    note_match replace_node descend insert_node new_writer encode_token encode add_byte process_byte
    advance prefill write_byte write_bytes flush close_writer compressed
compressed_newline = refl

compressed_foo :
    compressed true (b'f' ∷ b'o' ∷ b'o' ∷ [])
    ≡ some (0xb6 ∷ 0x47 ∷ 0x3 ∷ 0x0 ∷ 0x0 ∷ 0x0 ∷ 0xf9 ∷ 0x7e ∷ 0xf1 ∷ 0x0 ∷ [])
unfolding shl update climb exchange_nodes last_equal encode_char code_loop new_lzhuff new_nodes
    new_leaves file_bytes crc encode_end add_bytes put_code udp_crc16 shr init_tree last_right
    successor take_place delete_node compare_text note_match replace_node descend insert_node
    new_writer encode_token encode add_byte process_byte advance prefill write_byte write_bytes
    flush close_writer compressed
compressed_foo = refl
