-- ===== src/Lzhuf/Writer.antt =====
-- lzhuf/writer.go: the Writer. The numbers of a file's size are written in little-endian order; the buffers in memory
-- never fail.
mod Tests
use wl2k_go.Prelude.{
  ℕ, zero, suc, ◌+◌, ◌-◌, ◌/◌, ◌%◌, Bool, false, Option, none, some, [], ◌∷◌, ◌++◌, Bytes, ltb, leb,
  ◌==◌, if◌then◌else◌,
}
use wl2k_go.Lzhuf.Crc.{crc}
use wl2k_go.Lzhuf.Put.{Put, encode_end}
use wl2k_go.Lzhuf.Tree.{Tree, store, new_lzhuff}
use wl2k_go.Lzhuf.Coder.{encode_char, encode_position}
use wl2k_go.Lzhuf.Search.{
  Search, buffer_size, lookahead, threshold, init_tree, insert_node, delete_node,
}

-- What is encoded at once: a byte, or the length and the distance of a text that has been before.
pub data Token : Type 0 where
  literal : ℕ → Token
  copy : ℕ → ℕ → Token

-- The calls of `encodeChar` and `encodePosition` in `encode`.
abbrev pub with_position : ℕ → Option (Put × Tree) → Option (Put × Tree)
with_position position none = none
with_position position (some (s, z)) = some (encode_position position s, z)

unfoldable pub encode_token : Token → Tree → Put → Option (Put × Tree)
encode_token (literal c) z s = encode_char c z s
encode_token (copy n position) z s = with_position position (encode_char (255 - threshold + n) z s)

-- The fields of `Writer` and of its `lzhuf`.
pub record Writer : Type 0 where
  pub crc16 : Bool
  pub search : Search
  pub tree : Tree
  pub put : Put
  pub len : ℕ
  pub r : ℕ
  pub s : ℕ
  pub last_match_length : ℕ
  pub pre_filled : Bool
  pub file_size : ℕ

-- `NewWriter`.
unfoldable pub new_writer : Bool → Writer
unfolding init_tree
new_writer crc16 = record {
  crc16 = crc16;
  search = record init_tree { text = λ i. if ltb i (buffer_size - lookahead) then b' ' else 0 };
  tree = new_lzhuff;
  put = record { buf = []; putbuf = 0; putlen = 0 };
  len = 0;
  r = buffer_size - lookahead;
  s = 0;
  last_match_length = 0;
  pre_filled = false;
  file_size = 0;
}

-- `encode`.
unfoldable pub encode : Writer → Option Writer
unfolding encode_token
encode w =
    let found = w.search.match_length in
    let n = if ltb w.len found then w.len else found in
    let m = if leb n threshold then 1 else n in
    let token =
      if leb n threshold then literal (w.search.text w.r) else copy n w.search.match_position in
    let coded : Option Writer = elim (encode_token token w.tree w.put) [
      | none ↦ none
      | some (put, tree) ↦ some (record w {
        put = put;
        tree = tree;
        search = record w.search { match_length = m };
        last_match_length = m;
      })
    ] in
    if w.len == 0 then some w else coded

-- A byte that is added to the lookahead buffer by `advance`.
unfoldable pub add_byte : Option ℕ → Writer → Writer
add_byte none w = w
add_byte (some c) w =
    let text = store w.s c w.search.text in
    record w {
      search = record w.search {
        text = if ltb w.s (lookahead - 1) then store (w.s + buffer_size) c text else text;
      };
      len = w.len + 1;
    }

-- `advance` behind that byte.
unfoldable pub process_byte : Writer → Option Writer
unfolding insert_node delete_node encode
process_byte w = elim (insert_node w.r w.search) [
  | none ↦ none
  | some z ↦
      let w' = record w { search = z; last_match_length = w.last_match_length - 1 } in
      elim (if w'.last_match_length == 0 then encode w' else some w') [
        | none ↦ none
        | some v ↦ elim (delete_node v.s v.search) [
          | none ↦ none
          | some z' ↦ some (record v {
            search = z';
            s = (v.s + 1) % buffer_size;
            r = (v.r + 1) % buffer_size;
            len = v.len - 1;
          })
        ]
      ]
]

unfoldable pub advance : Option ℕ → Writer → Option Writer
unfolding add_byte process_byte
advance c w = process_byte (add_byte c w)

-- A byte that is written while the lookahead buffer is filled for the first time.
unfoldable pub prefill : ℕ → Writer → Option Writer
unfolding insert_node
prefill c w =
    let len = w.len + 1 in
    let search = record w.search { text = store (w.r + w.len) c w.search.text } in
    elim (insert_node (w.r - len) search) [
      | none ↦ none
      | some z ↦ some (record w {
        search = z;
        len = len;
        last_match_length = 1;
        pre_filled = len == lookahead;
        file_size = w.file_size + 1;
      })
    ]

-- `Write`.
unfoldable pub write_byte : ℕ → Writer → Option Writer
unfolding prefill advance
write_byte c w =
    if w.pre_filled
    then advance (some c) (record w { file_size = w.file_size + 1 })
    else prefill c w

unfoldable pub write_bytes : Bytes → Writer → Option Writer
unfolding write_byte
write_bytes [] w = some w
write_bytes (c ∷ p) w = elim (write_byte c w) [ none ↦ none | some w' ↦ write_bytes p w' ]

-- The loop of `Close`; each round takes a byte from the lookahead buffer.
unfoldable pub flush : ℕ → Writer → Option Writer
unfolding advance
flush zero w = some w
flush (suc f) w =
    let rest : Option Writer = elim (advance none w) [ none ↦ none | some w' ↦ flush f w' ] in
    if ltb 0 w.len then rest else some w

abbrev pub little_endian : ℕ → ℕ → Bytes
little_endian zero x = []
little_endian (suc n) x = x % 256 ∷ little_endian n (x / 256)

-- What `Close` writes: the checksum, the size of the file, and the compressed data.
unfoldable pub file_bytes : Bool → ℕ → Bytes → Bytes
file_bytes crc16 size data' =
    let sized = little_endian 4 size ++ data' in
    if crc16 then little_endian 2 (crc sized) ++ sized else sized

-- `Close`.
unfoldable pub close_writer : Writer → Option Bytes
unfolding flush encode file_bytes
close_writer w = elim (flush w.len w) [
  | none ↦ none
  | some w' ↦ elim (encode w') [
    | none ↦ none
    | some v ↦ some (file_bytes v.crc16 v.file_size (encode_end v.put).buf)
  ]
]

-- The whole use of a Writer: what is written to it, and the file when it is closed.
unfoldable pub compressed : Bool → Bytes → Option Bytes
unfolding write_bytes close_writer new_writer
compressed crc16 s = elim (write_bytes s (new_writer crc16)) [
  | none ↦ none
  | some w ↦ close_writer w
]
