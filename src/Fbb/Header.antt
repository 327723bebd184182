-- ===== src/Fbb/Header.antt =====
-- fbb/header.go: the header of a message and its wire format.
pub mod Wire
pub mod Counts
pub mod RoundTrip
pub mod Keep
use wl2k_go.Prelude.{
  ℕ, Bool, true, false, not, List, [], ◌∷◌, ◌++◌, Bytes, Option, none, some, ltb, ◌==◌, ◌||◌, ◌&&◌,
  if◌then◌else◌, map,
}
use wl2k_go.Go.Strings.{codes, bytes_eq, contains}
use wl2k_go.Go.Sort.{stable_sort}
use wl2k_go.Go.Utf8.{decode_rune, valid}
use wl2k_go.Go.Textproto.{Header, lookup, first, trim_string}
use wl2k_go.Fbb.Address.{equal_fold}

abbrev pub header_mid : Bytes
header_mid = codes "Mid"

abbrev pub header_to : Bytes
header_to = codes "To"

abbrev pub header_date : Bytes
header_date = codes "Date"

abbrev pub header_type : Bytes
header_type = codes "Type"

abbrev pub header_from : Bytes
header_from = codes "From"

abbrev pub header_cc : Bytes
header_cc = codes "Cc"

abbrev pub header_subject : Bytes
header_subject = codes "Subject"

abbrev pub header_mbo : Bytes
header_mbo = codes "Mbo"

abbrev pub header_body : Bytes
header_body = codes "Body"

abbrev pub header_file : Bytes
header_file = codes "File"

abbrev pub header_content_type : Bytes
header_content_type = codes "Content-Type"

abbrev pub header_content_transfer_encoding : Bytes
header_content_transfer_encoding = codes "Content-Transfer-Encoding"

-- `Header.get`, for a key in canonical form.
abbrev pub get : Bytes → Header → Bytes
get key h = first (lookup key h)

-- The order of byte strings.
unfoldable pub bytes_less : Bytes → Bytes → Bool
bytes_less [] [] = false
bytes_less [] (d ∷ t) = true
bytes_less (c ∷ s) [] = false
bytes_less (c ∷ s) (d ∷ t) = ltb c d || (c == d && bytes_less s t)

abbrev pub crlf : Bytes
crlf = 13 ∷ 10 ∷ []

-- The verb pair "%s: %s\r\n".
abbrev pub field_line : Bytes → Bytes → Bytes
field_line key value = key ++ b':' ∷ b' ' ∷ (value ++ crlf)

-- The keys but for the message id, and the lines of a key.
unfoldable pub other_keys : Header → List Bytes
other_keys [] = []
other_keys ((k, vs) ∷ h) = if equal_fold k header_mid then other_keys h else k ∷ other_keys h

unfoldable pub value_lines : Bytes → List Bytes → Bytes
value_lines key [] = []
value_lines key (v ∷ vs) = field_line key (trim_string v) ++ value_lines key vs

unfoldable pub key_lines : Header → List Bytes → Bytes
unfolding value_lines
key_lines h [] = []
key_lines h (k ∷ ks) = value_lines k (lookup k h) ++ key_lines h ks

-- `Header.Write`: what it writes, and whether the error is nil.
unfoldable pub header_write : Header → Bytes × Bool
unfolding key_lines other_keys bytes_less stable_sort
header_write h = elim (get header_mid h) [
  | [] ↦ ([], false)
  | c ∷ mid ↦
      (field_line header_mid (c ∷ mid) ++ key_lines h (stable_sort bytes_less (other_keys h)), true)
]

-- The parts of `DecodeHeader` that are library code: the decoder of encoded words of package `mime`,
-- and the translation from ISO-8859-1 of a third-party package.
pub record Decoder : Type 0 where
  pub decode_words : Bytes → Bytes
  pub from_latin1 : Bytes → Bytes

-- `WordDecoder.DecodeHeader`.
unfoldable pub decode_header : Decoder → Bytes → Bytes
unfolding valid
decode_header d header =
    if contains header (codes "=?")
    then d.decode_words header
    else (if valid header then header else d.from_latin1 header)
