-- ===== src/Fbb/Message/Tests.antt =====
-- Runs of the messages, and their theorems at concrete inputs.
use wl2k_go.Prelude.{
  ℕ, ◌≡◌, ◌≢◌, refl, true, ◌&&◌, none, some, List, [], ◌∷◌, ◌++◌, Bytes, arith, ◌==◌, if◌then◌else◌,
  length,
}
use wl2k_go.Prelude.Int.{negsuc}
use wl2k_go.Go.Result.{ok, panic}
use wl2k_go.Go.Strings.{codes, bytes_eq, cut_at, split}
use wl2k_go.Go.Sort.{All}
use wl2k_go.Go.Strconv.{show_int, digits}
use wl2k_go.Go.Mime.{q_encode_latin1}
use wl2k_go.Go.Textproto.{
  Header, lookup, all_tokens, is_token, canonical_key, capitals, drop_return,
}
use wl2k_go.Go.Textproto.Trim.{IsKey, IsValue}
use wl2k_go.Go.Textproto.Fields.{wire}
use wl2k_go.Fbb.Header.{Decoder, decode_header, crlf}
use wl2k_go.Fbb.Body.{
  Translator, string_to_body, body_text, write_lines, scan_lines, pieces, all_pieces,
}
use wl2k_go.Fbb.Address.{address_from_string, colon_address, mail_address}
use wl2k_go.Fbb.Body.Lines.{FitsLine, join, body_text_lem}
use wl2k_go.Fbb.Message.Date.{TimePackage, parse_date, parse_layouts, date_layout, date_layouts}
use wl2k_go.Fbb.Message.{File, Message, bad_section_end, read_files, read_from, file_lines, write}
use wl2k_go.Fbb.Message.Compose.{
  new_message, set_body, add_file, add_to, file_value, address_string,
}
use wl2k_go.Fbb.Message.RoundTrip.{Fits, IsMessage, read_from-write}
use wl2k_go.Fbb.Message.Edits.{Edits, here, next, to, file, Edits-IsMessage}
use wl2k_go.Fbb.Message.Made.{CanMake, set_body-new_message-IsMessage}
use wl2k_go.Fbb.Message.Faults.{read_files_error_lost, read_from_negative_size}

-- A clock that knows the layout of the Winlink documents, and dates of 16 bytes.
abbrev pub clock : TimePackage
clock = record {
  Time = ℕ;
  zero_time = 0;
  parse = λ layout s. if bytes_eq layout date_layout && length s == 16 then some 1 else none;
  to_local = λ t. t;
  format_utc = λ t layout. codes "2016/12/30 01:00";
}

abbrev pub decoder : Decoder
decoder = record { decode_words = λ s. s; from_latin1 = λ s. s }

abbrev pub translator : Translator
translator = record { translate = λ s. (s, true); to_latin1 = λ s. s }

date_read : parse_date clock (codes "2016/12/30 01:00") ≢ none
unfolding parse_date date_layouts parse_layouts
date_read = cc

abbrev pub letter : Message
letter =
    (set_body translator (codes "hi") (new_message clock (codes "ABC") 5 [] (codes "N0CALL"))).0

pub letter-CanMake : CanMake clock translator (codes "ABC") 5 [] (codes "N0CALL") (codes "hi")
unfolding string_to_body body_text scan_lines all_pieces pieces drop_return cut_at address_string
    address_from_string colon_address mail_address split
letter-CanMake = record {
  mid_ne_nil = cc;
  mid_value = record { one_line = ground arith; front = refl; back = refl };
  date_value = record { one_line = ground arith; front = refl; back = refl };
  from_value = record { one_line = ground arith; front = refl; back = refl };
  mbo_value = record { one_line = ground arith; front = refl; back = refl };
  type_value = record { one_line = ground arith; front = refl; back = refl };
  date_read = date_read;
  translated = refl;
  small = omega arith;
}

set_body-new_message-IsMessage_example : IsMessage clock decoder letter
set_body-new_message-IsMessage_example =
    set_body-new_message-IsMessage clock translator (codes "ABC") 5 [] (codes "N0CALL") (codes "hi")
      decoder letter-CanMake

read_from-write_example :
    (s : Bytes) × (h' : Header) × (write clock letter ≡ some s)
    × (read_from clock decoder letter s ≡ ok (record letter { header = h' }, none))
    × ((k : Bytes) → lookup k h' ≡ lookup k letter.header)
read_from-write_example =
    read_from-write clock decoder letter set_body-new_message-IsMessage_example letter

abbrev attachment : File
attachment = record { content = codes "xyz"; name = codes "a.txt"; failure = none }

abbrev addressed : Message
addressed = add_to (codes "la1b" ∷ []) letter

receiver-IsValue : IsValue (address_string (address_from_string (codes "la1b")))
unfolding address_string address_from_string colon_address mail_address split
receiver-IsValue = record { one_line = ground arith; front = refl; back = refl }

attachment-IsValue : IsValue (file_value translator attachment)
unfolding show_int digits q_encode_latin1
attachment-IsValue = record { one_line = ground arith; front = refl; back = refl }

attachment-decoded :
    decode_header decoder (q_encode_latin1 (translator.to_latin1 attachment.name)) ≡ attachment.name
unfolding decode_header q_encode_latin1
attachment-decoded = refl

letter-Edits : Edits translator decoder letter (add_file translator attachment addressed)
letter-Edits =
    next (next here (to letter (codes "la1b") receiver-IsValue))
      (file addressed attachment attachment-IsValue attachment-decoded (omega arith) refl)

Edits-IsMessage_example : IsMessage clock decoder (add_file translator attachment addressed)
Edits-IsMessage_example =
    Edits-IsMessage translator decoder clock letter-Edits set_body-new_message-IsMessage_example

body-IsKey : IsKey (codes "Body")
unfolding all_tokens is_token canonical_key capitals
body-IsKey = record { ne_nil = cc; tokens = refl; canonical = refl }

minus_one-IsValue : IsValue (codes "-1")
minus_one-IsValue = record { one_line = ground arith; front = refl; back = refl }

minus_one : show_int (negsuc 0) ≡ codes "-1"
unfolding show_int digits
minus_one = refl

read_from_negative_size_example :
    read_from clock decoder letter (wire ((codes "Body", codes "-1") ∷ []) (crlf ++ [])) ≡ panic
read_from_negative_size_example =
    read_from_negative_size clock decoder letter (codes "Body") (codes "-1") [] [] 0 []
      ((body-IsKey, minus_one-IsValue), tt) (rw minus_one) (omega arith)

attachment-Fits : Fits decoder (file_value translator attachment) attachment
attachment-Fits = record {
  word = q_encode_latin1 (codes "a.txt");
  value_eq = refl;
  name_eq = attachment-decoded;
  small = omega arith;
  read = refl;
}

abbrev size_and_name : Bytes
size_and_name = file_value translator attachment

read_files_error_lost_example :
    read_files decoder
      (size_and_name ∷ size_and_name ∷ [])
      none
      (codes "xyz" ++ (codes "!" ++ 10 ∷ file_lines (attachment ∷ [])))
    ≡ ok (record attachment { failure = some bad_section_end } ∷ attachment ∷ [], none)
read_files_error_lost_example =
    read_files_error_lost decoder size_and_name size_and_name [] attachment attachment []
      (codes "!") attachment-Fits (attachment-Fits, tt) (ground arith) refl

body_text_lem_example :
    (ls : List Bytes) × (body_text (codes "a\nb") ≡ write_lines ls)
    × All FitsLine ls
    × (join ls ≡ join (scan_lines 4 (codes "a\nb")))
body_text_lem_example = body_text_lem (codes "a\nb")

body_text_run : body_text (codes "a\n\nb") ≡ codes "a\r\n\r\nb\r\n"
unfolding body_text scan_lines all_pieces pieces drop_return cut_at
body_text_run = refl
