-- ===== src/Fbb/Message/Compose.antt =====
-- fbb/message.go: the functions that make a message and read its fields.
use wl2k_go.Prelude.{
  ◌≡◌, refl, no_bool, Bool, true, false, ◌&&◌, Option, none, some, List, [], ◌∷◌, ◌++◌, Bytes, map,
  ltb, ◌==◌, if◌then◌else◌, length,
}
use wl2k_go.Prelude.Int.{pos, eq_ℤ}
use wl2k_go.Go.Strings.{codes, bytes_eq}
use wl2k_go.Go.Strconv.{show_int}
use wl2k_go.Go.Mime.{q_encode_latin1}
use wl2k_go.Go.Result.{Result as Outcome, ok, panic}
use wl2k_go.Go.Textproto.{Header, lookup, header_get, header_set, header_add}
use wl2k_go.Fbb.Address.{Address, address_from_string, equal_fold}
use wl2k_go.Fbb.Header.{
  Decoder, decode_header, header_mid, header_to, header_cc, header_from, header_subject,
  header_body, header_file, header_date, header_mbo, header_type, header_content_type,
  header_content_transfer_encoding,
}
use wl2k_go.Fbb.Body.{Translator, string_to_body}
use wl2k_go.Fbb.Message.Date.{TimePackage, date_layout}
use wl2k_go.Fbb.Message.{Error, File, Message, body_size}

-- `Address.String`, `IsZero` and `EqualString`.
unfoldable pub address_string : Address → Bytes
address_string a = elim a.proto [ [] ↦ a.addr | c ∷ p ↦ c ∷ (p ++ b':' ∷ a.addr) ]

unfoldable pub address_is_zero : Address → Bool
address_is_zero a = length a.addr == 0

unfoldable pub address_eq : Address → Address → Bool
address_eq a b = bytes_eq a.proto b.proto && bytes_eq a.addr b.addr

unfoldable pub equal_string : Address → Bytes → Bool
unfolding address_eq address_from_string
equal_string a b = address_eq a (address_from_string b)

-- `SetFrom`, `AddTo`, `AddCc`, `To`, `Cc` and `Receivers`.
unfoldable pub set_from : Bytes → Message → Message
set_from addr m = record m {
  header = header_set header_from (address_string (address_from_string addr)) m.header;
}

unfoldable pub add_address : Bytes → List Bytes → Header → Header
add_address key [] h = h
add_address key (a ∷ as') h =
    add_address key as' (header_add key (address_string (address_from_string a)) h)

unfoldable pub add_to : List Bytes → Message → Message
add_to addrs m = record m { header = add_address header_to addrs m.header }

unfoldable pub add_cc : List Bytes → Message → Message
add_cc addrs m = record m { header = add_address header_cc addrs m.header }

unfoldable pub receivers_to : Message → List Address
receivers_to m = map address_from_string (lookup header_to m.header)

unfoldable pub receivers_cc : Message → List Address
receivers_cc m = map address_from_string (lookup header_cc m.header)

unfoldable pub receivers : Message → List Address
unfolding receivers_to receivers_cc
receivers m = receivers_to m ++ receivers_cc m

-- `IsOnlyReceiver`.
only_receiver : List Address → Address → Bool
only_receiver (r ∷ []) addr = equal_fold (address_string r) (address_string addr)
only_receiver _ addr = false

unfoldable pub is_only_receiver : Message → Address → Bool
unfolding only_receiver receivers
is_only_receiver m addr = only_receiver (receivers m) addr

only_receiver-one :
    (rs : List Address) (addr : Address)
    → only_receiver rs addr ≡ true
    → (r : Address) × (rs ≡ r ∷ []) × (equal_fold (address_string r) (address_string addr) ≡ true)
unfolding only_receiver
only_receiver-one [] addr h = absurd (no_bool h)
only_receiver-one (r ∷ []) addr h = (r, refl, h)
only_receiver-one (r ∷ q ∷ rs) addr h = absurd (no_bool h)

-- There is one receiver, whose text is that of the address but for the case of letters.
pub is_only_receiver-one :
    (m : Message) (addr : Address)
    → is_only_receiver m addr ≡ true
    → (r : Address) × (receivers m ≡ r ∷ [])
      × (equal_fold (address_string r) (address_string addr) ≡ true)
unfolding is_only_receiver
is_only_receiver-one m addr h = only_receiver-one (receivers m) addr h

-- `SetSubject`.
unfoldable pub set_subject : Translator → Bytes → Message → Message
set_subject t str m = record m {
  header = header_set header_subject (q_encode_latin1 (t.to_latin1 str)) m.header;
}

-- `Subject`.
unfoldable pub subject : Decoder → Message → Bytes
subject d m = decode_header d (header_get header_subject m.header)

-- What `mime.FormatMediaType` makes of "text/plain" and the charset ISO-8859-1.
abbrev pub plain_text : Bytes
plain_text = codes "text/plain; charset=ISO-8859-1"

abbrev pub body_headers : Header → Header
body_headers h =
    header_set header_content_type plain_text
      (header_set header_content_transfer_encoding (codes "8bit") h)

-- `SetBodyWithCharset`, and `SetBody`: the charset that it is given is not looked at. The flag says that
-- the error is nil; the two headers are set in any case.
unfoldable pub set_body : Translator → Bytes → Message → Message × Bool
unfolding string_to_body
set_body t str m =
    let (bytes, fine) = string_to_body t str in
    if fine
    then (
      record m {
        header = header_set header_body (show_int (pos (length bytes))) (body_headers m.header);
        body = bytes;
      },
      true,
    )
    else (record m { header = body_headers m.header }, false)

-- `NewFile`, which panics at an empty name.
unfoldable pub new_file : Bytes → Bytes → Outcome Error File
new_file [] content = panic
new_file (c ∷ name) content = ok (record { content = content; name = c ∷ name; failure = none })

-- `AddFile`.
abbrev pub file_value : Translator → File → Bytes
file_value t f = show_int (pos (length f.content)) ++ b' ' ∷ q_encode_latin1 (t.to_latin1 f.name)

unfoldable pub add_file : Translator → File → Message → Message
add_file t f m = record m {
  files = m.files ++ f ∷ [];
  header = header_add header_file (file_value t f) m.header;
}

abbrev pub type_or_private : Bytes → Bytes
type_or_private [] = codes "Private"
type_or_private (c ∷ t) = c ∷ t

module _ (time : TimePackage) where
  open time use {Time, format_utc}

  -- `SetDate`.
  unfoldable pub set_date : Time → Message → Message
  set_date t m = record m { header = header_set header_date (format_utc t date_layout) m.header }

  -- `NewMessage`, with the message id that was generated and the time of the clock.
  unfoldable pub new_message : Bytes → Time → Bytes → Bytes → Message
  unfolding set_date set_from
  new_message mid now t mycall =
      let empty : Message = record {
        header = header_set header_mid mid [];
        body = [];
        files = [];
      } in
      let m = set_from mycall (set_date now empty) in
      record m {
        header = header_set header_type (type_or_private t) (header_set header_mbo mycall m.header);
      }

-- `ValidationError`, one constructor for each.
pub data Invalid : Type 0 where
  empty_mid mid_too_long no_recipient empty_from empty_body empty_subject : Invalid
  subject_too_long : Invalid
  file_name_too_long : Bytes → Invalid

unfoldable pub validate_files : List File → Option Invalid
validate_files [] = none
validate_files (f ∷ fs) =
    if ltb 255 (length f.name) then some (file_name_too_long f.name) else validate_files fs

-- `Validate`.
unfoldable pub validate : Message → Option Invalid
unfolding validate_files receivers body_size
validate m =
    let mid = header_get header_mid m.header in
    let title = header_get header_subject m.header in
    if length mid == 0
    then some empty_mid
    else (if ltb 12 (length mid)
        then some mid_too_long
        else (if length (receivers m) == 0
            then some no_recipient
            else (if length (header_get header_from m.header) == 0
                then some empty_from
                else (if eq_ℤ (body_size m) (pos 0)
                    then some empty_body
                    else (if length title == 0
                        then some empty_subject
                        else (if ltb 128 (length title)
                            then some subject_too_long
                            else validate_files m.files))))))
