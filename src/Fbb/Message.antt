-- ===== src/Fbb/Message.antt =====
-- fbb/message.go: messages, their reading and writing, and their validation.
pub mod Date
pub mod RoundTrip
pub mod Compose
pub mod Keep
pub mod Edits
pub mod Made
pub mod Faults
pub mod Tests
use wl2k_go.Prelude.{
  ℕ, zero, suc, ◌+◌, ◌-◌, Bool, true, false, not, ◌&&◌, ◌||◌, Option, none, some, List, [], ◌∷◌,
  ◌++◌, Bytes, map, ltb, ◌==◌, if◌then◌else◌, length, take, drop, replicate,
}
use wl2k_go.Prelude.Int.{ℤ, pos, negsuc}
use wl2k_go.Go.Strings.{bytes_eq, cut_at}
use wl2k_go.Go.Strconv.{atoi}
use wl2k_go.Go.Result.{Result as Outcome, ok, err, panic}
use wl2k_go.Go.Textproto.{Header, Error as HeaderError, lookup, header_get, read_mime_header}
use wl2k_go.Fbb.Address.{Address, address_from_string, equal_fold}
use wl2k_go.Fbb.Header.{
  Decoder, decode_header, header_write, get, crlf, header_mid, header_to, header_cc, header_from,
  header_subject, header_body, header_file, header_date,
}
use wl2k_go.Fbb.Message.Date.{TimePackage, parse_date}

-- `panicked` is the panic of `make` at a negative size.
pub data Error : Type 0 where
  bad_header : HeaderError → Error
  unexpected_eof bad_section_end bad_file_header bad_date panicked : Error

-- `File`.
pub record File : Type 0 where
  pub content : Bytes
  pub name : Bytes
  pub failure : Option Error

-- `Message`.
pub record Message : Type 0 where
  pub header : Header
  pub body : Bytes
  pub files : List File

-- `BodySize`.
unfoldable pub body_size : Message → ℤ
body_size m = (atoi (header_get header_body m.header)).0

abbrev pub is_crlf : Bytes → Bool
is_crlf line = bytes_eq line (13 ∷ [])

-- The end of `readSection`, behind the bytes of the section: the error, and the input that is left.
unfoldable pub section_end : Bytes → Option Error × Bytes
section_end s = elim (cut_at 10 s) [
  | none ↦ (none, [])
  | some (line, rest) ↦ (if is_crlf line then none else some bad_section_end, rest)
]

-- `readSection`: the buffer of the size asked for, the error, and the input that is left.
unfoldable pub read_section : Bytes → ℤ → Outcome Error (Bytes × Option Error × Bytes)
read_section s (negsuc n) = panic
read_section s (pos n) =
    if ltb (length s) n
    then ok (s ++ replicate (n - length s) 0, some unexpected_eof, [])
    else (let (e, rest) = section_end (drop n s) in ok (take n s, e, rest))

-- A file of a header value that was cut at its first space.
unfoldable pub read_file :
    Decoder → Bytes × Bytes → Bytes → Outcome Error (File × Option Error × Bytes)
read_file d (size, name) s = elim (read_section s (atoi size).0) [
  | ok (content, e, rest) ↦
      ok (record { content = content; name = decode_header d name; failure = e }, e, rest)
  | err e ↦ err e
  | panic ↦ panic
]

abbrev pub unreadable : File
unreadable = record { content = []; name = []; failure = some bad_file_header }

-- The loop over the values of the File header. The error is that of the last file that was read, and
-- the one given if there is none.
unfoldable pub read_files :
    Decoder → List Bytes → Option Error → Bytes → Outcome Error (List File × Option Error)
read_files d [] last s = ok ([], last)
read_files d (v ∷ vs) last s = elim (cut_at b' ' v) [
  | none ↦ elim (read_files d vs last s) [
    | ok (fs, e) ↦ ok (unreadable ∷ fs, e)
    | err e ↦ err e
    | panic ↦ panic
  ]
  | some value ↦ elim (read_file d value s) [
    | ok (f, e, rest) ↦ elim (read_files d vs e rest) [
      | ok (fs, e') ↦ ok (f ∷ fs, e')
      | err e' ↦ err e'
      | panic ↦ panic
    ]
    | err e ↦ err e
    | panic ↦ panic
  ]
]

-- `trimLeftSpace`.
abbrev is_ascii_space : ℕ → Bool
is_ascii_space c = c == b' ' || (ltb 8 c && ltb c 14)

unfoldable pub trim_left_space : Bytes → Bytes
trim_left_space [] = []
trim_left_space (c ∷ s) = if is_ascii_space c then trim_left_space s else c ∷ s

abbrev pub file_lines : List File → Bytes
file_lines [] = []
file_lines (f ∷ fs) = f.content ++ (crlf ++ file_lines fs)

-- The body is ended by a line break only if files follow it.
abbrev pub body_end : List File → Bytes
body_end [] = []
body_end (f ∷ fs) = crlf

module _ (time : TimePackage) where
  abbrev pub date_error : Header → Option Error
  date_error h = elim (parse_date time (header_get header_date h)) [
    | none ↦ some bad_date
    | some t ↦ none
  ]

  -- The files behind a body that was read with no error, and the date.
  unfoldable pub read_tail : Decoder → Message → Bytes → Outcome Error (Message × Option Error)
  read_tail d m s = elim (read_files d (lookup header_file m.header) none s) [
    | ok (fs, none) ↦ ok (record m { files = fs }, date_error m.header)
    | ok (fs, some e) ↦ ok (record m { files = fs }, some e)
    | err e ↦ err e
    | panic ↦ panic
  ]

  -- `ReadFrom`: the message with the fields that were set, and the error.
  unfoldable pub read_from : Decoder → Message → Bytes → Outcome Error (Message × Option Error)
  read_from d m s = elim (read_mime_header (trim_left_space s)) [
    | err e ↦ ok (m, some (bad_header e))
    | panic ↦ panic
    | ok (h, rest) ↦
        let m' : Message = record m { header = h } in
        elim (read_section rest (body_size m')) [
          | ok (body, none, after) ↦ read_tail d (record m' { body = body }) after
          | ok (body, some e, after) ↦ ok (record m' { body = body }, some e)
          | err e ↦ err e
          | panic ↦ panic
        ]
  ]

  -- `Write`, and `Bytes`: what is written, if the date is in a known layout. What `Header.Write`
  -- returns is not looked at.
  unfoldable pub write : Message → Option Bytes
  write m = elim (parse_date time (header_get header_date m.header)) [
    | none ↦ none
    | some t ↦ some (
        (header_write m.header).0 ++ (crlf ++ (m.body ++ (body_end m.files ++ file_lines m.files))))
  ]
