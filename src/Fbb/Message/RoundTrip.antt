-- ===== src/Fbb/Message/RoundTrip.antt =====
-- A message that is written is read back.
use wl2k_go.Prelude.{
  ◌<◌, ◌^◌, ◌≡◌, ◌≢◌, refl, sym, ap, ◌∙◌, true, Option, none, some, List, [], ◌∷◌, ◌++◌, Bytes,
  arith, length, take, drop, append-nil, append_assoc, length-append,
}
use wl2k_go.Prelude.Int.{pos}
use wl2k_go.Go.Result.{ok}
use wl2k_go.Go.Strings.{cut_at, cut_at-append}
use wl2k_go.Go.Strconv.{atoi, show_int}
use wl2k_go.Go.Strconv.RoundTrip.{atoi-show_int, show_int-Free}
use wl2k_go.Go.Textproto.{
  Header, lookup, first, header_get, read_mime_header, canonical_key, capitals, all_tokens,
  is_token,
}
use wl2k_go.Fbb.Header.{
  Decoder, decode_header, get, header_write, crlf, header_body, header_file, header_date,
}
use wl2k_go.Fbb.Header.Wire.{IsHeader}
use wl2k_go.Fbb.Header.RoundTrip.{read_mime_header-header_write, header_write-wire}
use wl2k_go.Fbb.Message.Date.{TimePackage, parse_date}
use wl2k_go.Fbb.Message.{
  Error, File, Message, body_size, section_end, read_section, read_file, read_files,
  trim_left_space, date_error, read_tail, read_from, file_lines, body_end, write,
}

-- A file and its header value: its size, and a name that the decoder reads.
pub record Fits (d : Decoder) (value : Bytes) (f : File) : Type 0 where
  pub word : Bytes
  pub value_eq : value ≡ show_int (pos (length f.content)) ++ b' ' ∷ word
  pub name_eq : decode_header d word ≡ f.name
  pub small : length f.content < 2 ^ 63
  pub read : f.failure ≡ none

-- The values of the File header are those of the files, in their order.
abbrev pub AllFit : Decoder → List Bytes → List File → Type 0
AllFit d [] [] = Unit {0}
AllFit d [] (f ∷ fs) = ⊥
AllFit d (v ∷ vs) [] = ⊥
AllFit d (v ∷ vs) (f ∷ fs) = Fits d v f × AllFit d vs fs

drop-append : (xs ys : Bytes) → drop (length xs) (xs ++ ys) ≡ ys
drop-append [] ys = refl
drop-append (x ∷ xs) ys = drop-append xs ys

take-append : (xs ys : Bytes) → take (length xs) (xs ++ ys) ≡ xs
take-append [] ys = refl
take-append (x ∷ xs) ys = rw (take-append xs ys)

-- A section is read, whatever follows it is left to its end.
pub read_section-append :
    (xs s rest : Bytes) (e : Option Error)
    → section_end s ≡ (e, rest)
    → read_section (xs ++ s) (pos (length xs)) ≡ ok (xs, e, rest)
unfolding read_section
read_section-append xs s rest e h =
    ground (arith, length-append {0} xs s, take-append xs s, drop-append xs s, h)

section_end-crlf : (rest : Bytes) → section_end (crlf ++ rest) ≡ (none, rest)
unfolding section_end cut_at
section_end-crlf rest = refl

section_end-nil : section_end [] ≡ (none, [])
unfolding section_end cut_at
section_end-nil = refl

module _ (d : Decoder) where
  pub read_file-section :
      (size word : Bytes) (f : File) (s rest : Bytes) (e : Option Error)
      → size ≡ show_int (pos (length f.content))
      → decode_header d word ≡ f.name
      → length f.content < 2 ^ 63
      → section_end s ≡ (e, rest)
      → read_file d (size, word) (f.content ++ s) ≡ ok (record f { failure = e }, e, rest)
  unfolding read_file
  read_file-section size word f s rest e k n small b =
      let number : atoi size ≡ (pos (length f.content), true) =
        ap atoi k ∙ atoi-show_int (pos (length f.content)) (omega arith) (omega arith) in
      ground (arith, number, n, read_section-append f.content s rest e b)

  pub read_file-Fits :
      (v : Bytes) (f : File) (rest : Bytes) (h : Fits d v f)
      → read_file d (show_int (pos (length f.content)), h.word) (f.content ++ (crlf ++ rest))
        ≡ ok (f, none, rest)
  read_file-Fits v f rest h =
      read_file-section (show_int (pos (length f.content))) h.word f (crlf ++ rest) rest none refl
        h.name_eq h.small (section_end-crlf rest)
      ∙ rw (sym h.read)

  pub cut-Fits :
      (v : Bytes) (f : File) (h : Fits d v f)
      → cut_at b' ' v ≡ some (show_int (pos (length f.content)), h.word)
  cut-Fits v f h = rw h.value_eq (
      cut_at-append b' ' (show_int (pos (length f.content))) h.word
        (show_int-Free b' ' _ (omega arith)))

  pub read_files_step :
      (v size word : Bytes) (vs : List Bytes) (f : File) (fs : List File) (s rest : Bytes)
      (last e : Option Error)
      → cut_at b' ' v ≡ some (size, word)
      → read_file d (size, word) s ≡ ok (f, e, rest)
      → read_files d vs e rest ≡ ok (fs, none)
      → read_files d (v ∷ vs) last s ≡ ok (f ∷ fs, none)
  unfolding read_files
  read_files_step v size word vs f fs s rest last e e1 e2 e3 = ground (arith, e1, e2, e3)

  pub read_files-file_lines :
      (vs : List Bytes) (fs : List File) (rest : Bytes)
      → AllFit d vs fs
      → read_files d vs none (file_lines fs ++ rest) ≡ ok (fs, none)
  unfolding read_files
  read_files-file_lines [] [] rest h = refl
  read_files-file_lines [] (f ∷ fs) rest h = elim h [ ]
  read_files-file_lines (v ∷ vs) [] rest h = elim h [ ]
  read_files-file_lines (v ∷ vs) (f ∷ fs) rest h =
      read_files_step v (show_int (pos (length f.content))) h.0.word vs f fs
        (file_lines (f ∷ fs) ++ rest) (file_lines fs ++ rest) none none (cut-Fits v f h.0)
        (rw (append_assoc f.content (crlf ++ file_lines fs) rest)
          (read_file-Fits v f (file_lines fs ++ rest) h.0))
        (read_files-file_lines vs fs rest h.1)

-- A message that the format can express: its header is one, its Body and File headers are those of its
-- body and its files, and its date is in a known layout.
pub record IsMessage (time : TimePackage) (d : Decoder) (m : Message) : Type 0 where
  pub header_ok : IsHeader m.header
  pub body_eq : get header_body m.header ≡ show_int (pos (length m.body))
  pub small : length m.body < 2 ^ 63
  pub files_fit : AllFit d (lookup header_file m.header) m.files
  pub date_ok : parse_date time (get header_date m.header) ≢ none

section_end-body_end :
    (fs : List File) → section_end (body_end fs ++ file_lines fs) ≡ (none, file_lines fs)
section_end-body_end [] = section_end-nil
section_end-body_end (f ∷ fs) = section_end-crlf (file_lines (f ∷ fs))

header_get-body : (h : Header) → header_get header_body h ≡ get header_body h
unfolding header_get canonical_key capitals all_tokens is_token
header_get-body h = refl

header_get-date : (h : Header) → header_get header_date h ≡ get header_date h
unfolding header_get canonical_key capitals all_tokens is_token
header_get-date h = refl

module _ (time : TimePackage) (d : Decoder) (m : Message) (w : IsMessage time d m) where
  -- What follows the header.
  abbrev sections : Bytes
  sections = m.body ++ (body_end m.files ++ file_lines m.files)

  write-eq : write time m ≡ some ((header_write m.header).0 ++ (crlf ++ sections))
  unfolding write
  write-eq = ground (arith, w.date_ok, header_get-date m.header)

  -- The text begins with the message id, and so with no space.
  trim_left_space-write :
      trim_left_space ((header_write m.header).0 ++ (crlf ++ sections))
      ≡ (header_write m.header).0 ++ (crlf ++ sections)
  unfolding trim_left_space
  trim_left_space-write = rw (header_write-wire m.header w.header_ok (crlf ++ sections))

  read_files-sections :
      read_files d (lookup header_file m.header) none (file_lines m.files) ≡ ok (m.files, none)
  read_files-sections =
      rw (append-nil (file_lines m.files)) at
        (read_files-file_lines d (lookup header_file m.header) m.files [] w.files_fit)

  -- The steps of `ReadFrom` behind a header that was read, of the same map as the header of the message.
  module _ (h' : Header) (same : (k : Bytes) → lookup k h' ≡ lookup k m.header) where
    body_size-eq :
        (body : Bytes) (files : List File)
        → body_size (record { header = h'; body = body; files = files }) ≡ pos (length m.body)
    unfolding body_size
    body_size-eq body files =
        ap (λ v. (atoi v).0) (header_get-body h' ∙ ap first (same header_body) ∙ w.body_eq)
        ∙ ap (λ r. r.0)
            (atoi-show_int (pos (length m.body)) (omega (arith, w.small)) (omega (arith, w.small)))

    date_error-eq : date_error time h' ≡ none
    date_error-eq = ground (arith, header_get-date h', same header_date, w.date_ok)

    read_tail-eq :
        (files : List File)
        → read_tail time d
            (record { header = h'; body = m.body; files = files })
            (file_lines m.files)
          ≡ ok (record m { header = h' }, none)
    unfolding read_tail
    read_tail-eq files = ground (arith, same header_file, read_files-sections, date_error-eq)

    read_from-eq :
        (start : Message) (s : Bytes)
        → read_mime_header (trim_left_space s) ≡ ok (h', sections)
        → read_from time d start s ≡ ok (record m { header = h' }, none)
    unfolding read_from
    read_from-eq start s e = ground (
      arith,
      e,
      body_size-eq start.body start.files,
      read_section-append m.body (body_end m.files ++ file_lines m.files) (file_lines m.files) none
          (section_end-body_end m.files),
      read_tail-eq start.files,
    )

  -- A well-formed message is written, and `ReadFrom` reads what was written with no error, whatever the
  -- fields of the receiver were: the body and the files are those of the message, and the header is the
  -- same map.
  pub read_from-write :
      (start : Message)
      → (s : Bytes) × (h' : Header) × (write time m ≡ some s)
        × (read_from time d start s ≡ ok (record m { header = h' }, none))
        × ((k : Bytes) → lookup k h' ≡ lookup k m.header)
  read_from-write start =
      let (h', e, same) = read_mime_header-header_write m.header w.header_ok sections in
      let s = (header_write m.header).0 ++ (crlf ++ sections) in
      (s, h', write-eq, read_from-eq h' same start s (rw trim_left_space-write e), same)
