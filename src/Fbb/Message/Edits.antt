-- ===== src/Fbb/Message/Edits.antt =====
-- A message that is made with the functions of fbb/message.go stays one that can be read back.
use wl2k_go.Prelude.{
  inl, inr, Bool-cases, ◌<◌, ◌^◌, ◌≡◌, refl, ap, ◌∙◌, none, List, [], ◌∷◌, ◌++◌, Bytes, arith,
  length,
}
use wl2k_go.Prelude.Int.{pos}
use wl2k_go.Go.Strings.{codes}
use wl2k_go.Go.Strconv.{show_int}
use wl2k_go.Go.Mime.{q_encode_latin1}
use wl2k_go.Go.Textproto.{
  lookup, assign, first, header_add, header_set, canonical_key, capitals, all_tokens, is_token,
}
use wl2k_go.Go.Textproto.Trim.{IsValue}
use wl2k_go.Go.Textproto.Map.{lookup-assign}
use wl2k_go.Fbb.Address.{address_from_string}
use wl2k_go.Fbb.Header.{
  Decoder, decode_header, header_to, header_cc, header_subject, header_body, header_file,
  header_date, header_content_type, header_content_transfer_encoding,
}
use wl2k_go.Fbb.Header.Keep.{lookup-assign_other, assign-IsHeader, append_to-IsHeader}
use wl2k_go.Fbb.Body.{Translator, string_to_body}
use wl2k_go.Fbb.Message.Date.{TimePackage}
use wl2k_go.Fbb.Message.{File, Message}
use wl2k_go.Fbb.Message.Compose.{
  address_string, add_address, add_to, add_cc, set_subject, set_body, body_headers, plain_text,
  file_value, add_file,
}
use wl2k_go.Fbb.Message.RoundTrip.{Fits, AllFit, IsMessage}
use wl2k_go.Fbb.Message.Keep.{
  assign-IsMessage, show_int-IsValue, append-IsMessage, to-IsOther, cc-IsOther, subject-IsOther,
  file-IsOther, body-IsOther, content_type-IsOther, content_transfer_encoding-IsOther,
}

module _ (t : Translator) (d : Decoder) where
  -- The calls that change a message, with what they need of their arguments.
  pub data Edit : Message → Message → Type 0 where
    to :
        (m : Message) (addr : Bytes)
        → IsValue (address_string (address_from_string addr))
        → Edit m (add_to (addr ∷ []) m)
    cc_to :
        (m : Message) (addr : Bytes)
        → IsValue (address_string (address_from_string addr))
        → Edit m (add_cc (addr ∷ []) m)
    subject :
        (m : Message) (str : Bytes)
        → IsValue (q_encode_latin1 (t.to_latin1 str))
        → Edit m (set_subject t str m)
    file :
        (m : Message) (f : File)
        → IsValue (file_value t f)
        → decode_header d (q_encode_latin1 (t.to_latin1 f.name)) ≡ f.name
        → length f.content < 2 ^ 63
        → f.failure ≡ none
        → Edit m (add_file t f m)
    body :
        (m : Message) (str : Bytes)
        → length (string_to_body t str).0 < 2 ^ 63
        → Edit m (set_body t str m).0

  pub data Edits (m : Message) : Message → Type 0 where
    here : Edits m m
    next : {n p : Message} → Edits m n → Edit n p → Edits m p

  module _ (time : TimePackage) where
    to-IsMessage :
        (m : Message) (addr : Bytes)
        → IsValue (address_string (address_from_string addr))
        → IsMessage time d m
        → IsMessage time d (add_to (addr ∷ []) m)
    unfolding add_to add_address header_add canonical_key capitals all_tokens is_token
    to-IsMessage m addr v w =
        let a = address_string (address_from_string addr) in
        append-IsMessage time d m w header_to a
          (record { other = to-IsOther; ne_body = refl; ne_file = refl; ne_date = refl }) v

    cc_to-IsMessage :
        (m : Message) (addr : Bytes)
        → IsValue (address_string (address_from_string addr))
        → IsMessage time d m
        → IsMessage time d (add_cc (addr ∷ []) m)
    unfolding add_cc add_address header_add canonical_key capitals all_tokens is_token
    cc_to-IsMessage m addr v w =
        let a = address_string (address_from_string addr) in
        append-IsMessage time d m w header_cc a
          (record { other = cc-IsOther; ne_body = refl; ne_file = refl; ne_date = refl }) v

    subject-IsMessage :
        (m : Message) (str : Bytes)
        → IsValue (q_encode_latin1 (t.to_latin1 str))
        → IsMessage time d m
        → IsMessage time d (set_subject t str m)
    unfolding set_subject header_set canonical_key capitals all_tokens is_token
    subject-IsMessage m str v w =
        assign-IsMessage time d m w header_subject (q_encode_latin1 (t.to_latin1 str) ∷ [])
          (record { other = subject-IsOther; ne_body = refl; ne_file = refl; ne_date = refl })
          (v, tt)

    AllFit-append :
        (vs : List Bytes) (fs : List File) (v : Bytes) (f : File)
        → AllFit d vs fs
        → Fits d v f
        → AllFit d (vs ++ v ∷ []) (fs ++ f ∷ [])
    AllFit-append [] [] v f h k = (k, tt)
    AllFit-append [] (g ∷ fs) v f h k = elim h [ ]
    AllFit-append (u ∷ vs) [] v f h k = elim h [ ]
    AllFit-append (u ∷ vs) (g ∷ fs) v f h k = (h.0, AllFit-append vs fs v f h.1 k)

    file-IsMessage :
        (m : Message) (f : File)
        → IsValue (file_value t f)
        → decode_header d (q_encode_latin1 (t.to_latin1 f.name)) ≡ f.name
        → length f.content < 2 ^ 63
        → f.failure ≡ none
        → IsMessage time d m
        → IsMessage time d (add_file t f m)
    unfolding add_file header_add canonical_key capitals all_tokens is_token
    file-IsMessage m f v n small read w =
        let vs = lookup header_file m.header ++ file_value t f ∷ [] in
        let fits : Fits d (file_value t f) f = record {
          word = q_encode_latin1 (t.to_latin1 f.name);
          value_eq = refl;
          name_eq = n;
          small = small;
          read = read;
        } in
        record {
          header_ok =
              append_to-IsHeader header_file (file_value t f) m.header file-IsOther v w.header_ok;
          body_eq =
              ap first (lookup-assign_other header_body header_file vs m.header refl) ∙ w.body_eq;
          small = w.small;
          files_fit = rw (lookup-assign header_file header_file vs m.header) (
              AllFit-append (lookup header_file m.header) m.files (file_value t f) f w.files_fit
                fits);
          date_ok = rw (lookup-assign_other header_date header_file vs m.header refl) w.date_ok;
        }

    size-IsMessage :
        (m : Message) (bytes : Bytes)
        → length bytes < 2 ^ 63
        → IsMessage time d m
        → IsMessage time d (record m {
          header = assign header_body (show_int (pos (length bytes)) ∷ []) m.header;
          body = bytes;
        })
    size-IsMessage m bytes small w =
        let vs = show_int (pos (length bytes)) ∷ [] in
        record {
          header_ok =
              assign-IsHeader header_body vs m.header body-IsOther
                (show_int-IsValue (length bytes), tt) w.header_ok;
          body_eq = ap first (lookup-assign header_body header_body vs m.header);
          small = small;
          files_fit = rw (lookup-assign_other header_file header_body vs m.header refl) w.files_fit;
          date_ok = rw (lookup-assign_other header_date header_body vs m.header refl) w.date_ok;
        }

    encoding-IsMessage :
        (m : Message)
        → IsMessage time d m
        → IsMessage time d (record m { header = body_headers m.header })
    unfolding header_set canonical_key capitals all_tokens is_token
    encoding-IsMessage m w =
        let first_set =
          assign-IsMessage time d m w header_content_transfer_encoding (codes "8bit" ∷ [])
            (record {
              other = content_transfer_encoding-IsOther;
              ne_body = refl;
              ne_file = refl;
              ne_date = refl;
            })
            (record { one_line = ground arith; front = refl; back = refl }, tt) in
        assign-IsMessage time d
          (record m {
            header = assign header_content_transfer_encoding (codes "8bit" ∷ []) m.header;
          })
          first_set header_content_type (plain_text ∷ [])
          (record { other = content_type-IsOther; ne_body = refl; ne_file = refl; ne_date = refl })
          (record { one_line = ground arith; front = refl; back = refl }, tt)

    body-IsMessage :
        (m : Message) (str : Bytes)
        → length (string_to_body t str).0 < 2 ^ 63
        → IsMessage time d m
        → IsMessage time d (set_body t str m).0
    unfolding set_body header_set canonical_key capitals all_tokens is_token
    body-IsMessage m str small w = elim (Bool-cases (string_to_body t str).1) [
      | inl e ↦ rw e (
          size-IsMessage (record m { header = body_headers m.header }) (string_to_body t str).0
            small (encoding-IsMessage m w))
      | inr e ↦ rw e (encoding-IsMessage m w)
    ]

    Edit-IsMessage : {m n : Message} → Edit m n → IsMessage time d m → IsMessage time d n
    Edit-IsMessage (to m addr v) w = to-IsMessage m addr v w
    Edit-IsMessage (cc_to m addr v) w = cc_to-IsMessage m addr v w
    Edit-IsMessage (subject m str v) w = subject-IsMessage m str v w
    Edit-IsMessage (file m f v n small read) w = file-IsMessage m f v n small read w
    Edit-IsMessage (body m str small) w = body-IsMessage m str small w

    -- A well-formed message stays well-formed under any sequence of `AddTo`, `AddCc`, `SetSubject`,
    -- `AddFile` and `SetBody`, if each address, subject and file is one line with no space at its ends, the
    -- name of each file is decoded as it was encoded, and the sizes are those of an int.
    pub Edits-IsMessage : {m n : Message} → Edits m n → IsMessage time d m → IsMessage time d n
    Edits-IsMessage here w = w
    Edits-IsMessage (next r e) w = Edit-IsMessage e (Edits-IsMessage r w)
