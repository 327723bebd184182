-- ===== src/Mailbox/Tests.antt =====
-- Runs of the mailbox, and its theorems on a disk that is an association list.
use wl2k_go.Prelude.{
  ◌+◌, ◌≡◌, refl, sym, ap, ◌∙◌, true, false, Option, none, some, List, [], ◌∷◌, ◌++◌, Bytes, length,
  drop, if◌then◌else◌,
}
use wl2k_go.Go.Strings.{codes, bytes_eq, bytes_eq_refl, has_prefix, split}
use wl2k_go.Go.Textproto.{Header, lookup, assign, delete}
use wl2k_go.Go.Textproto.Map.{lookup-assign, lookup-delete}
use wl2k_go.Go.Result.{ok, panic}
use wl2k_go.Go.Path.{path_join, clean, extension}
use wl2k_go.Go.Sort.{All}
use wl2k_go.Go.Textproto.{
  read_mime_header, read_fields, read_line, continued, add_field, drop_return, trim_left,
  trim_right, header_add, header_get, header_set, canonical_key, capitals, all_tokens, is_token,
}
use wl2k_go.Fbb.Address.{Address, address_from_string, colon_address, mail_address}
use wl2k_go.Fbb.Body.{string_to_body}
use wl2k_go.Fbb.Header.Keep.{bytes_eq_comm}
use wl2k_go.Fbb.Message.{
  Message, write, read_from, trim_left_space, read_section, section_end, body_size, read_tail,
  read_files,
}
use wl2k_go.Go.Strconv.{atoi, parse_int, unsigned_part, signed, scan, digit_value}
use wl2k_go.Go.Strings.{cut_at}
use wl2k_go.Fbb.Message.Compose.{
  new_message, set_from, set_date, set_body, address_string, receivers, is_only_receiver,
}
use wl2k_go.Fbb.Message.Date.{parse_date, parse_layouts, date_layouts}
use wl2k_go.Fbb.Message.Made.{set_body-new_message-IsMessage}
use wl2k_go.Fbb.Message.RoundTrip.{IsMessage}
use wl2k_go.Fbb.Message.Tests.{clock, decoder, translator, letter, letter-CanMake}
use wl2k_go.Fbb.Proposal.{Proposal, reject}
use wl2k_go.Mailbox.{
  DirHandler, Error, blank, x_file_path, message_id, new_dir_handler, set_deferred, process_inbound,
  get_inbound_answer, add_out, set_sent, get_outbound, load_messages, load_entries,
  load_message_dir, messages_of, open_message, read_message, deliver, deliver_one, is_skipped,
  is_addressed,
}
use wl2k_go.Mailbox.Inbound.{process_inbound-reject}
use wl2k_go.Mailbox.RoundTrip.{IsStored, out_path, sent_path, set_sent-add_out}
use wl2k_go.Mailbox.Delivered.{Deliverable}
use wl2k_go.Mailbox.Outbound.{HasPath, get_outbound-Deliverable, get_outbound-HasPath}
use wl2k_go.Mailbox.Files.{FileSystem, IsFileSystem, Entry, Opened, opened, missing}

-- The files of the disk: a path, and a list of one text.
abbrev Disk : Type 0
Disk = List (Bytes × List Bytes)

abbrev found : List Bytes → Opened
found [] = missing
found (b ∷ bs) = opened b

abbrev entry : Bytes → List Entry → List Entry
entry [] es = es
entry (c ∷ name) es = record { first = c; rest = name; is_dir = false } ∷ es

abbrev entries : Bytes → Disk → List Entry
entries dir [] = []
entries dir ((p, b) ∷ d) =
    let rest = entries dir d in
    if has_prefix p (dir ++ codes "/") then entry (drop (length dir + 1) p) rest else rest

abbrev renamed : Bytes → Bytes → Disk → List Bytes → Option Disk
renamed p q d [] = none
renamed p q d (b ∷ bs) = some (assign q (b ∷ []) (delete p d))

abbrev files : FileSystem Disk
files = record {
  read_dir = λ dir d. some (entries dir d);
  open_file = λ p d. found (lookup p d);
  write_file = λ p b d. (assign p (b ∷ []) d, true);
  rename = λ p q d. renamed p q d (lookup p d);
  mkdir_all = λ dir d. (d, true);
}

renamed-disk :
    (p q b : Bytes) (d d' : Disk) (bs : List Bytes)
    → renamed p q d bs ≡ some d'
    → found bs ≡ opened b
    → assign q (b ∷ []) (delete p d) ≡ d'
renamed-disk p q b d d' [] e o = cc
renamed-disk p q b d d' (c ∷ bs) e o = cc

renamed-kept :
    (p q r : Bytes) (d d' : Disk) (bs : List Bytes)
    → bytes_eq p r ≡ false
    → bytes_eq q r ≡ false
    → renamed p q d bs ≡ some d'
    → lookup r d' ≡ lookup r d
renamed-kept p q r d d' [] n₁ n₂ e = cc
renamed-kept p q r d d' (b ∷ bs) n₁ n₂ e =
    let same : assign q (b ∷ []) (delete p d) ≡ d' = cc in
    ap (lookup r) (sym same)
    ∙ lookup-assign r q (b ∷ []) (delete p d)
    ∙ rw n₂ (lookup-delete r p d ∙ rw n₁)

files-IsFileSystem : IsFileSystem files
files-IsFileSystem = record {
  written = λ p b d e. rw (lookup-assign p p (b ∷ []) d, bytes_eq_refl p);
  write_kept = λ p q b d ne. rw (lookup-assign q p (b ∷ []) d, ne);
  moved = λ p q b d d' e o. rw (
    sym (renamed-disk p q b d d' (lookup p d) e o),
    lookup-assign q q (b ∷ []) (delete p d),
    bytes_eq_refl q,
  );
  gone = λ p q b d d' ne e o. rw (
    sym (renamed-disk p q b d d' (lookup p d) e o),
    lookup-assign p q (b ∷ []) (delete p d),
    bytes_eq_comm p q ne,
    lookup-delete p p d,
    bytes_eq_refl p,
  );
  rename_kept = λ p q r d d' n₁ n₂ e. ap found (renamed-kept p q r d d' (lookup p d) n₁ n₂ e);
}

join_run : path_join (codes "/mb" ∷ codes "/in/" ∷ codes "../a.b2f" ∷ []) ≡ codes "/mb/a.b2f"
unfolding path_join clean split
join_run = refl

extension_run : extension (codes "a.b.b2f") ≡ codes ".b2f"
unfolding extension
extension_run = refl

abbrev box : DirHandler Disk
box = record { mbox_path = codes "/mb"; deferred = some []; send_only = false; disk = [] }

-- `SetDeferred` before `Prepare` writes to a nil map.
set_deferred_run :
    set_deferred {D = Disk} (codes "ABC") (new_dir_handler (codes "/mb") false []) ≡ panic
unfolding set_deferred new_dir_handler
set_deferred_run = refl

letter_received : (process_inbound clock decoder files (letter ∷ []) box).1 ≡ none
unfolding process_inbound write parse_date parse_layouts date_layouts set_body new_message set_from
    set_date string_to_body header_get header_set canonical_key capitals all_tokens is_token lookup
    assign
letter_received = refl

process_inbound-reject_example :
    All
      (λ m.
        (p : Proposal)
        → p.mid ≡ message_id m
        → get_inbound_answer clock decoder files
            (process_inbound clock decoder files (letter ∷ []) box).0
            p
          ≡ reject)
      (letter ∷ [])
process_inbound-reject_example =
    process_inbound-reject clock decoder files files-IsFileSystem (letter ∷ []) box refl
      letter_received

letter-IsMessage : IsMessage clock decoder letter
letter-IsMessage =
    set_body-new_message-IsMessage clock translator (codes "ABC") 5 [] (codes "N0CALL") (codes "hi")
      decoder letter-CanMake

abbrev put : DirHandler Disk × Option Error
put = add_out clock decoder files letter box

letter_put : put.1 ≡ none
unfolding add_out set_sent process_inbound write parse_date parse_layouts date_layouts set_body
    new_message set_from set_date string_to_body header_get header_set canonical_key capitals
    all_tokens is_token lookup assign delete path_join clean split
letter_put = refl

abbrev sent_box : DirHandler Disk
sent_box = elim (set_sent clock decoder files (message_id letter) false put.0) [
  | none ↦ box
  | some h ↦ h
]

letter_sent : set_sent clock decoder files (message_id letter) false put.0 ≡ some sent_box
unfolding add_out set_sent process_inbound write parse_date parse_layouts date_layouts set_body
    new_message set_from set_date string_to_body header_get header_set canonical_key capitals
    all_tokens is_token lookup assign delete path_join clean split
letter_sent = refl

set_sent-add_out_example :
    IsStored clock decoder files files-IsFileSystem letter
      (sent_path clock decoder files files-IsFileSystem box (message_id letter))
      sent_box.disk
    × (bytes_eq
            (out_path clock decoder files files-IsFileSystem box (message_id letter))
            (sent_path clock decoder files files-IsFileSystem box (message_id letter))
          ≡ false
        → files.open_file
            (out_path clock decoder files files-IsFileSystem box (message_id letter))
            sent_box.disk
          ≡ missing)
set_sent-add_out_example =
    set_sent-add_out clock decoder files files-IsFileSystem letter box sent_box false
      letter-IsMessage letter_put letter_sent

abbrev stored_text : Bytes
stored_text = codes "Mid: A\r\nBody: 2\r\nDate: 2016/12/30 01:00\r\nTo: LA1B\r\n\r\nhi"

-- A mailbox with a message to one receiver in its outbox.
abbrev letters : DirHandler Disk
letters = record box {
  disk =
      (
        codes "/mb/out/A.b2f",
        codes "Mid: A\r\nBody: 2\r\nDate: 2016/12/30 01:00\r\nTo: LA1B\r\n\r\nhi" ∷ [],
      )
      ∷ [];
}

abbrev receiver : Address
receiver = record { proto = []; addr = codes "la1b" }

abbrev fields : Header
fields =
    (codes "Mid", codes "A" ∷ [])
    ∷ (codes "Body", codes "2" ∷ [])
    ∷ (codes "Date", codes "2016/12/30 01:00" ∷ [])
    ∷ (codes "To", codes "LA1B" ∷ [])
    ∷ []

abbrev stored : Message
stored = record { header = fields; body = codes "hi"; files = [] }

stored_read : read_from clock decoder blank stored_text ≡ ok (stored, none)
unfolding read_from read_mime_header trim_left_space read_fields read_line continued add_field
    drop_return cut_at trim_left trim_right is_token all_tokens canonical_key capitals header_add
    header_get lookup assign read_section section_end body_size atoi parse_int unsigned_part signed
    scan digit_value read_tail read_files parse_date parse_layouts date_layouts
stored_read = refl

abbrev stored_path : Bytes
stored_path = codes "/mb/out/A.b2f"

-- What is delivered has the local path in its header.
abbrev sent_letter : Message
sent_letter = record stored { header = header_set x_file_path stored_path fields }

letters_outbound : get_outbound clock decoder files (receiver ∷ []) letters ≡ ok (sent_letter ∷ [])
unfolding get_outbound messages_of load_message_dir load_entries load_messages is_skipped extension
    path_join clean split open_message read_message lookup deliver deliver_one is_addressed
    is_only_receiver header_get header_set assign canonical_key capitals all_tokens is_token
    address_from_string colon_address mail_address address_string receivers
letters_outbound = rw stored_read refl

get_outbound-Deliverable_example : All (Deliverable (receiver ∷ []) (some [])) (sent_letter ∷ [])
get_outbound-Deliverable_example =
    get_outbound-Deliverable clock decoder files (receiver ∷ []) letters (sent_letter ∷ [])
      letters_outbound

get_outbound-HasPath_example :
    All (HasPath clock decoder files (codes "/mb/out") letters.disk) (sent_letter ∷ [])
unfolding path_join clean split
get_outbound-HasPath_example =
    get_outbound-HasPath clock decoder files receiver [] letters (sent_letter ∷ []) letters_outbound
