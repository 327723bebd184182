-- ===== src/Mailbox.antt =====
-- mailbox/syncdir.go: the mailbox that keeps each message in a file, in one of four directories.
pub mod Files
pub mod Inbound
pub mod Delivered
pub mod Outbound
pub mod RoundTrip
pub mod Tests
use wl2k_go.Prelude.{
  ℕ, ◌≡◌, Bool, true, false, not, ◌&&◌, ◌||◌, Option, none, some, List, [], ◌∷◌, ◌++◌, Bytes, ◌==◌,
  if◌then◌else◌, length,
}
use wl2k_go.Prelude.Int.{ℤ, pos, negsuc}
use wl2k_go.Go.Strings.{codes, bytes_eq}
use wl2k_go.Go.Result.{Result as Outcome, ok, err, panic, ◌>>=◌}
use wl2k_go.Go.Path.{path_join, extension}
use wl2k_go.Go.Textproto.{header_get, header_set, header_del}
use wl2k_go.Fbb.Address.{Address, equal_fold}
use wl2k_go.Fbb.Answer.{seen_mid}
use wl2k_go.Fbb.Header.{Decoder, header_mid}
use wl2k_go.Fbb.Message.{Error as MessageError, Message, read_from, write}
use wl2k_go.Fbb.Message.Compose.{is_only_receiver}
use wl2k_go.Fbb.Message.Date.{TimePackage}
use wl2k_go.Fbb.Proposal.{Proposal, accept, reject, defer}
use wl2k_go.Mailbox.Files.{Entry, FileSystem, Opened, opened, missing, failed}

abbrev pub dir_inbox : Bytes
dir_inbox = codes "/in/"

abbrev pub dir_outbox : Bytes
dir_outbox = codes "/out/"

abbrev pub dir_sent : Bytes
dir_sent = codes "/sent/"

abbrev pub dir_archive : Bytes
dir_archive = codes "/archive/"

abbrev pub ext : Bytes
ext = codes ".b2f"

abbrev pub x_file_path : Bytes
x_file_path = codes "X-FilePath"

abbrev pub x_unread : Bytes
x_unread = codes "X-Unread"

abbrev pub x_p2p_only : Bytes
x_p2p_only = codes "X-P2POnly"

pub data Error : Type 0 where
  cannot_read_dir cannot_open cannot_write no_date no_file_path : Error
  cannot_parse : MessageError → Error

-- `MID` of a message, and the message of `new(fbb.Message)`.
abbrev pub message_id : Message → Bytes
message_id m = header_get header_mid m.header

abbrev pub blank : Message
blank = record { header = []; body = []; files = [] }

-- `DirHandler`, with the disk. The map of deferred ids is nil before `Prepare`.
pub record DirHandler (D : Type 0) : Type 0 where
  pub mbox_path : Bytes
  pub deferred : Option (List Bytes)
  pub send_only : Bool
  pub disk : D

-- The path of a message in a directory of the mailbox.
abbrev pub message_path : Bytes → Bytes → Bytes → Bytes
message_path mbox dir mid = path_join (mbox ∷ dir ∷ (mid ++ ext) ∷ [])

-- `NewDirHandler`.
unfoldable pub new_dir_handler : {D : Type 0} → Bytes → Bool → D → DirHandler D
new_dir_handler path send_only disk = record {
  mbox_path = path;
  deferred = none;
  send_only = send_only;
  disk = disk;
}

-- `h.deferred[mid]`, `false` on a nil map.
abbrev pub is_deferred : Option (List Bytes) → Bytes → Bool
is_deferred none mid = false
is_deferred (some mids) mid = seen_mid mid mids

-- `SetDeferred`, which panics on a nil map.
unfoldable pub set_deferred : {D : Type 0} → Bytes → DirHandler D → Outcome Error (DirHandler D)
set_deferred mid h = elim h.deferred [
  | none ↦ panic
  | some mids ↦ ok (record h { deferred = some (mid ∷ mids) })
]

-- The entries that `LoadMessageDir` passes over.
unfoldable pub is_skipped : Entry → Bool
unfolding extension
is_skipped e = e.is_dir || e.first == b'.' || not (equal_fold (extension (e.first ∷ e.rest)) ext)

-- The test of `GetOutbound` on the forwarders of the remote.
unfoldable pub is_addressed : List Address → Message → Bool
unfolding is_only_receiver
is_addressed [] m = false
is_addressed (fw ∷ fws) m = is_only_receiver m fw || is_addressed fws m

-- The private headers, removed.
abbrev pub strip : Message → Message
strip m = record m {
  header = header_del x_unread (header_del x_file_path (header_del x_p2p_only m.header));
}

-- A message of the outbox, as it is delivered, if it is.
unfoldable pub deliver_one : List Address → Option (List Bytes) → Message → Option Message
deliver_one fws deferred m = if is_deferred deferred (message_id m) then none else elim fws [
  | fw ∷ more ↦ if is_addressed (fw ∷ more) m then some m else none
  | [] ↦ if bytes_eq (header_get x_p2p_only m.header) (codes "true") then none else some (strip m)
]

unfoldable pub deliver : List Address → Option (List Bytes) → List Message → List Message
deliver fws deferred [] = []
deliver fws deferred (m ∷ ms) = elim (deliver_one fws deferred m) [
  | none ↦ deliver fws deferred ms
  | some m' ↦ m' ∷ deliver fws deferred ms
]

-- `IsUnread`.
unfoldable pub is_unread : Message → Bool
is_unread m = bytes_eq (header_get x_unread m.header) (codes "true")

-- The message that `ReadFrom` made, with the path of its file.
abbrev pub parsed_message :
    Bytes → Outcome MessageError (Message × Option MessageError) → Outcome Error Message
parsed_message path (ok (m, none)) = ok (record m { header = header_set x_file_path path m.header })
parsed_message path (ok (m, some e)) = err (cannot_parse e)
parsed_message path (err e) = err (cannot_parse e)
parsed_message path panic = panic

-- If the messages of the outbox cannot be loaded, none is delivered.
abbrev pub delivered :
    List Address → Option (List Bytes) → Outcome Error (List Message) → Outcome Error (List Message)
delivered fws deferred (ok all) = ok (deliver fws deferred all)
delivered fws deferred (err e) = ok []
delivered fws deferred panic = panic

module _ (time : TimePackage) (decoder : Decoder) {D : Type 0} (fs : FileSystem D) where
  -- `ensureDirStructure`: the directories are made in order, up to the first error.
  unfoldable pub ensure_dirs : Bytes → List Bytes → D → D × Bool
  ensure_dirs mbox [] d = (d, true)
  ensure_dirs mbox (dir ∷ dirs) d =
      let (d', fine) = fs.mkdir_all (path_join (mbox ∷ dir ∷ [])) d in
      let rest = ensure_dirs mbox dirs d' in if fine then rest else (d', false)

  abbrev pub all_dirs : List Bytes
  all_dirs = dir_inbox ∷ dir_outbox ∷ dir_sent ∷ dir_archive ∷ []

  -- `Prepare`. The flag says that the error is nil.
  unfoldable pub prepare : DirHandler D → DirHandler D × Bool
  unfolding ensure_dirs
  prepare h =
      let (d, fine) = ensure_dirs h.mbox_path all_dirs h.disk in
      (record h { deferred = some []; disk = d }, fine)

  -- `countFiles`, and the counts of the directories.
  unfoldable pub count_files : Bytes → D → ℤ
  count_files dir d = elim (fs.read_dir dir d) [
    | none ↦ negsuc 0
    | some entries ↦ pos (length entries)
  ]

  unfoldable pub message_count : Bytes → DirHandler D → ℤ
  message_count dir h = count_files (path_join (h.mbox_path ∷ dir ∷ [])) h.disk

  -- `OpenMessage`, on what `os.Open` gives.
  unfoldable pub read_message : Bytes → Opened → Outcome Error Message
  read_message path (opened s) = parsed_message path (read_from time decoder blank s)
  read_message path missing = err cannot_open
  read_message path failed = err cannot_open

  unfoldable pub open_message : Bytes → D → Outcome Error Message
  unfolding read_message
  open_message path d = read_message path (fs.open_file path d)

  -- The loop of `LoadMessageDir`.
  unfoldable pub load_messages : Bytes → D → List Entry → Outcome Error (List Message)
  load_messages dir d [] = ok []
  load_messages dir d (e ∷ es) =
      let rest = load_messages dir d es in
      if is_skipped e
      then rest
      else (open_message (path_join (dir ∷ (e.first ∷ e.rest) ∷ [])) d >>= λ m.
          rest >>= λ ms. ok (m ∷ ms))

  -- `LoadMessageDir`, on what `ioutil.ReadDir` gives.
  unfoldable pub load_entries : Bytes → D → Option (List Entry) → Outcome Error (List Message)
  unfolding load_messages
  load_entries dir d none = err cannot_read_dir
  load_entries dir d (some entries) = load_messages dir d entries

  unfoldable pub load_message_dir : Bytes → D → Outcome Error (List Message)
  unfolding load_entries
  load_message_dir dir d = load_entries dir d (fs.read_dir dir d)

  -- `Inbox`, `Outbox`, `Sent` and `Archive`.
  unfoldable pub messages_of : Bytes → DirHandler D → Outcome Error (List Message)
  messages_of dir h = load_message_dir (path_join (h.mbox_path ∷ dir ∷ [])) h.disk

  -- `AddOut`.
  unfoldable pub add_out : Message → DirHandler D → DirHandler D × Option Error
  add_out m h = elim (write time m) [
    | none ↦ (h, some no_date)
    | some data' ↦
        let (d, fine) =
          fs.write_file (message_path h.mbox_path dir_outbox (message_id m)) data' h.disk in
        (record h { disk = d }, if fine then none else some cannot_write)
  ]

  -- `ProcessInbound`, which ends at the first error. The header that it also sets on the messages in
  -- memory is not part of the result.
  unfoldable pub process_inbound : List Message → DirHandler D → DirHandler D × Option Error
  process_inbound [] h = (h, none)
  process_inbound (m ∷ ms) h =
      elim (write time (record m { header = header_set x_unread (codes "true") m.header })) [
        | none ↦ (h, some no_date)
        | some data' ↦
            let (d, fine) =
              fs.write_file (message_path h.mbox_path dir_inbox (message_id m)) data' h.disk in
            let rest = process_inbound ms (record h { disk = d }) in
            if fine then rest else (record h { disk = d }, some cannot_write)
      ]

  -- `GetInboundAnswer`.
  unfoldable pub get_inbound_answer : DirHandler D → Proposal → ℕ
  get_inbound_answer h p =
      if h.send_only
      then defer
      else elim (fs.open_file (message_path h.mbox_path dir_inbox p.mid) h.disk) [
        | opened s ↦ reject
        | missing ↦ accept
        | failed ↦ accept
      ]

  -- `SetSent`, whose second argument is not looked at. `log.Fatalf` ends the program: no result.
  unfoldable pub set_sent : Bytes → Bool → DirHandler D → Option (DirHandler D)
  set_sent mid rejected h =
      elim (fs.rename (message_path h.mbox_path dir_outbox mid)
        (message_path h.mbox_path dir_sent mid) h.disk) [
          | none ↦ none
          | some d ↦ some (record h { disk = d })
        ]

  -- `GetOutbound`.
  unfoldable pub get_outbound : List Address → DirHandler D → Outcome Error (List Message)
  unfolding deliver
  get_outbound fws h = delivered fws h.deferred (messages_of dir_outbox h)

  abbrev mark : Bool → Message → Message
  mark true m = record m { header = header_set x_unread (codes "true") m.header }
  mark false m = record m { header = header_del x_unread m.header }

  -- `SetUnread`: the message, the disk and the error.
  unfoldable pub set_unread : Message → Bool → D → Message × D × Option Error
  set_unread m unread d =
      if not unread && length (header_get x_unread m.header) == 0
      then (m, d, none)
      else (let m' = mark unread m in
          elim (write time m') [
            | none ↦ (m', d, some no_date)
            | some data' ↦ elim (header_get x_file_path m'.header) [
              | [] ↦ (m', d, some no_file_path)
              | c ∷ path ↦
                  let (d', fine) = fs.write_file (c ∷ path) data' d in
                  (m', d', if fine then none else some cannot_write)
            ]
          ])
