-- ===== src/Mailbox/Outbound.antt =====
-- The messages that GetOutbound delivers.
use wl2k_go.Prelude.{◌≡◌, refl, inl, inr, if◌then◌else◌, Option, none, some, List, [], ◌∷◌, Bytes}
use mathlib.Core.Path.{subst}
use wl2k_go.Go.Path.{path_join}
use wl2k_go.Go.Result.{Result as Outcome, ok, err, panic}
use wl2k_go.Go.Sort.{All, Among}
use wl2k_go.Go.Strings.{bytes_eq}
use wl2k_go.Go.Textproto.{header_get, canonical_key}
use wl2k_go.Go.Textproto.Map.{header_get-header_set_any}
use wl2k_go.Fbb.Address.{Address}
use wl2k_go.Fbb.Header.{Decoder}
use wl2k_go.Fbb.Message.{Error as MessageError, Message, read_from}
use wl2k_go.Fbb.Message.Date.{TimePackage}
use wl2k_go.Mailbox.Files.{FileSystem, Entry, Opened, opened, missing, failed}
use wl2k_go.Mailbox.{
  DirHandler, Error, dir_outbox, x_file_path, is_skipped, blank, deliver_one, read_message,
  parsed_message, delivered, open_message, load_messages, load_entries, load_message_dir,
  messages_of, get_outbound,
}
use wl2k_go.Mailbox.Delivered.{
  AllOk, EachOk, AllOk-cons, AllOk-if, IfSome, Deliverable, deliver_one-Deliverable,
  deliver_one-same, deliver-All, All-true,
}

module _ (time : TimePackage) (decoder : Decoder) {D : Type 0} (fs : FileSystem D) where
  -- The message is what ReadFrom makes of a file of the directory, and the header with the path holds the
  -- path of that file.
  abbrev pub HasPath : Bytes → D → Message → Type 0
  HasPath dir d m =
      (entries : List Entry) × (e : Entry) × (s : Bytes) × (m₀ : Message) × (fs.read_dir dir d
        ≡ some entries)
      × Among e entries
      × (fs.open_file (path_join (dir ∷ (e.first ∷ e.rest) ∷ [])) d ≡ opened s)
      × (read_from time decoder blank s ≡ ok (m₀, none))
      × (m.body ≡ m₀.body)
      × (m.files ≡ m₀.files)
      × ((key : Bytes)
          → header_get key m.header ≡ (
              if bytes_eq (canonical_key x_file_path) (canonical_key key)
              then path_join (dir ∷ (e.first ∷ e.rest) ∷ [])
              else header_get key m₀.header))

  module _ (dir : Bytes) (d : D) (entries : List Entry)
      (listed : fs.read_dir dir d ≡ some entries) where
    abbrev path_of : Entry → Bytes
    path_of e = path_join (dir ∷ (e.first ∷ e.rest) ∷ [])

    parsed_message-HasPath :
        (e : Entry) (s : Bytes) (o : Outcome MessageError (Message × Option MessageError))
        → Among e entries
        → fs.open_file (path_of e) d ≡ opened s
        → read_from time decoder blank s ≡ o
        → EachOk (HasPath dir d) (parsed_message (path_of e) o)
    parsed_message-HasPath e s (ok (m, none)) at opn r = (
      entries,
      e,
      s,
      m,
      listed,
      at,
      opn,
      r,
      refl,
      refl,
      λ key. header_get-header_set_any key x_file_path (path_of e) m.header,
    )
    parsed_message-HasPath e s (ok (m, some x)) at opn r = tt
    parsed_message-HasPath e s (err x) at opn r = tt
    parsed_message-HasPath e s panic at opn r = tt

    read_message-HasPath :
        (e : Entry) (o : Opened)
        → Among e entries
        → fs.open_file (path_of e) d ≡ o
        → EachOk (HasPath dir d) (read_message time decoder fs (path_of e) o)
    unfolding read_message
    read_message-HasPath e (opened s) at opn =
        parsed_message-HasPath e s (read_from time decoder blank s) at opn refl
    read_message-HasPath e missing at opn = tt
    read_message-HasPath e failed at opn = tt

    open_message-HasPath :
        (e : Entry)
        → Among e entries
        → EachOk (HasPath dir d) (open_message time decoder fs (path_of e) d)
    unfolding open_message
    open_message-HasPath e at = read_message-HasPath e (fs.open_file (path_of e) d) at refl

    load_messages-HasPath :
        (es : List Entry)
        → ((e : Entry) → Among e es → Among e entries)
        → AllOk (HasPath dir d) (load_messages time decoder fs dir d es)
    unfolding load_messages
    load_messages-HasPath [] part = tt
    load_messages-HasPath (e ∷ es) part =
        let rest = load_messages-HasPath es (λ x at. part x (inr at)) in
        AllOk-if (HasPath dir d) (is_skipped e) _ _ rest
          (AllOk-cons (HasPath dir d) _ _ (open_message-HasPath e (part e (inl refl))) rest)

  load_entries-HasPath :
      (dir : Bytes) (d : D) (es : Option (List Entry))
      → fs.read_dir dir d ≡ es
      → AllOk (HasPath dir d) (load_entries time decoder fs dir d es)
  unfolding load_entries
  load_entries-HasPath dir d none listed = tt
  load_entries-HasPath dir d (some es) listed =
      load_messages-HasPath dir d es listed es (λ x at. at)

  abbrev pub outbox : DirHandler D → Bytes
  outbox h = path_join (h.mbox_path ∷ dir_outbox ∷ [])

  messages_of-HasPath :
      (h : DirHandler D)
      → AllOk (HasPath (outbox h) h.disk) (messages_of time decoder fs dir_outbox h)
  unfolding messages_of load_message_dir
  messages_of-HasPath h =
      load_entries-HasPath (outbox h) h.disk (fs.read_dir (outbox h) h.disk) refl

  delivered-All :
      (P Q : Message → Type 0) (fws : List Address) (deferred : Option (List Bytes))
      → ((m : Message) → P m → IfSome Q (deliver_one fws deferred m))
      → (o : Outcome Error (List Message)) → AllOk P o
      → AllOk Q (delivered fws deferred o)
  delivered-All P Q fws deferred step (ok ms) ps = deliver-All P Q fws deferred step ms ps
  delivered-All P Q fws deferred step (err e) ps = tt
  delivered-All P Q fws deferred step panic ps = tt

  AllOk-true : (o : Outcome Error (List Message)) → AllOk (λ m. Unit {0}) o
  AllOk-true (ok ms) = All-true ms
  AllOk-true (err e) = tt
  AllOk-true panic = tt

  -- Of each message that is delivered, the id is none of those that were deferred. If the remote has
  -- forwarders, the message has one receiver, whose address is, but for case, that of one of the forwarders;
  -- if it has none, the message has no value for any of the private headers.
  pub get_outbound-Deliverable :
      (fws : List Address) (h : DirHandler D) (out : List Message)
      → get_outbound time decoder fs fws h ≡ ok out
      → All (Deliverable fws h.deferred) out
  unfolding get_outbound
  get_outbound-Deliverable fws h out e = subst (AllOk (Deliverable fws h.deferred)) e (
      delivered-All (λ m. Unit {0}) (Deliverable fws h.deferred) fws h.deferred
        (λ m u. deliver_one-Deliverable fws h.deferred m) _
        (AllOk-true (messages_of time decoder fs dir_outbox h)))

  -- If the remote has forwarders, each message that is delivered is read from a file that the listing of the
  -- outbox has: its text and its files are those that ReadFrom gives on the file's bytes, without an error, and
  -- so is the value of each header but X-FilePath, which holds the path of that file.
  pub get_outbound-HasPath :
      (fw : Address) (fws : List Address) (h : DirHandler D) (out : List Message)
      → get_outbound time decoder fs (fw ∷ fws) h ≡ ok out
      → All (HasPath (outbox h) h.disk) out
  unfolding get_outbound
  get_outbound-HasPath fw fws h out e =
      let P = HasPath (outbox h) h.disk in
      subst (AllOk P) e (
        delivered-All P P (fw ∷ fws) h.deferred (deliver_one-same P fw fws h.deferred) _
          (messages_of-HasPath h))
