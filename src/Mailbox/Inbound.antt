-- ===== src/Mailbox/Inbound.antt =====
-- What has been received is answered with a reject.
use wl2k_go.Prelude.{
  ◌≡◌, refl, ap, sym, ◌∙◌, inl, inr, true, false, none, some, List, [], ◌∷◌, Bytes, arith,
  Bool-cases, Option-cases,
}
use wl2k_go.Go.Strings.{codes, bytes_eq, bytes_eq→eq}
use wl2k_go.Go.Sort.{All, All-mono}
use wl2k_go.Go.Textproto.{header_set}
use wl2k_go.Fbb.Header.{Decoder}
use wl2k_go.Fbb.Message.{Message, write}
use wl2k_go.Fbb.Message.Date.{TimePackage}
use wl2k_go.Fbb.Proposal.{Proposal, reject}
use wl2k_go.Mailbox.Files.{FileSystem, IsFileSystem, Opened, opened}
use wl2k_go.Mailbox.{
  DirHandler, dir_inbox, message_path, message_id, x_unread, process_inbound, get_inbound_answer,
}

abbrev pub IsOpened : Opened → Type 0
IsOpened o = (s : Bytes) × (o ≡ opened s)

module _ (time : TimePackage) (decoder : Decoder) {D : Type 0} (fs : FileSystem D)
    (laws : IsFileSystem fs) where
  abbrev inbox_path : DirHandler D → Message → Bytes
  inbox_path h m = message_path h.mbox_path dir_inbox (message_id m)

  abbrev marked : Message → Message
  marked m = record m { header = header_set x_unread (codes "true") m.header }

  write_file-IsOpened :
      (p q b : Bytes) (d : D)
      → (fs.write_file p b d).1 ≡ true
      → IsOpened (fs.open_file q d)
      → IsOpened (fs.open_file q (fs.write_file p b d).0)
  write_file-IsOpened p q b d fine (s, e) = elim (Bool-cases (bytes_eq p q)) [
    | inl same ↦ (
      b,
      ap (λ r. fs.open_file r (fs.write_file p b d).0) (sym (bytes_eq→eq p q same))
          ∙ laws.written p b d fine,
    )
    | inr other ↦ (s, laws.write_kept p q b d other ∙ e)
  ]

  -- The first message of a list that is received with no error: what is written of it, and where the
  -- rest of the list is received.
  abbrev Received : Message → List Message → DirHandler D → Type 0
  Received m ms h =
      (data' : Bytes) × (write time (marked m) ≡ some data')
      × ((fs.write_file (inbox_path h m) data' h.disk).1 ≡ true)
      × (process_inbound time decoder fs (m ∷ ms) h
          ≡ process_inbound time decoder fs ms
              (record h { disk = (fs.write_file (inbox_path h m) data' h.disk).0 }))

  first-Received :
      (m : Message) (ms : List Message) (h : DirHandler D)
      → (process_inbound time decoder fs (m ∷ ms) h).1 ≡ none
      → Received m ms h
  unfolding process_inbound
  first-Received m ms h e = elim (Option-cases (write time (marked m))) [
    | inl no_data ↦ ground arith
    | inr (data', e₁) ↦ elim (Bool-cases (fs.write_file (inbox_path h m) data' h.disk).1) [
      | inl fine ↦ (data', e₁, fine, ground (arith, e₁, fine))
      | inr bad ↦ ground (arith, e₁, bad)
    ]
  ]

  -- What holds when some messages are received with no error: the files that could be opened still can,
  -- and so can that of each message.
  pub record Holds (ms : List Message) (h h' : DirHandler D) : Type 0 where
    pub path : h'.mbox_path ≡ h.mbox_path
    pub send : h'.send_only ≡ h.send_only
    pub stays : (q : Bytes) → IsOpened (fs.open_file q h.disk) → IsOpened (fs.open_file q h'.disk)
    pub arrived : All (λ m. IsOpened (fs.open_file (inbox_path h m) h'.disk)) ms

  process_inbound-Holds :
      (ms : List Message) (h : DirHandler D)
      → (process_inbound time decoder fs ms h).1 ≡ none
      → Holds ms h (process_inbound time decoder fs ms h).0
  unfolding process_inbound
  process_inbound-Holds [] h e = record { path = refl; send = refl; stays = λ q o. o; arrived = tt }
  process_inbound-Holds (m ∷ ms) h e =
      let (data', e₁, fine, step) = first-Received m ms h e in
      let d = (fs.write_file (inbox_path h m) data' h.disk).0 in
      let rest = process_inbound-Holds ms (record h { disk = d }) (sym (ap (λ x. x.1) step) ∙ e) in
      rw step (record {
        path = rest.path;
        send = rest.send;
        stays = λ q o. rest.stays q (write_file-IsOpened (inbox_path h m) q data' h.disk fine o);
        arrived = (
          rest.stays (inbox_path h m) (data', laws.written (inbox_path h m) data' h.disk fine),
          rest.arrived,
        );
      })

  -- If the messages are received with no error by a mailbox that does not only send, a proposal whose
  -- message id is that of one of them is answered with a reject.
  pub process_inbound-reject :
      (ms : List Message) (h : DirHandler D)
      → h.send_only ≡ false
      → (process_inbound time decoder fs ms h).1 ≡ none
      → All
          (λ m.
            (p : Proposal)
            → p.mid ≡ message_id m
            → get_inbound_answer time decoder fs (process_inbound time decoder fs ms h).0 p
              ≡ reject)
          ms
  unfolding get_inbound_answer
  process_inbound-reject ms h e fine =
      let w = process_inbound-Holds ms h fine in
      All-mono _ _ ms (λ m o p id. rw (w.send ∙ e, w.path, id, o.1) refl) w.arrived
