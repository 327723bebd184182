-- ===== src/Mailbox/RoundTrip.antt =====
-- A message that is put in the outbox and sent is read back from the directory of the sent ones.
use wl2k_go.Prelude.{
  ◌≡◌, refl, ap, ◌∙◌, inl, inr, Bool, false, none, some, Bytes, arith, if◌then◌else◌, Bool-cases,
}
use mathlib.Core.Path.{subst}
use wl2k_go.Go.Strings.{bytes_eq}
use wl2k_go.Go.Result.{ok}
use wl2k_go.Go.Textproto.{Header, lookup, header_set}
use wl2k_go.Fbb.Header.{Decoder}
use wl2k_go.Fbb.Message.{Message, write}
use wl2k_go.Fbb.Message.Date.{TimePackage}
use wl2k_go.Fbb.Message.RoundTrip.{IsMessage, read_from-write}
use wl2k_go.Mailbox.Files.{FileSystem, IsFileSystem, opened, missing}
use wl2k_go.Mailbox.{
  DirHandler, dir_outbox, dir_sent, message_path, message_id, x_file_path, blank, add_out, set_sent,
  open_message, read_message, parsed_message, cannot_write,
}

module _ (time : TimePackage) (decoder : Decoder) {D : Type 0} (fs : FileSystem D)
    (laws : IsFileSystem fs) where
  abbrev pub out_path : DirHandler D → Bytes → Bytes
  out_path h mid = message_path h.mbox_path dir_outbox mid

  abbrev pub sent_path : DirHandler D → Bytes → Bytes
  sent_path h mid = message_path h.mbox_path dir_sent mid

  -- The file at the path holds the message: it is opened with no error, as the message with the path of
  -- its file in a header.
  abbrev pub IsStored : Message → Bytes → D → Type 0
  IsStored m path d =
      (h : Header) × (open_message time decoder fs path d
        ≡ ok (record m { header = header_set x_file_path path h }))
      × ((k : Bytes) → lookup k h ≡ lookup k m.header)

  open_message-IsStored :
      (m : Message) (path : Bytes) (d : D) (s : Bytes)
      → IsMessage time decoder m
      → write time m ≡ some s
      → fs.open_file path d ≡ opened s
      → IsStored m path d
  unfolding open_message read_message
  open_message-IsStored m path d s w e o =
      let (s', h', e', read, same) = read_from-write time decoder m w blank in
      let eq : s ≡ s' = cc in
      (
        h',
        ap (read_message time decoder fs path) (o ∙ ap opened eq) ∙ ap (parsed_message path) read,
        same,
      )

  add_out-eq :
      (m : Message) (h : DirHandler D) (s : Bytes)
      → write time m ≡ some s
      → add_out time decoder fs m h ≡ (
        record h { disk = (fs.write_file (out_path h (message_id m)) s h.disk).0 },
        if (fs.write_file (out_path h (message_id m)) s h.disk).1 then none else some cannot_write,
      )
  unfolding add_out
  add_out-eq m h s e = ground (arith, e)

  add_out-opened :
      (m : Message) (h : DirHandler D) (s : Bytes)
      → write time m ≡ some s
      → (add_out time decoder fs m h).1 ≡ none
      → ((add_out time decoder fs m h).0.mbox_path ≡ h.mbox_path)
        × (fs.open_file (out_path h (message_id m)) (add_out time decoder fs m h).0.disk ≡ opened s)
  add_out-opened m h s e fine =
      elim (Bool-cases (fs.write_file (out_path h (message_id m)) s h.disk).1) [
        | inl f ↦
            rw (add_out-eq m h s e) (refl, laws.written (out_path h (message_id m)) s h.disk f)
        | inr f ↦ ground (arith, add_out-eq m h s e, fine, f)
      ]

  set_sent-disk :
      (mid : Bytes) (rejected : Bool) (h h' : DirHandler D)
      → set_sent time decoder fs mid rejected h ≡ some h'
      → fs.rename (out_path h mid) (sent_path h mid) h.disk ≡ some h'.disk
  unfolding set_sent
  set_sent-disk mid rejected h h' e = ground (arith, e)

  -- A well-formed message that is put in the outbox with no error, and then recorded as sent, is opened
  -- at its path among the sent messages as it was, with that path in a header. If the two paths are not
  -- the same, its file in the outbox is gone.
  pub set_sent-add_out :
      (m : Message) (h h' : DirHandler D) (rejected : Bool)
      → IsMessage time decoder m
      → (add_out time decoder fs m h).1 ≡ none
      → set_sent time decoder fs (message_id m) rejected (add_out time decoder fs m h).0 ≡ some h'
      → IsStored m (sent_path h (message_id m)) h'.disk
        × (bytes_eq (out_path h (message_id m)) (sent_path h (message_id m)) ≡ false
            → fs.open_file (out_path h (message_id m)) h'.disk ≡ missing)
  set_sent-add_out m h h' rejected w fine sent =
      let id = message_id m in
      let (s, x, e, y, z) = read_from-write time decoder m w blank in
      let (same, o) = add_out-opened m h s e fine in
      let disk = (add_out time decoder fs m h).0.disk in
      let mv : fs.rename (out_path h id) (sent_path h id) disk ≡ some h'.disk =
        subst
          (λ p.
            fs.rename (message_path p dir_outbox id) (message_path p dir_sent id) disk
            ≡ some h'.disk)
          same (set_sent-disk id rejected (add_out time decoder fs m h).0 h' sent) in
      (
        open_message-IsStored m (sent_path h id) h'.disk s w e
            (laws.moved (out_path h id) (sent_path h id) s disk h'.disk mv o),
        λ ne. laws.gone (out_path h id) (sent_path h id) s disk h'.disk ne mv o,
      )
