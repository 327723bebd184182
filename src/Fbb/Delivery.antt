-- ===== src/Fbb/Delivery.antt =====
-- fbb/message.go and fbb/proposal.go: the proposal of a message, and the message of a proposal that was received. Of
-- compression, that of the standard library's package gzip is a parameter, and that of lzhuf is the model of it.
mod Tests
use wl2k_go.Prelude.{
  ℕ, zero, suc, true, ◌+◌, ◌^◌, ◌≤◌, ◌<◌, ◌≡◌, refl, sym, ap, ◌∙◌, ◌⊎◌, inl, inr, Option, none,
  some, [], ◌∷◌, ◌++◌, Bytes, arith, length, drop, if◌then◌else◌, ◌==◌,
}
use mathlib.Core.Path.{subst}
use wl2k_go.Prelude.Int.{ℤ, pos, negsuc}
use wl2k_go.Go.Result.{Result as Outcome, ok, err, panic}
use wl2k_go.Go.Strings.{codes, Free}
use wl2k_go.Go.Strconv.{show_int, digits}
use wl2k_go.Go.Mime.{q_encode}
use wl2k_go.Go.Textproto.{Header, lookup, header_get}
use wl2k_go.Fbb.Header.{Decoder, header_mid}
use wl2k_go.Fbb.Message.Date.{TimePackage}
use wl2k_go.Fbb.Message.{Error, Message, read_from, write}
use wl2k_go.Fbb.Message.Compose.{Invalid, subject, validate}
use wl2k_go.Fbb.Message.RoundTrip.{IsMessage, read_from-write}
use wl2k_go.Fbb.Proposal.{Proposal, empty_proposal, gzip_proposal, parse_proposal, proposal_line}
use wl2k_go.Fbb.Proposal.RoundTrip.{IsOffered, offered, parse_proposal-proposal_line}
use wl2k_go.Lzhuf.Writer.{compressed}
use wl2k_go.Lzhuf.Reader.{Reader, Error as ReadError, eof, read, new_reader}
use wl2k_go.Fbb.Transfer.{done, write_compressed, read_compressed}
use wl2k_go.Fbb.Transfer.RoundTrip.{read_compressed-write_compressed}

one_text : (x : Option Bytes) (s t : Bytes) → x ≡ some s → x ≡ some t → s ≡ t
one_text x s t p q = cc

-- What a Read of the lzhuf reader gave: the text ends, or goes on with what the next Reads give.
abbrev copy_more :
    Option (Reader × Bytes × Option ReadError) → (Reader → Option Bytes) → Option Bytes
copy_more none next = none
copy_more (some (d, out, none)) next = elim (next d) [
  | none ↦ none
  | some more ↦ some (out ++ more)
]
copy_more (some (d, out, some eof)) next = some out
copy_more (some (d, out, some e)) next = none

abbrev size_of : ℤ → ℕ
size_of (pos n) = n
size_of (negsuc n) = 0

-- `io.Copy` of an lzhuf reader. `room i` is the room that the buffer has at the Read `i`, one byte at least; so each
-- Read gives a byte, or an error.
unfoldable pub copy_lzhuf : (ℕ → ℕ) → ℕ → ℕ → Reader → Option Bytes
unfolding read
copy_lzhuf room zero i d = none
copy_lzhuf room (suc f) i d = copy_more (read (room i) d) (copy_lzhuf room f (i + 1))

-- `gzip s` is what Go's gzip writer makes of a text, and `gunzip` what its reader makes of that; none is an error.
module _ (gzip : Bytes → Bytes) (gunzip : Bytes → Option Bytes) (room : ℕ → ℕ) where
  -- The switch of `NewProposal`; none only if a loop of the lzhuf writer runs out of rounds.
  unfoldable pub compress_data : ℕ → Bytes → Option Bytes
  unfolding compressed
  compress_data code s = if code == gzip_proposal then some (gzip s) else compressed true s

  abbrev pub with_data : Bytes → Bytes → ℕ → Bytes → Bytes → Proposal
  with_data mid title code s data' = record empty_proposal {
    mid = mid;
    code = code;
    msg_type = codes "EM";
    title = if length title == 0 then codes "No title" else title;
    size = pos (length s);
    compressed_data = data';
    compressed_size = pos (length data');
  }

  -- `NewProposal`.
  unfoldable pub new_proposal : Bytes → Bytes → ℕ → Bytes → Option Proposal
  unfolding compress_data
  new_proposal mid title code s = elim (compress_data code s) [
    | none ↦ none
    | some data' ↦ some (with_data mid title code s data')
  ]

  abbrev opened_data : Outcome ReadError Reader → Option Bytes
  opened_data (ok d) = copy_lzhuf room (size_of d.size + 2) 0 d
  opened_data (err e) = none
  opened_data panic = none

  -- `Data`, which panics at an error of the readers (none). On lzhuf data of a negative size, `io.Copy` does not end;
  -- here it is none too.
  unfoldable pub proposal_data : Proposal → Option Bytes
  unfolding new_reader copy_lzhuf
  proposal_data p =
      if p.code == gzip_proposal
      then gunzip p.compressed_data
      else opened_data (new_reader true p.compressed_data)

  module _ (time : TimePackage) (d : Decoder) where
    -- `Message.Proposal`, with what `Validate` says; none if the message is not written.
    unfoldable pub message_proposal : ℕ → Message → Option (Proposal × Option Invalid)
    unfolding new_proposal
    message_proposal code m = elim (write time m) [
      | none ↦ none
      | some s ↦ elim (new_proposal (header_get header_mid m.header) (subject d m) code s) [
        | none ↦ none
        | some p ↦ some (p, validate m)
      ]
    ]

    -- `Proposal.Message`.
    unfoldable pub proposal_message : Proposal → Outcome Error (Message × Option Error)
    unfolding proposal_data
    proposal_message p = elim (proposal_data p) [
      | none ↦ panic
      | some s ↦ read_from time d (record { header = []; body = []; files = [] }) s
    ]

    -- A message that can be sent under the gzip code: it is well-formed, its id is one word, and the sizes fit.
    pub record CanSend (m : Message) (s : Bytes) : Type 0 where
      pub message_ok : IsMessage time d m
      pub written : write time m ≡ some s
      pub one_word : Free b' ' (header_get header_mid m.header)
      pub some_data : 6 ≤ length (gzip s)
      pub size : length s < 2 ^ 63
      pub compressed_size : length (gzip s) < 2 ^ 63
      pub title_short :
          length (q_encode (if length (subject d m) == 0 then codes "No title" else subject d m))
          < 250

    -- The proposal that is made.
    abbrev pub made : Message → Bytes → Proposal
    made m s = with_data (header_get header_mid m.header) (subject d m) gzip_proposal s (gzip s)

    message_proposal-eq :
        (m : Message) (s : Bytes)
        → write time m ≡ some s
        → message_proposal gzip_proposal m ≡ some (made m s, validate m)
    unfolding message_proposal new_proposal compress_data
    message_proposal-eq m s e = rw (message_proposal, e) refl

    made-IsOffered : (m : Message) (s : Bytes) → CanSend m s → IsOffered (made m s)
    made-IsOffered m s c = record {
      b2_code = inr refl;
      known_type = inl refl;
      one_word = c.one_word;
      size_low = omega arith;
      size_high = omega (arith, c.size);
      compressed_low = omega arith;
      compressed_high = omega (arith, c.compressed_size);
    }

    proposal_message-eq :
        (p : Proposal) (s : Bytes)
        → p.code ≡ gzip_proposal
        → gunzip p.compressed_data ≡ some s
        → proposal_message p ≡ read_from time d (record { header = []; body = []; files = [] }) s
    unfolding proposal_message proposal_data
    proposal_message-eq p s c e = rw (proposal_message, c, e) refl

    write_compressed-made :
        (decode : Bytes → Bytes) (m : Message) (s rest : Bytes) (q : Proposal)
        → CanSend m s
        → q.offset ≡ pos 0
        → (out : Bytes) × (write_compressed (made m s) ≡ done out)
          × (read_compressed decode (out ++ rest) (offered q (made m s))
              ≡ ok (
                record (offered q (made m s)) {
                  title = decode (q_encode (made m s).title);
                  compressed_data = gzip s;
                },
                rest,
              ))
    unfolding show_int digits
    write_compressed-made decode m s rest q c at_start =
        read_compressed-write_compressed decode (made m s) (offered q (made m s)) 0 rest
          (omega (arith, c.some_data)) (omega arith) (omega arith) (omega (arith, c.title_short))
          refl at_start refl

    -- A message is made a proposal under the code of gzip. It is well-formed, its id is one word, its title takes less
    -- than 250 bytes, its compressed data at least six, and the sizes fit. The other side, without an offset, parses the
    -- line of the proposal to a proposal `q'`, and reads the data that are sent of it, whatever follows them. If Go's
    -- package gzip gives back the texts that it was given, the message that it makes of these is read with no error: it
    -- has the body and the files of the message that was sent, and the same header fields.
    pub proposal_message-message_proposal :
        ((s : Bytes) → gunzip (gzip s) ≡ some s)
        → (decode : Bytes → Bytes) (m : Message) (s rest : Bytes) (q : Proposal) → CanSend m s
        → q.offset ≡ pos 0
        → (p q' r : Proposal) × (out : Bytes) × (h' : Header) × (message_proposal gzip_proposal m
            ≡ some (p, validate m))
          × (parse_proposal (proposal_line p) q ≡ ok q')
          × (write_compressed p ≡ done out)
          × (read_compressed decode (out ++ rest) q' ≡ ok (r, rest))
          × (proposal_message r ≡ ok (record m { header = h' }, none))
          × ((k : Bytes) → lookup k h' ≡ lookup k m.header)
    proposal_message-message_proposal restores decode m s rest q c at_start =
        let p = made m s in
        let q' = offered q p in
        let (out, sent, received) = write_compressed-made decode m s rest q c at_start in
        let r = record q' { title = decode (q_encode p.title); compressed_data = gzip s } in
        let empty : Message = record { header = []; body = []; files = [] } in
        let (s', h', e, read, same) = read_from-write time d m c.message_ok empty in
        let s_eq : s' ≡ s = one_text (write time m) s' s e c.written in
        (
          p,
          q',
          r,
          out,
          h',
          message_proposal-eq m s c.written,
          parse_proposal-proposal_line q p (made-IsOffered m s c),
          sent,
          received,
          proposal_message-eq r s refl (restores s) ∙ ap (read_from time d empty) (sym s_eq) ∙ read,
          same,
        )
