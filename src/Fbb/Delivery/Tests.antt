-- ===== src/Fbb/Delivery/Tests.antt =====
-- A message that is sent and received.
use wl2k_go.Prelude.{ℕ, ◌≡◌, refl, Option, none, some, [], ◌∷◌, ◌++◌, Bytes, arith}
use wl2k_go.Go.Result.{ok}
use wl2k_go.Go.Strings.{cut_at, split, codes}
use wl2k_go.Go.Textproto.{
  header_get, header_set, assign, canonical_key, all_tokens, is_token, capitals, trim_right,
  trim_left, drop_return, Header, lookup,
}
use wl2k_go.Fbb.Message.{write}
use wl2k_go.Go.Mime.{q_encode}
use wl2k_go.Fbb.Message.Compose.{
  subject, set_body, new_message, address_string, set_date, set_from, validate,
}
use wl2k_go.Fbb.Message.Made.{set_body-new_message-IsMessage}
use wl2k_go.Fbb.Message.Tests.{clock, decoder, translator, letter, letter-CanMake}
use wl2k_go.Fbb.Proposal.{
  Proposal, wl2k_proposal, gzip_proposal, empty_proposal, parse_proposal, proposal_line,
}
use wl2k_go.Fbb.Transfer.{done, write_compressed, read_compressed}
use wl2k_go.Fbb.Message.Date.{parse_date, date_layouts, mail_layouts, parse_layouts}
use wl2k_go.Fbb.Header.{decode_header, header_write, bytes_less, key_lines, other_keys, value_lines}
use wl2k_go.Go.Sort.{insert, stable_sort}
use wl2k_go.Go.Strconv.{show_int, digits}
use wl2k_go.Fbb.Address.{address_from_string, colon_address, mail_address}
use wl2k_go.Fbb.Body.{all_pieces, body_text, pieces, scan_lines, string_to_body}
use wl2k_go.Lzhuf.Coder.{decode_char, decode_loop}
use wl2k_go.Lzhuf.Tree.{
  new_lzhuff, new_nodes, new_leaves, update, climb, exchange_nodes, last_equal,
}
use wl2k_go.Lzhuf.Read.{read_bits}
use wl2k_go.Lzhuf.Bits.{shr, shl}
use wl2k_go.Fbb.Delivery.{
  message_proposal, proposal_data, proposal_message, CanSend, proposal_message-message_proposal,
}

abbrev ended : Bytes → Bytes
ended s = s ++ 13 ∷ 10 ∷ []

abbrev letter_text : Bytes
letter_text =
    ended (codes "Mid: ABC")
    ++ (ended (codes "Body: 4")
        ++ (ended (codes "Content-Transfer-Encoding: 8bit")
            ++ (ended (codes "Content-Type: text/plain; charset=ISO-8859-1")
                ++ (ended (codes "Date: 2016/12/30 01:00")
                    ++ (ended (codes "From: N0CALL")
                        ++ (ended (codes "Mbo: N0CALL")
                            ++ (ended (codes "Type: Private")
                                ++ (ended [] ++ ended (codes "hi")))))))))

letter_written : write clock letter ≡ some letter_text
unfolding write parse_date header_get lookup set_body header_set assign new_message canonical_key
    all_tokens is_token capitals header_write insert trim_right trim_left show_int digits
    address_from_string colon_address mail_address all_pieces body_text pieces scan_lines
    string_to_body bytes_less key_lines other_keys value_lines address_string set_date set_from
    date_layouts mail_layouts parse_layouts stable_sort cut_at split drop_return
letter_written = refl

-- In place of gzip, a mark in front of the text.
abbrev marked : Bytes → Bytes
marked s = 31 ∷ s

abbrev take_marked : Bytes → Option Bytes
take_marked [] = none
take_marked (c ∷ s) = some s

abbrev rooms : ℕ → ℕ
rooms i = 512

-- A file of the lzhuf tests.
copied_foo :
    proposal_data marked take_marked rooms (record empty_proposal {
      code = wl2k_proposal;
      compressed_data = 0xb6 ∷ 0x47 ∷ 0x3 ∷ 0x0 ∷ 0x0 ∷ 0x0 ∷ 0xf9 ∷ 0x7e ∷ 0xf1 ∷ 0x0 ∷ [];
    })
    ≡ some (codes "foo")
unfolding proposal_data decode_char decode_loop new_lzhuff new_nodes read_bits shr shl new_leaves
    update climb exchange_nodes last_equal
copied_foo = refl

letter-CanSend : CanSend marked take_marked rooms clock decoder letter letter_text
unfolding subject decode_header q_encode parse_date header_get lookup set_body header_set assign
    new_message canonical_key all_tokens is_token capitals header_write insert trim_right trim_left
    show_int digits address_from_string colon_address mail_address all_pieces body_text pieces
    scan_lines string_to_body bytes_less key_lines other_keys value_lines address_string set_date
    set_from date_layouts mail_layouts parse_layouts stable_sort cut_at split drop_return
letter-CanSend = record {
  message_ok =
      set_body-new_message-IsMessage clock translator (codes "ABC") 5 [] (codes "N0CALL")
        (codes "hi") decoder letter-CanMake;
  written = letter_written;
  one_word = (refl, (refl, (refl, tt)));
  some_data = omega arith;
  size = omega arith;
  compressed_size = omega arith;
  title_short = omega arith;
}

proposal_message-message_proposal_example :
    (p q' r : Proposal) × (out : Bytes) × (h' : Header) × (message_proposal marked take_marked rooms
        clock decoder gzip_proposal letter
      ≡ some (p, validate letter))
    × (parse_proposal (proposal_line p) empty_proposal ≡ ok q')
    × (write_compressed p ≡ done out)
    × (read_compressed (λ s. s) (out ++ codes "FF") q' ≡ ok (r, codes "FF"))
    × (proposal_message marked take_marked rooms clock decoder r
        ≡ ok (record letter { header = h' }, none))
    × ((k : Bytes) → lookup k h' ≡ lookup k letter.header)
proposal_message-message_proposal_example =
    proposal_message-message_proposal marked take_marked rooms clock decoder (λ s. refl) (λ s. s)
      letter letter_text (codes "FF") empty_proposal letter-CanSend refl
