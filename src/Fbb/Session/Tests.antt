-- ===== src/Fbb/Session/Tests.antt =====
-- Runs of a session with a small mailbox, and the theorems of its turns at concrete inputs.
use wl2k_go.Prelude.{◌≡◌, refl, true, false, some, List, [], ◌∷◌, ◌++◌, Bytes, arith, if◌then◌else◌}
use wl2k_go.Go.Sort.{All}
use wl2k_go.Fbb.Session.Outbound.Sent.{Justified, transmit_lem}
use wl2k_go.Fbb.Error.{Ends, Error}
use wl2k_go.Prelude.{none}
use wl2k_go.Prelude.Int.{pos}
use wl2k_go.Go.Result.{ok}
use wl2k_go.Go.Strings.{codes, bytes_eq}
use wl2k_go.Go.Sort.{insert, stable_sort}
use wl2k_go.Fbb.Proposal.{Proposal, empty_proposal, accept}
use wl2k_go.Go.Strings.{cut_at, split}
use wl2k_go.Go.Strconv.{show_int, digits, show_hex2, hex_digit}
use wl2k_go.Go.Utf8.{runes, runes_loop, decode_rune}
use wl2k_go.Go.Mime.{q_encode}
use wl2k_go.Fbb.Line.{
  next_line, next_line_remote_err, clean_string, clean_begin, clean_end, trim_space, trim_loop,
  space_width, last_space_width, cut_nul, err_line, after_last, wide_space, checked_line,
}
use wl2k_go.Fbb.Proposal.{proposal_line, parse_proposal}
use wl2k_go.Fbb.Sorting.{sort_proposals}
use wl2k_go.Fbb.Answer.{parse_proposal_answer, parse_answers, read_answer}
use wl2k_go.Fbb.Transfer.{sum_bytes, write_compressed, write_data, write_blocks}
use wl2k_go.Fbb.Block.{
  write_block, proposal_lines, block_checksum, read_lines, read_prompt, command,
}
use wl2k_go.Fbb.Session.Defs.{parsed, MboxHandler, Messages, Session, outbound, prepare_all}
use wl2k_go.Fbb.Session.Outbound.{
  handle_outbound, send_outbound, wait_reply, transmit, report_rejected, report_sent, confirm,
  turnover, unrejected, put,
}
use wl2k_go.Fbb.Session.Outbound.Turn.{TurnEnd, handle_outbound-TurnEnd}
use wl2k_go.Fbb.Session.Inbound.{fetch_all, answer_block, handle_inbound}
use wl2k_go.Fbb.Session.Inbound.Fetch.{Fetched, fetch_all-Fetched}
use wl2k_go.Fbb.Handshake.{Station, parse_sid, first_match, match_sid, cut_last, sid_has}
use wl2k_go.Fbb.Session.Kept.{Kept}
use wl2k_go.Fbb.Session.Handshake.{
  handshake, read_handshake, send_handshake, handshake_text, fw_addresses, aux_addresses,
}
use wl2k_go.Fbb.Session.Handshake.Agreed.{Agreed, handshake-Kept}
use wl2k_go.Fbb.Session.Exchange.Whole.{exchange-ExchangeEnd}
use wl2k_go.Fbb.Session.Exchange.{exchange_turns, turns, exchange, prepare_mbox, close_session}
use wl2k_go.Fbb.Session.Exchange.End.{ExchangeEnd}

-- A mailbox is the list of the messages to send, each with its proposal.
unfoldable without : Bytes → List Proposal → List Proposal
without mid [] = []
without mid (p ∷ ps) = if bytes_eq p.mid mid then without mid ps else p ∷ without mid ps

abbrev mailbox : MboxHandler (List Proposal) Proposal
mailbox = record {
  prepare = λ m. (m, true);
  get_outbound = λ addrs m. m;
  set_sent = λ mid rej m. without mid m;
  set_deferred = λ mid m. without mid m;
  process_inbound = λ msg m. (m, true);
  get_inbound_answer = λ m p. accept;
}

abbrev messages : Messages Proposal
messages = record {
  validate = λ m. true;
  to_proposal = λ code m. some m;
  from_proposal = λ p. parsed p;
}

abbrev message : Proposal
message = record empty_proposal {
  code = b'C';
  msg_type = codes "EM";
  mid = codes "AB";
  title = codes "Hi";
  size = pos 9;
  compressed_data = 1 ∷ 2 ∷ 3 ∷ 4 ∷ 5 ∷ 6 ∷ [];
  compressed_size = pos 6;
}

abbrev fresh : Bytes → List Proposal → Session (List Proposal)
fresh rd mbox = record {
  master = false;
  remote_sid = [];
  remote_fw = [];
  prop_code = b'C';
  received = [];
  sent = [];
  quit_received = false;
  quit_sent = false;
  remote_no_msgs = false;
  rd = rd;
  out = [];
  mbox = mbox;
}

abbrev same : Bytes → Bytes
same s = s

abbrev accepting : Session (List Proposal)
accepting = fresh (codes "FS +" ++ 13 ∷ (codes "FQ" ++ 13 ∷ [])) (message ∷ [])

handle_outbound-TurnEnd_example :
    TurnEnd (some mailbox) messages accepting (handle_outbound (some mailbox) messages 9 accepting)
handle_outbound-TurnEnd_example =
    handle_outbound-TurnEnd (some mailbox) messages 9 accepting (omega arith)

abbrev delivering : Session (List Proposal)
delivering =
    fresh (1 ∷ 5 ∷ b'H' ∷ b'i' ∷ 0 ∷ b'0' ∷ 0 ∷ 2 ∷ 6 ∷ 1 ∷ 2 ∷ 3 ∷ 4 ∷ 5 ∷ 6 ∷ 4 ∷ 235 ∷ []) []

abbrev offers : List Proposal
offers = record message { answer = accept } ∷ []

fetch_all-Fetched_example :
    Fetched
      (codes "AB" ∷ [])
      false
      delivering
      (fetch_all (some mailbox) messages same offers delivering)
fetch_all-Fetched_example = fetch_all-Fetched (some mailbox) messages same offers delivering

transmit_lem_example :
    Ends
      (λ sent. All (Justified offers) sent)
      (transmit (some mailbox) messages offers [] accepting).1
transmit_lem_example = transmit_lem (some mailbox) messages offers accepting

abbrev station : Station
station = record {
  mycall = codes "LA5NTA";
  targetcall = codes "LA1B";
  locator = codes "JP20";
  local_fw = record { proto = []; addr = codes "LA5NTA" } ∷ [];
  ua_name = codes "wl2kgo";
  ua_version = codes "0.1a";
  motd = [];
  secure_login = none;
  gzip = false;
  fw_aux_only = false;
}

abbrev no_text : Error → Bytes
no_text e = []

-- The other side's SID and its prompt, then its answer and its quit.
abbrev greeting : Session (List Proposal)
greeting =
    fresh
      (codes "[X-1-B2FHM$]"
        ++ 13 ∷ (codes "Hi>" ++ 13 ∷ (codes "FS +" ++ 13 ∷ (codes "FQ" ++ 13 ∷ []))))
      (message ∷ [])

handshake-Kept_example : Kept Agreed greeting (handshake station same greeting)
handshake-Kept_example = handshake-Kept station same greeting

exchange-ExchangeEnd_example :
    ExchangeEnd
      (some mailbox)
      messages
      greeting
      (exchange (some mailbox) messages same same no_text station greeting)
exchange-ExchangeEnd_example =
    exchange-ExchangeEnd (some mailbox) messages same same no_text station greeting refl

-- The message is offered, accepted, transferred, confirmed by the other side's quit, and recorded.
exchange_run :
    let (s, r) = exchange_turns (some mailbox) messages same accepting in
    (r ≡ ok tt) × (s.sent ≡ codes "AB" ∷ []) × (s.mbox ≡ []) × (s.quit_received ≡ true)
unfolding exchange_turns turns handle_outbound handle_inbound outbound prepare_all sort_proposals
    stable_sort insert send_outbound wait_reply transmit report_rejected report_sent confirm
    turnover unrejected put without write_block proposal_lines block_checksum proposal_line show_int
    digits show_hex2 hex_digit runes runes_loop decode_rune sum_bytes next_line next_line_remote_err
    clean_string clean_begin clean_end trim_space trim_loop space_width last_space_width cut_nul
    err_line after_last cut_at parse_proposal_answer parse_answers read_answer write_compressed
    write_data write_blocks q_encode read_lines parse_proposal read_prompt command fetch_all
    answer_block wide_space checked_line
exchange_run = (refl, refl, refl, refl)

-- The same behind a handshake.
whole_run :
    let (s, r) = exchange (some mailbox) messages same same no_text station greeting in
    (r ≡ ok tt) × (s.sent ≡ codes "AB" ∷ []) × (s.remote_sid ≡ codes "B2FHM$")
unfolding exchange prepare_mbox close_session handshake read_handshake send_handshake handshake_text
    fw_addresses aux_addresses parse_sid first_match match_sid cut_last sid_has split exchange_turns
    turns handle_outbound handle_inbound outbound prepare_all sort_proposals stable_sort insert
    send_outbound wait_reply transmit report_rejected report_sent confirm turnover unrejected put
    without write_block proposal_lines block_checksum proposal_line show_int digits show_hex2
    hex_digit runes runes_loop decode_rune sum_bytes next_line next_line_remote_err clean_string
    clean_begin clean_end trim_space trim_loop space_width last_space_width cut_nul err_line
    after_last cut_at parse_proposal_answer parse_answers read_answer write_compressed write_data
    write_blocks q_encode read_lines parse_proposal read_prompt command fetch_all answer_block
    wide_space checked_line
whole_run = (refl, refl, refl)
