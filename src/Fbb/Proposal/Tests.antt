-- ===== src/Fbb/Proposal/Tests.antt =====
-- Runs of the proposal parser, and its theorem at a concrete input.
use wl2k_go.Prelude.{◌≡◌, refl, inl, arith}
use wl2k_go.Prelude.Int.{pos}
use wl2k_go.Go.Result.{ok, err, panic}
use wl2k_go.Go.Strings.{codes, split}
use wl2k_go.Go.Strconv.{atoi, parse_int, unsigned_part, scan, digit_value, signed, show_int, digits}
use wl2k_go.Fbb.Error.{malformed_proposal}
use wl2k_go.Fbb.Proposal.{
  Proposal, empty_proposal, wl2k_proposal, parse_parts, parse_b2_proposal, parse_coded,
  parse_proposal, proposal_line,
}
use wl2k_go.Fbb.Proposal.RoundTrip.{offered, parse_proposal-proposal_line}

abbrev pending : Proposal
pending = record empty_proposal {
  code = wl2k_proposal;
  msg_type = codes "EM";
  mid = codes "TJKYEIMMHSRB";
  title = codes "Hello";
  size = pos 527;
  compressed_size = pos 123;
}

line_run : proposal_line pending ≡ codes "FC EM TJKYEIMMHSRB 527 123 0"
unfolding proposal_line show_int digits
line_run = refl

parse_run :
    parse_proposal (codes "FC EM TJKYEIMMHSRB 527 123 0") empty_proposal
    ≡ ok (offered empty_proposal pending)
unfolding parse_proposal parse_coded parse_b2_proposal parse_parts split atoi parse_int
    unsigned_part scan digit_value signed
parse_run = refl

few_words_run :
    parse_proposal (codes "FC EM TJKYEIMMHSRB 527") empty_proposal ≡ err malformed_proposal
unfolding parse_proposal parse_coded parse_b2_proposal split
few_words_run = refl

short_line_run : parse_proposal (codes "F") empty_proposal ≡ panic
unfolding parse_proposal
short_line_run = refl

parse_proposal-proposal_line_example :
    parse_proposal (proposal_line pending) empty_proposal ≡ ok (offered empty_proposal pending)
parse_proposal-proposal_line_example = parse_proposal-proposal_line empty_proposal pending (record {
  b2_code = inl refl;
  known_type = inl refl;
  one_word = (
    refl,
    (refl, (refl, (refl, (refl, (refl, (refl, (refl, (refl, (refl, (refl, (refl, tt))))))))))),
  );
  size_low = omega arith;
  size_high = omega arith;
  compressed_low = omega arith;
  compressed_high = omega arith;
})
