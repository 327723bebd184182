-- ===== src/Fbb/Proposal.antt =====
-- fbb/proposal.go: proposals, and the line that offers one.
pub mod RoundTrip
mod Tests
use wl2k_go.Prelude.{
  ℕ, zero, suc, ◌<◌, ◌+◌, Bool, true, false, not, ◌&&◌, ◌||◌, List, [], ◌∷◌, ◌++◌, Bytes, ltb, leb,
  ◌==◌, if◌then◌else◌, length, drop,
}
use wl2k_go.Prelude.Int.{ℤ, pos, eq_ℤ}
use wl2k_go.Go.Result.{ok, err, panic, ◌>>=◌}
use wl2k_go.Go.Strings.{codes, bytes_eq, contains, split}
use wl2k_go.Go.Strconv.{atoi, show_int}
use wl2k_go.Fbb.Error.{
  Error, Result, unsupported_code, proposal_too_short, not_b2_proposal, malformed_proposal,
  malformed_type, unexpected_type, too_many_parts,
}

-- The constants of `PropCode` and `ProposalAnswer`, which are bytes.
abbrev pub basic_proposal : ℕ
basic_proposal = b'B'

abbrev pub ascii_proposal : ℕ
ascii_proposal = b'A'

abbrev pub wl2k_proposal : ℕ
wl2k_proposal = b'C'

abbrev pub gzip_proposal : ℕ
gzip_proposal = b'D'

abbrev pub accept : ℕ
accept = b'+'

abbrev pub reject : ℕ
reject = b'-'

abbrev pub defer : ℕ
defer = b'='

pub record Proposal : Type 0 where
  pub code : ℕ
  pub msg_type : Bytes
  pub mid : Bytes
  pub answer : ℕ
  pub title : Bytes
  pub offset : ℤ
  pub sent : Bool
  pub size : ℤ
  pub compressed_data : Bytes
  pub compressed_size : ℤ

-- `new(Proposal)`
abbrev pub empty_proposal : Proposal
empty_proposal = record {
  code = 0;
  msg_type = [];
  mid = [];
  answer = 0;
  title = [];
  offset = pos 0;
  sent = false;
  size = pos 0;
  compressed_data = [];
  compressed_size = pos 0;
}

unfoldable pub data_is_complete : Proposal → Bool
data_is_complete p = eq_ℤ (pos (length p.compressed_data)) p.compressed_size

-- The loop over the parts of a proposal line; `i` is the index of the next part.
unfoldable pub parse_parts : ℕ → List Bytes → Proposal → Result Proposal
parse_parts i [] prop = ok prop
parse_parts zero (part ∷ parts) prop =
    if ltb (length part) 1 || ltb 2 (length part)
    then err malformed_type
    else (if not (bytes_eq part (codes "EM")) && not (bytes_eq part (codes "CM"))
        then err unexpected_type
        else parse_parts 1 parts (record prop { msg_type = part }))
parse_parts (suc zero) (part ∷ parts) prop = parse_parts 2 parts (record prop { mid = part })
parse_parts (suc (suc zero)) (part ∷ parts) prop =
    parse_parts 3 parts (record prop { size = (atoi part).0 })
parse_parts (suc (suc (suc zero))) (part ∷ parts) prop =
    parse_parts 4 parts (record prop { compressed_size = (atoi part).0 })
parse_parts (suc (suc (suc (suc zero)))) (part ∷ parts) prop = parse_parts 5 parts prop
parse_parts (suc (suc (suc (suc (suc i))))) (part ∷ parts) prop = err too_many_parts

-- `line[1]`
abbrev pub second : Bytes → ℕ
second [] = 0
second (a ∷ []) = 0
second (a ∷ b ∷ s) = b

unfoldable pub parse_b2_proposal : Bytes → Proposal → Result Proposal
parse_b2_proposal line prop =
    if ltb (length line) 4
    then err proposal_too_short
    else (if not (second line == wl2k_proposal || second line == gzip_proposal)
        then err not_b2_proposal
        else (if ltb (length (split b' ' (drop 3 line))) 5
            then err malformed_proposal
            else parse_parts 0 (split b' ' (drop 3 line)) prop))

-- The switch on the code, which is stored first.
unfoldable pub parse_coded : ℕ → Bytes → Proposal → Result Proposal
parse_coded c line prop =
    if c == basic_proposal || c == ascii_proposal
    then ok (record prop { code = c })
    else (if c == wl2k_proposal || c == gzip_proposal
        then parse_b2_proposal line (record prop { code = c })
        else err (unsupported_code c))

-- A line of one byte 'F' has no byte at index 1.
unfoldable pub parse_proposal : Bytes → Proposal → Result Proposal
parse_proposal [] prop = ok prop
parse_proposal (f ∷ []) prop = if f == b'F' then panic else ok prop
parse_proposal (f ∷ c ∷ rest) prop =
    if f == b'F' then parse_coded c (f ∷ c ∷ rest) prop else ok prop

-- The line that `sendOutbound` prints, without its carriage return: "F%c %s %s %d %d %d".
unfoldable pub proposal_line : Proposal → Bytes
proposal_line p =
    b'F'
    ∷ p.code
    ∷ b' '
    ∷ (p.msg_type
        ++ b' '
          ∷ (p.mid
              ++ b' '
                ∷ (show_int p.size ++ b' ' ∷ (show_int p.compressed_size ++ b' ' ∷ b'0' ∷ []))))

-- Lower values go first.
unfoldable pub precedence : Proposal → ℕ
precedence p =
    if contains p.title (codes "//WL2K Z/")
    then 0
    else (if contains p.title (codes "//WL2K O/")
        then 1
        else (if contains p.title (codes "//WL2K P/") then 2 else 3))
