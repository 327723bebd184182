-- ===== src/Fbb/Answer.antt =====
-- fbb/b2f.go, writeProposalsAnswer and parseProposalAnswer: the line that answers a block of
-- proposals, one character for each.
pub mod RoundTrip
pub mod Offset
pub mod Duplicates
mod Tests
use wl2k_go.Prelude.{
  ℕ, zero, suc, ◌+◌, Bool, true, false, not, ◌&&◌, ◌||◌, Option, none, some, List, [], ◌∷◌, ◌++◌,
  map, Bytes, ltb, leb, ◌==◌, if◌then◌else◌, drop,
}
use wl2k_go.Prelude.Int.{ℤ, pos, ltb_ℤ}
use wl2k_go.Go.Result.{ok, err, panic, ◌>>=◌}
use wl2k_go.Go.Strings.{codes, bytes_eq, has_prefix}
use wl2k_go.Go.Strconv.{atoi}
use wl2k_go.Go.Utf8.{within}
use wl2k_go.Fbb.Error.{Error, Result, too_many_answers, offset_without_index, invalid_answer}
use wl2k_go.Fbb.Proposal.{Proposal, wl2k_proposal, gzip_proposal, accept, reject, defer}

abbrev pub protocol_offset_size_limit : ℕ
protocol_offset_size_limit = 999999

-- `seen[mid]`
abbrev pub seen_mid : Bytes → List Bytes → Bool
seen_mid mid [] = false
seen_mid mid (m ∷ ms) = bytes_eq mid m || seen_mid mid ms

-- The answer to one proposal. `answer` is the handler's `GetInboundAnswer`, if there is a handler.
unfoldable pub answer_one : Option (Proposal → ℕ) → List Bytes → Proposal → ℕ
answer_one handler seen prop =
    if seen_mid prop.mid seen
    then defer
    else (if not (prop.code == wl2k_proposal) && not (prop.code == gzip_proposal)
        then defer
        else elim handler [ none ↦ defer | some answer ↦ answer prop ])

-- The proposals with their answers, in order.
unfoldable pub answer_all : Option (Proposal → ℕ) → List Bytes → List Proposal → List Proposal
answer_all handler seen [] = []
answer_all handler seen (prop ∷ props) =
    record prop { answer = answer_one handler seen prop }
    ∷ answer_all handler (prop.mid ∷ seen) props

-- `nAccepted`. Only the handler's answer can be an acceptance.
unfoldable pub count_accepted : List Proposal → ℕ
count_accepted [] = 0
count_accepted (prop ∷ props) =
    if prop.answer == accept then suc (count_accepted props) else count_accepted props

abbrev pub answers : List Proposal → Bytes
answers [] = []
answers (prop ∷ props) = prop.answer ∷ answers props

-- "FS %s\r"
unfoldable pub answer_line : List Proposal → Bytes
answer_line props = codes "FS " ++ (answers props ++ 13 ∷ [])

-- The answered proposals, how many are accepted, and what is sent.
unfoldable pub write_proposals_answer :
    Option (Proposal → ℕ) → List Proposal → List Proposal × ℕ × Bytes
write_proposals_answer handler props =
    let answered = answer_all handler [] props in
    (answered, count_accepted answered, answer_line answered)

-- `strings.TrimPrefix(str, "FS ")`
abbrev pub trim_fs : Bytes → Bytes
trim_fs s = if has_prefix s (codes "FS ") then drop 3 s else s

abbrev pub is_digit : ℕ → Bool
is_digit c = within b'0' b'9' c

-- The text up to the last digit and the text behind it, if there is a digit
-- (`strings.LastIndexAny(str, "0123456789")`).
unfoldable pub cut_last_digit : Bytes → Option (Bytes × Bytes)
cut_last_digit [] = none
cut_last_digit (c ∷ s) = elim (cut_last_digit s) [
  | some r ↦ some (c ∷ r.0, r.1)
  | none ↦ if is_digit c then some (c ∷ [], s) else none
]

-- An offset beyond the limit is ignored.
abbrev pub limit_offset : ℤ → ℤ
limit_offset n = if ltb_ℤ (pos protocol_offset_size_limit) n then pos 0 else n

-- What a character of the answer says.
pub data Answer : Type 0 where
  accepted rejected deferred offset unknown : Answer

unfoldable pub read_answer : ℕ → Answer
read_answer c =
    if c == b'Y' || c == b'y' || c == b'+'
    then accepted
    else (if c == b'N' || c == b'n' || c == b'R' || c == b'r' || c == b'-'
        then rejected
        else (if c == b'L' || c == b'l' || c == b'=' || c == b'H' || c == b'h'
            then deferred
            else (if c == b'A' || c == b'a' || c == b'!' then offset else unknown)))

-- The loop: what is left of the text, and the proposals that have no answer yet.
unfoldable pub parse_answers : Bytes → List Proposal → Result (List Proposal)
parse_answers [] props = ok props
parse_answers (c ∷ s) [] = err too_many_answers
parse_answers (c ∷ s) (prop ∷ props) = elim (read_answer c) [
  | accepted ↦ parse_answers s props >>= λ r. ok (record prop { answer = accept } ∷ r)
  | rejected ↦ parse_answers s props >>= λ r. ok (record prop { answer = reject } ∷ r)
  | deferred ↦ parse_answers s props >>= λ r. ok (record prop { answer = defer } ∷ r)
  | offset ↦ elim (cut_last_digit s) [
    | none ↦ err offset_without_index
    | some (number, rest) ↦ parse_answers rest props >>= λ r.
        ok (record prop { answer = accept; offset = limit_offset (atoi number).0 } ∷ r)
  ]
  | unknown ↦ err (invalid_answer c)
]

unfoldable pub parse_proposal_answer : Bytes → List Proposal → Result (List Proposal)
parse_proposal_answer str props = parse_answers (trim_fs str) props
