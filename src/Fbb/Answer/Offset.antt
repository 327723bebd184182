-- ===== src/Fbb/Answer/Offset.antt =====
-- Answers that ask for a message from an offset on.
use wl2k_go.Prelude.{
  ℕ, zero, suc, ◌+◌, ◌-◌, ◌%◌, ◌/◌, ◌^◌, ◌<◌, ◌≡◌, refl, ◌∙◌, true, some, List, [], ◌∷◌, ◌++◌,
  Bytes, arith,
}
use wl2k_go.Prelude.Int.{ℤ, pos, negsuc, ◌≤ℤ◌}
use wl2k_go.Go.Result.{ok, ◌>>=◌}
use wl2k_go.Go.Strings.{codes}
use wl2k_go.Go.Sort.{All}
use wl2k_go.Go.Strconv.{atoi, show_int, digits, digit_value}
use wl2k_go.Go.Strconv.RoundTrip.{atoi-show_int, atoi_trailing, digits-cons}
use wl2k_go.Fbb.Proposal.{Proposal, accept}
use wl2k_go.Fbb.Transfer.{write_compressed, write_header, panicked}
use wl2k_go.Go.Mime.{q_encode}
use wl2k_go.Fbb.Answer.{
  is_digit, cut_last_digit, limit_offset, read_answer, parse_answers, parse_proposal_answer,
}

AllDigits : Bytes → Type 0
AllDigits s = All (λ c. is_digit c ≡ true) s

digits-AllDigits : (f n : ℕ) (rest : Bytes) → AllDigits rest → AllDigits (digits f n rest)
unfolding AllDigits digits
digits-AllDigits zero n rest h = (ground arith, h)
digits-AllDigits (suc f) n rest h =
    ground (arith, digits-AllDigits f (n / 10) ((b'0' + n % 10) ∷ rest))

-- Behind a text the last digit of a number is the last digit.
cut_last_digit-AllDigits :
    (c : ℕ) (s : Bytes) → AllDigits (c ∷ s) → cut_last_digit (c ∷ s) ≡ some (c ∷ s, [])
unfolding AllDigits cut_last_digit
cut_last_digit-AllDigits c [] h = ground arith
cut_last_digit-AllDigits c (d ∷ s) h = ground (arith, cut_last_digit-AllDigits d s h.1)

cut_last_digit-append :
    (xs ys : Bytes) {a b : Bytes}
    → cut_last_digit ys ≡ some (a, b)
    → cut_last_digit (xs ++ ys) ≡ some (xs ++ a, b)
unfolding cut_last_digit
cut_last_digit-append [] ys e = e
cut_last_digit-append (x ∷ xs) ys {a} {b} e = ground (arith, cut_last_digit-append xs ys e)

cut_last_digit-digits : (f n : ℕ) → cut_last_digit (digits f n []) ≡ some (digits f n [], [])
cut_last_digit-digits f n =
    let (c, s, e, lo, hi) = digits-cons f n [] in
    rw e (cut_last_digit-AllDigits c s (rw e at (digits-AllDigits f n [] (unfold AllDigits in tt))))

cut_last_digit-show_int : (i : ℤ) → cut_last_digit (show_int i) ≡ some (show_int i, [])
unfolding show_int
cut_last_digit-show_int (pos n) = cut_last_digit-digits 19 n
cut_last_digit-show_int (negsuc n) =
    cut_last_digit-append (b'-' ∷ []) (digits 19 (suc n) []) (cut_last_digit-digits 19 (suc n))

offset_step :
    (s number rest : Bytes) (q : Proposal) (qs : List Proposal)
    → cut_last_digit s ≡ some (number, rest)
    → parse_proposal_answer (codes "FS !" ++ s) (q ∷ qs) ≡ (
        parse_answers rest qs >>= λ r.
        ok (record q { answer = accept; offset = limit_offset (atoi number).0 } ∷ r))
unfolding parse_proposal_answer parse_answers read_answer
offset_step s number rest q qs e = ground (arith, e)

parse_answers-nil : (qs : List Proposal) → parse_answers [] qs ≡ ok qs
unfolding parse_answers
parse_answers-nil qs = refl

-- An answer that asks for one message from a 64-bit offset on accepts the first proposal from that
-- offset, or from 0 if the offset is beyond the limit of six digits, and leaves the others as
-- they are. This holds of a negative offset, too.
pub parse_offset :
    (i : ℤ) (q : Proposal) (qs : List Proposal)
    → negsuc (2 ^ 63 - 1) ≤ℤ i
    → i ≤ℤ pos (2 ^ 63 - 1)
    → parse_proposal_answer (codes "FS !" ++ show_int i) (q ∷ qs)
      ≡ ok (record q { answer = accept; offset = limit_offset i } ∷ qs)
parse_offset i q qs lo hi =
    offset_step (show_int i) (show_int i) [] q qs (cut_last_digit-show_int i)
    ∙ rw (parse_answers-nil qs, atoi-show_int i lo hi)

limit_offset_negative : (n : ℕ) → limit_offset (negsuc n) ≡ negsuc n
limit_offset_negative n = ground arith

-- A negative offset in an answer is taken over, and the transfer of that message panics behind its
-- header.
pub negative_offset_panics :
    (n : ℕ) (q : Proposal)
    → n < 2 ^ 63
    → pos 6 ≤ℤ q.compressed_size
    → (q' : Proposal) × (parse_proposal_answer (codes "FS !" ++ show_int (negsuc n)) (q ∷ [])
        ≡ ok (q' ∷ []))
      × (write_compressed q' ≡ panicked (write_header (q_encode q.title) (show_int (negsuc n))))
unfolding write_compressed
negative_offset_panics n q h big = (
  record q { answer = accept; offset = negsuc n },
  parse_offset (negsuc n) q [] (omega arith) (omega arith) ∙ rw (limit_offset_negative n),
  ground arith,
)

-- Two offset requests in one line are taken for one number, which is none: the first message is sent from
-- the beginning, not from the offset asked for, and the second proposal is left unanswered.
pub two_offsets_lost :
    (n m : ℕ) (p q : Proposal)
    → n < 2 ^ 63
    → parse_proposal_answer
        (codes "FS !" ++ (show_int (pos n) ++ b'!' ∷ show_int (pos m)))
        (p ∷ q ∷ [])
      ≡ ok (record p { answer = accept; offset = pos 0 } ∷ q ∷ [])
two_offsets_lost n m p q h =
    let number = show_int (pos n) ++ b'!' ∷ show_int (pos m) in
    offset_step number number [] p (q ∷ []) (
      cut_last_digit-append (show_int (pos n)) (b'!' ∷ show_int (pos m))
        (cut_last_digit-append (b'!' ∷ []) (show_int (pos m)) (cut_last_digit-show_int (pos m))))
    ∙ rw (
      parse_answers-nil (q ∷ []),
      atoi_trailing n b'!' (show_int (pos m)) h (unfold digit_value in refl),
    )
