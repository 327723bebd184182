-- ===== src/Fbb/Handshake/Sid.antt =====
-- What this side's SID line means to the other side, and the response to a challenge.
use wl2k_go.Prelude.{
  ℕ, ◌-◌, ◌≡◌, refl, sym, ap, ◌∙◌, Bool, true, false, ◌&&◌, none, some, [], ◌∷◌, ◌++◌, append_assoc,
  Bytes, arith, length, length-append, length-drop, length-replicate, replicate,
}
use mathlib.Core.List.{reverse, reverse-append, reverse-reverse}
use wl2k_go.Prelude.Int.{pos}
use wl2k_go.Go.Result.{ok}
use wl2k_go.Go.Strings.{codes, cut_at, cut_at-append, Free, Free-append, split_word, has_prefix}
use wl2k_go.Go.Strconv.{show_int}
use wl2k_go.Fbb.Address.{to_upper}
use wl2k_go.Fbb.Line.{next_line}
use wl2k_go.Fbb.Line.Clean.{next_line-line}
use wl2k_go.Fbb.Handshake.{
  Station, turn, local_sid, write_sid, is_sid, sid_has, s_fb_comp2, cut_last, inside, behind,
  or_else, read_sid, match_sid, first_match, parse_sid, eight_digits, secure_login_response,
}

cut_last-append : (c : ℕ) (a b : Bytes) → Free c (reverse b) → cut_last c (a ++ c ∷ b) ≡ some (a, b)
unfolding cut_last
cut_last-append c a b free =
    let back : reverse (a ++ c ∷ b) ≡ reverse b ++ c ∷ reverse a =
      reverse-append a (c ∷ b)
      ∙ ap (λ l. l ++ reverse a) (reverse-append (c ∷ []) b)
      ∙ append_assoc (reverse b) (c ∷ []) (reverse a) in
    ap (λ s. turn (cut_at c s)) back
    ∙ ap turn (cut_at-append c (reverse b) (reverse a) free)
    ∙ ap some (rw (reverse-reverse a, reverse-reverse b) refl)

-- The line of this side's SID, without its carriage return.
abbrev sid_line : Station → Bytes
sid_line st =
    b'[' ∷ ((st.ua_name ++ b'-' ∷ (st.ua_version ++ b'-' ∷ local_sid st.gzip)) ++ b']' ∷ [])

local_sid-Free : (gzip : Bool) → Free b'-' (reverse (local_sid gzip))
local_sid-Free true = (refl, (refl, (refl, (refl, (refl, (refl, (refl, tt)))))))
local_sid-Free false = (refl, (refl, (refl, (refl, (refl, (refl, tt))))))

match_sid-sid_line : (st : Station) → match_sid (sid_line st) ≡ some (local_sid st.gzip)
unfolding match_sid cut_at
match_sid-sid_line st =
    let inner = st.ua_name ++ b'-' ∷ (st.ua_version ++ b'-' ∷ local_sid st.gzip) in
    let name = st.ua_name ++ b'-' ∷ st.ua_version in
    let regroup : inner ≡ name ++ b'-' ∷ local_sid st.gzip =
      sym (append_assoc st.ua_name (b'-' ∷ st.ua_version) (b'-' ∷ local_sid st.gzip)) in
    ap (λ o. inside o) (cut_last-append b']' inner [] tt)
    ∙ ap (λ l. behind (cut_last b'-' l)) regroup
    ∙ ap behind (cut_last-append b'-' name (local_sid st.gzip) (local_sid-Free st.gzip))

local_sid-one_line : (gzip : Bool) → Free 13 (local_sid gzip)
local_sid-one_line true = (refl, (refl, (refl, (refl, (refl, (refl, (refl, tt)))))))
local_sid-one_line false = (refl, (refl, (refl, (refl, (refl, (refl, tt))))))

local_sid-line :
    (gzip : Bool)
    → Free 10 (local_sid gzip)
      × (to_upper (local_sid gzip) ≡ local_sid gzip)
      × (sid_has (local_sid gzip) s_fb_comp2 ≡ true)
unfolding sid_has
local_sid-line true = ((refl, (refl, (refl, (refl, (refl, (refl, (refl, tt))))))), refl, refl)
local_sid-line false = ((refl, (refl, (refl, (refl, (refl, (refl, tt)))))), refl, refl)

sid_line-Free :
    (c : ℕ) (st : Station)
    → Free c (codes "[-]")
    → Free c (local_sid st.gzip)
    → Free c st.ua_name
    → Free c st.ua_version
    → Free c (sid_line st)
sid_line-Free c st (open_free, (dash, (close_free, _))) sid name version =
    let inner = st.ua_name ++ b'-' ∷ (st.ua_version ++ b'-' ∷ local_sid st.gzip) in
    (
      open_free,
      Free-append c inner (b']' ∷ [])
          (Free-append c st.ua_name _ name
            (dash, Free-append c st.ua_version _ version (dash, sid)))
          (close_free, tt),
    )

write_sid-eq : (st : Station) → write_sid st ≡ sid_line st ++ (13 ∷ [])
write_sid-eq st =
    let inner = st.ua_name ++ b'-' ∷ (st.ua_version ++ b'-' ∷ local_sid st.gzip) in
    sym (
      ap (λ l. b'[' ∷ l)
        (append_assoc inner (b']' ∷ []) (13 ∷ [])
          ∙ append_assoc st.ua_name (b'-' ∷ (st.ua_version ++ b'-' ∷ local_sid st.gzip))
              (b']' ∷ 13 ∷ [])
          ∙ ap (λ l. st.ua_name ++ b'-' ∷ l)
              (append_assoc st.ua_version (b'-' ∷ local_sid st.gzip) (b']' ∷ 13 ∷ []))))

-- The other side reads the line as it was sent.
next_line-write_sid :
    (st : Station) (rest : Bytes)
    → Free 13 st.ua_name
    → Free 13 st.ua_version
    → next_line (write_sid st ++ rest) ≡ ok (sid_line st, rest)
next_line-write_sid st rest name version =
    let inner = st.ua_name ++ b'-' ∷ (st.ua_version ++ b'-' ∷ local_sid st.gzip) in
    ap next_line (ap (λ l. l ++ rest) (write_sid-eq st) ∙ append_assoc (sid_line st) (13 ∷ []) rest)
    ∙ next_line-line b'[' inner b']' rest (omega arith, omega arith) (omega arith, omega arith)
        (omega arith)
        (sid_line-Free 13 st (refl, (refl, (refl, tt))) (local_sid-one_line st.gzip) name version)

sid_line-is_sid : (st : Station) → is_sid (sid_line st) ≡ true
sid_line-is_sid st =
    let inner = st.ua_name ++ b'-' ∷ (st.ua_version ++ b'-' ∷ local_sid st.gzip) in
    ap (λ r. has_prefix (sid_line st) (codes "[") && has_prefix r (reverse (codes "]")))
      (reverse-append (b'[' ∷ inner) (b']' ∷ []))

-- The SID line that this side sends, for a program whose name and version hold no line feed and no carriage
-- return, is read by the other side as one line that ends where the SID ends, whatever follows it. It is taken
-- for a SID line, whatever brackets or dashes the name and the version hold, and its codes are those of this
-- side, that of the B2 protocol among them.
pub parse_sid-write_sid :
    (st : Station) (rest : Bytes)
    → Free 10 st.ua_name
    → Free 10 st.ua_version
    → Free 13 st.ua_name
    → Free 13 st.ua_version
    → (line : Bytes) × (next_line (write_sid st ++ rest) ≡ ok (line, rest))
      × (is_sid line ≡ true)
      × (parse_sid line ≡ ok (local_sid st.gzip))
      × (sid_has (local_sid st.gzip) s_fb_comp2 ≡ true)
unfolding parse_sid first_match
parse_sid-write_sid st rest name version name' version' =
    let sid = local_sid-line st.gzip in
    let free = sid_line-Free 10 st (refl, (refl, (refl, tt))) sid.0 name version in
    (
      sid_line st,
      next_line-write_sid st rest name' version',
      sid_line-is_sid st,
      ap (λ lines. read_sid (first_match lines)) (split_word 10 (sid_line st) free)
          ∙ ap (λ o. read_sid (or_else o none)) (match_sid-sid_line st)
          ∙ ap ok sid.1,
      sid.2,
    )

length-eight_digits : (n : ℕ) → length (eight_digits n) ≡ 8
unfolding eight_digits
length-eight_digits n =
    let text : Bytes = show_int (pos n) in
    let zeros : Bytes = replicate (8 - length text) 48 in
    omega (
      arith,
      length-drop (length (zeros ++ text) - 8) (zeros ++ text),
      length-append zeros text,
      length-replicate {A = ℕ} (8 - length text) 48,
    )

-- The response to a challenge has eight characters, whatever the digest is.
pub length-secure_login_response :
    (md5 : Bytes → Bytes) (challenge password : Bytes)
    → length (secure_login_response md5 challenge password) ≡ 8
unfolding secure_login_response
length-secure_login_response md5 challenge password = length-eight_digits _
