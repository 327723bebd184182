-- ===== src/Fbb/Message/Keep.antt =====
-- A well-formed message stays one when a value of its header is set or added.
use wl2k_go.Prelude.{ℕ, ◌<◌, ◌≡◌, refl, ap, ◌∙◌, false, List, [], ◌∷◌, ◌++◌, Bytes, arith}
use wl2k_go.Prelude.Int.{pos}
use wl2k_go.Go.Strings.{bytes_eq, Free}
use wl2k_go.Go.Sort.{All}
use wl2k_go.Go.Strconv.{show_int}
use wl2k_go.Go.Strconv.RoundTrip.{show_int-Free}
use wl2k_go.Go.Textproto.{
  lookup, assign, append_to, first, is_space, canonical_key, capitals, all_tokens, is_token,
}
use wl2k_go.Go.Textproto.Trim.{IsValue, starts, stops}
use wl2k_go.Fbb.Header.{
  Decoder, header_to, header_cc, header_subject, header_body, header_file, header_date,
  header_content_type, header_content_transfer_encoding,
}
use wl2k_go.Fbb.Header.Wire.{IsValue-lookup}
use wl2k_go.Fbb.Header.Keep.{IsOther, lookup-assign_other, assign-IsHeader, All-append}
use wl2k_go.Fbb.Message.Date.{TimePackage}
use wl2k_go.Fbb.Message.{Message}
use wl2k_go.Fbb.Message.RoundTrip.{IsMessage}

front_of-Free :
    (v : Bytes)
    → Free b' ' v
    → Free 9 v
    → Free 10 v
    → Free 13 v
    → (starts is_space v ≡ false) × (stops is_space v ≡ false)
front_of-Free [] a b c d = (refl, refl)
front_of-Free (x ∷ []) a b c d = ground arith
front_of-Free (x ∷ y ∷ v) a b c d = (ground arith, (front_of-Free (y ∷ v) a.1 b.1 c.1 d.1).1)

pub show_int-IsValue : (n : ℕ) → IsValue (show_int (pos n))
show_int-IsValue n =
    let free = λ (x : ℕ) (h : x < b'-'). show_int-Free x (pos n) h in
    let ends =
      front_of-Free (show_int (pos n)) (free b' ' (omega arith)) (free 9 (omega arith))
        (free 10 (omega arith)) (free 13 (omega arith)) in
    record { one_line = free 10 (omega arith); front = ends.0; back = ends.1 }

pub to-IsOther : IsOther header_to
unfolding all_tokens is_token canonical_key capitals
to-IsOther = record {
  is_key = record { ne_nil = cc; tokens = refl; canonical = refl };
  ne_mid = refl;
  no_fold = refl;
}

pub cc-IsOther : IsOther header_cc
unfolding all_tokens is_token canonical_key capitals
cc-IsOther = record {
  is_key = record { ne_nil = cc; tokens = refl; canonical = refl };
  ne_mid = refl;
  no_fold = refl;
}

pub subject-IsOther : IsOther header_subject
unfolding all_tokens is_token canonical_key capitals
subject-IsOther = record {
  is_key = record { ne_nil = cc; tokens = refl; canonical = refl };
  ne_mid = refl;
  no_fold = refl;
}

pub file-IsOther : IsOther header_file
unfolding all_tokens is_token canonical_key capitals
file-IsOther = record {
  is_key = record { ne_nil = cc; tokens = refl; canonical = refl };
  ne_mid = refl;
  no_fold = refl;
}

pub body-IsOther : IsOther header_body
unfolding all_tokens is_token canonical_key capitals
body-IsOther = record {
  is_key = record { ne_nil = cc; tokens = refl; canonical = refl };
  ne_mid = refl;
  no_fold = refl;
}

pub content_type-IsOther : IsOther header_content_type
unfolding all_tokens is_token canonical_key capitals
content_type-IsOther = record {
  is_key = record { ne_nil = cc; tokens = refl; canonical = refl };
  ne_mid = refl;
  no_fold = refl;
}

pub content_transfer_encoding-IsOther : IsOther header_content_transfer_encoding
unfolding all_tokens is_token canonical_key capitals
content_transfer_encoding-IsOther = record {
  is_key = record { ne_nil = cc; tokens = refl; canonical = refl };
  ne_mid = refl;
  no_fold = refl;
}

-- A key on which nothing of a well-formed message rests.
pub record IsFree (key : Bytes) : Type 0 where
  pub other : IsOther key
  pub ne_body : bytes_eq key header_body ≡ false
  pub ne_file : bytes_eq key header_file ≡ false
  pub ne_date : bytes_eq key header_date ≡ false

module _ (time : TimePackage) (d : Decoder) (m : Message) (w : IsMessage time d m) where
  pub assign-IsMessage :
      (j : Bytes) (vs : List Bytes)
      → IsFree j
      → All IsValue vs
      → IsMessage time d (record m { header = assign j vs m.header })
  assign-IsMessage j vs o v =
      let kept = λ (k : Bytes) (e : bytes_eq j k ≡ false). lookup-assign_other k j vs m.header e in
      record {
        header_ok = assign-IsHeader j vs m.header o.other v w.header_ok;
        body_eq = ap first (kept header_body o.ne_body) ∙ w.body_eq;
        small = w.small;
        files_fit = rw (kept header_file o.ne_file) w.files_fit;
        date_ok = rw (kept header_date o.ne_date) w.date_ok;
      }

  pub append-IsMessage :
      (j v : Bytes)
      → IsFree j
      → IsValue v
      → IsMessage time d (record m { header = append_to j v m.header })
  append-IsMessage j v o k = assign-IsMessage j (lookup j m.header ++ v ∷ []) o (
      All-append (lookup j m.header) (v ∷ []) (IsValue-lookup j m.header w.header_ok.entries)
        (k, tt))
