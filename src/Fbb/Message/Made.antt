-- ===== src/Fbb/Message/Made.antt =====
-- A new message with a body can be read back.
use wl2k_go.Prelude.{◌<◌, ◌^◌, ◌≡◌, ◌≢◌, refl, true, none, [], ◌∷◌, Bytes, arith, length}
use wl2k_go.Prelude.Int.{pos}
use wl2k_go.Go.Strings.{codes}
use wl2k_go.Go.Strconv.{show_int}
use wl2k_go.Go.Textproto.{
  Header, lookup, assign, header_set, canonical_key, capitals, all_tokens, is_token,
}
use wl2k_go.Go.Textproto.Trim.{IsKey, IsValue}
use wl2k_go.Fbb.Address.{address_from_string}
use wl2k_go.Fbb.Header.{
  Decoder, header_mid, header_date, header_from, header_mbo, header_type, header_body,
  header_content_type, header_content_transfer_encoding,
}
use wl2k_go.Fbb.Body.{Translator, string_to_body}
use wl2k_go.Fbb.Message.Date.{TimePackage, parse_date, date_layout}
use wl2k_go.Fbb.Message.Compose.{
  address_string, new_message, set_date, set_from, set_body, plain_text, type_or_private,
}
use wl2k_go.Fbb.Message.RoundTrip.{IsMessage}
use wl2k_go.Fbb.Message.Keep.{show_int-IsValue}

mid-IsKey : IsKey header_mid
unfolding all_tokens is_token canonical_key capitals
mid-IsKey = record { ne_nil = cc; tokens = refl; canonical = refl }

date-IsKey : IsKey header_date
unfolding all_tokens is_token canonical_key capitals
date-IsKey = record { ne_nil = cc; tokens = refl; canonical = refl }

from-IsKey : IsKey header_from
unfolding all_tokens is_token canonical_key capitals
from-IsKey = record { ne_nil = cc; tokens = refl; canonical = refl }

mbo-IsKey : IsKey header_mbo
unfolding all_tokens is_token canonical_key capitals
mbo-IsKey = record { ne_nil = cc; tokens = refl; canonical = refl }

type-IsKey : IsKey header_type
unfolding all_tokens is_token canonical_key capitals
type-IsKey = record { ne_nil = cc; tokens = refl; canonical = refl }

content_transfer_encoding-IsKey : IsKey header_content_transfer_encoding
unfolding all_tokens is_token canonical_key capitals
content_transfer_encoding-IsKey = record { ne_nil = cc; tokens = refl; canonical = refl }

content_type-IsKey : IsKey header_content_type
unfolding all_tokens is_token canonical_key capitals
content_type-IsKey = record { ne_nil = cc; tokens = refl; canonical = refl }

body-IsKey : IsKey header_body
unfolding all_tokens is_token canonical_key capitals
body-IsKey = record { ne_nil = cc; tokens = refl; canonical = refl }

module _ (time : TimePackage) (t : Translator) (mid : Bytes) (now : time.Time)
    (kind mycall str : Bytes) where
  -- The header of a new message with a body.
  made : Header
  made =
      (header_mid, mid ∷ [])
      ∷ (header_date, time.format_utc now date_layout ∷ [])
      ∷ (header_from, address_string (address_from_string mycall) ∷ [])
      ∷ (header_mbo, mycall ∷ [])
      ∷ (header_type, type_or_private kind ∷ [])
      ∷ (header_content_transfer_encoding, codes "8bit" ∷ [])
      ∷ (header_content_type, plain_text ∷ [])
      ∷ (header_body, show_int (pos (length (string_to_body t str).0)) ∷ [])
      ∷ []

  made-eq :
      (string_to_body t str).1 ≡ true
      → (set_body t str (new_message time mid now kind mycall)).0
        ≡ record { header = made; body = (string_to_body t str).0; files = [] }
  unfolding made set_body new_message set_date set_from header_set canonical_key capitals all_tokens
      is_token assign
  made-eq e = rw e

  -- What is asked of the arguments: the message id is a text, each value is one line with no space at its
  -- ends, the clock writes dates that it reads, and the body can be translated.
  pub record CanMake : Type 0 where
    pub mid_ne_nil : mid ≢ []
    pub mid_value : IsValue mid
    pub date_value : IsValue (time.format_utc now date_layout)
    pub from_value : IsValue (address_string (address_from_string mycall))
    pub mbo_value : IsValue mycall
    pub type_value : IsValue (type_or_private kind)
    pub date_read : parse_date time (time.format_utc now date_layout) ≢ none
    pub translated : (string_to_body t str).1 ≡ true
    pub small : length (string_to_body t str).0 < 2 ^ 63

  made-IsMessage :
      (d : Decoder)
      → CanMake
      → IsMessage time d (record { header = made; body = (string_to_body t str).0; files = [] })
  unfolding made lookup
  made-IsMessage d v = record {
    header_ok = record {
      entries = (
        mid-IsKey,
        (v.mid_value, tt),
        refl,
        (refl, (refl, (refl, (refl, (refl, (refl, (refl, tt))))))),
        (
          date-IsKey,
          (v.date_value, tt),
          refl,
          (refl, (refl, (refl, (refl, (refl, (refl, tt)))))),
          (
            from-IsKey,
            (v.from_value, tt),
            refl,
            (refl, (refl, (refl, (refl, (refl, tt))))),
            (
              mbo-IsKey,
              (v.mbo_value, tt),
              refl,
              (refl, (refl, (refl, (refl, tt)))),
              (
                type-IsKey,
                (v.type_value, tt),
                refl,
                (refl, (refl, (refl, tt))),
                (
                  content_transfer_encoding-IsKey,
                  ((record { one_line = ground arith; front = refl; back = refl }), tt),
                  refl,
                  (refl, (refl, tt)),
                  (
                    content_type-IsKey,
                    ((record { one_line = ground arith; front = refl; back = refl }), tt),
                    refl,
                    (refl, tt),
                    (
                      body-IsKey,
                      ((show_int-IsValue (length (string_to_body t str).0)), tt),
                      refl,
                      tt,
                      tt,
                    ),
                  ),
                ),
              ),
            ),
          ),
        ),
      );
      has_mid = v.mid_ne_nil;
      one_mid = refl;
    };
    body_eq = refl;
    small = v.small;
    files_fit = tt;
    date_ok = v.date_read;
  }

  -- A new message with a body is well-formed, if each value is one line with no space at its ends, the
  -- message id is not empty, the clock reads the date that it writes, and the body can be translated and
  -- has the size of an int.
  pub set_body-new_message-IsMessage :
      (d : Decoder)
      → CanMake
      → IsMessage time d (set_body t str (new_message time mid now kind mycall)).0
  set_body-new_message-IsMessage d v = rw (made-eq v.translated) (made-IsMessage d v)
