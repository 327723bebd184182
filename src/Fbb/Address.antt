-- ===== src/Fbb/Address.antt =====
-- fbb/message.go: the addresses of messages.
use wl2k_go.Prelude.{ℕ, ◌-◌, Bool, List, [], ◌∷◌, Bytes, map, if◌then◌else◌}
use wl2k_go.Go.Strings.{codes, bytes_eq, split}
use wl2k_go.Go.Utf8.{within}

pub record Address : Type 0 where
  pub proto : Bytes
  pub addr : Bytes

-- `unicode.ToUpper`, on ASCII.
abbrev pub upper_byte : ℕ → ℕ
upper_byte c = if within b'a' b'z' c then c - 32 else c

-- `strings.ToUpper` and `strings.EqualFold`, on ASCII.
abbrev pub to_upper : Bytes → Bytes
to_upper s = map upper_byte s

abbrev pub equal_fold : Bytes → Bytes → Bool
equal_fold s t = bytes_eq (to_upper s) (to_upper t)

-- The second test: the parts of a text at '@'.
unfoldable pub mail_address : Bytes → List Bytes → Address
mail_address text [] = record { proto = []; addr = to_upper text }
mail_address text (name ∷ []) = record { proto = []; addr = to_upper text }
mail_address text (name ∷ domain ∷ more) =
    if equal_fold domain (codes "winlink.org")
    then record { proto = []; addr = to_upper name }
    else record { proto = codes "SMTP"; addr = text }

-- The first test: a text with one ':' is a protocol and an address. The address is in upper case if there
-- is no protocol.
unfoldable pub colon_address : Bytes → List Bytes → Address
colon_address text ([] ∷ addr ∷ []) = record { proto = []; addr = to_upper addr }
colon_address text ((c ∷ proto) ∷ addr ∷ []) = record { proto = c ∷ proto; addr = addr }
colon_address text _ = mail_address text (split b'@' text)

unfoldable pub address_from_string : Bytes → Address
address_from_string text = colon_address text (split b':' text)
