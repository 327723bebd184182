-- ===== src/Fbb/Handshake/Tests.antt =====
-- Runs of the lines of the handshake, and its theorems at concrete inputs.
use wl2k_go.Prelude.{◌≡◌, refl, true, false, none, [], ◌∷◌, ◌++◌, Bytes}
use wl2k_go.Go.Result.{ok}
use wl2k_go.Go.Strings.{codes, cut_at, split}
use wl2k_go.Fbb.Address.{address_from_string, colon_address, mail_address}
use wl2k_go.Fbb.Line.{next_line}
use wl2k_go.Fbb.Handshake.{Station, write_sid, is_sid, sid_has, s_fb_comp2, parse_sid, parse_fw}
use wl2k_go.Fbb.Handshake.Sid.{parse_sid-write_sid}

abbrev station : Station
station = record {
  mycall = codes "LA5NTA";
  targetcall = codes "LA1B";
  locator = codes "JP20";
  local_fw = record { proto = []; addr = codes "LA5NTA" } ∷ [];
  ua_name = codes "wl2kgo";
  ua_version = codes "0.1a";
  motd = [];
  secure_login = none;
  gzip = false;
  fw_aux_only = false;
}

fw_run :
    parse_fw (codes ";FW: LE1OF la4tta|12345678 x@Winlink.org a@b.no")
    ≡ ok (
        record { proto = []; addr = codes "LE1OF" }
        ∷ record { proto = []; addr = codes "LA4TTA" }
        ∷ record { proto = []; addr = codes "X" }
        ∷ record { proto = codes "SMTP"; addr = codes "a@b.no" }
        ∷ [])
unfolding parse_fw address_from_string colon_address mail_address cut_at split
fw_run = refl

parse_sid-write_sid_example :
    (line : Bytes) × (next_line (write_sid station ++ codes ";PM") ≡ ok (line, codes ";PM"))
    × (is_sid line ≡ true)
    × (parse_sid line ≡ ok (codes "B2FHM$"))
    × (sid_has (codes "B2FHM$") s_fb_comp2 ≡ true)
parse_sid-write_sid_example =
    parse_sid-write_sid station (codes ";PM") (refl, (refl, (refl, (refl, (refl, (refl, tt))))))
      (refl, (refl, (refl, (refl, tt)))) (refl, (refl, (refl, (refl, (refl, (refl, tt))))))
      (refl, (refl, (refl, (refl, tt))))
