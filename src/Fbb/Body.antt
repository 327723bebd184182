-- ===== src/Fbb/Body.antt =====
-- fbb/message_body.go: the lines of a body.
pub mod Lines
use wl2k_go.Prelude.{
  ℕ, zero, suc, ◌+◌, ◌-◌, ◌*◌, Bool, true, false, Option, none, some, List, [], ◌∷◌, ◌++◌, Bytes,
  ltb, leb, ◌==◌, if◌then◌else◌, length, take, drop,
}
use wl2k_go.Go.Strings.{cut_at}
use wl2k_go.Go.Textproto.{drop_return}
use wl2k_go.Fbb.Header.{crlf}

-- `bufio.MaxScanTokenSize`.
abbrev pub max_scan_token_size : ℕ
max_scan_token_size = 64 * 1024

abbrev last_token : Bytes → List Bytes
last_token [] = []
last_token (c ∷ s) =
    if ltb (length (c ∷ s)) max_scan_token_size then drop_return (c ∷ s) ∷ [] else []

-- The tokens of `bufio.Scanner` with `ScanLines`. A line that does not fit the buffer with its end stops
-- it, and nothing behind it is scanned. A token takes a byte of the text at least.
unfoldable pub scan_lines : ℕ → Bytes → List Bytes
scan_lines zero s = []
scan_lines (suc f) s = elim (cut_at 10 s) [
  | none ↦ last_token s
  | some (line, rest) ↦
      let more = drop_return line ∷ scan_lines f rest in
      if ltb (length line) max_scan_token_size then more else []
]

-- The most bytes of a line, with its end.
abbrev pub max_line : ℕ
max_line = 1000

-- The inner loop: a line in pieces, each of which gets an end. The first piece is written even if the
-- line is empty. A round leaves fewer bytes of a line that has any.
unfoldable pub pieces : ℕ → Bytes → List Bytes
pieces zero line = []
pieces (suc f) line =
    let more = take (max_line - 2) line ∷ pieces f (drop (max_line - 2) line) in
    if leb (length line) (max_line - 2) then line ∷ [] else more

unfoldable pub all_pieces : List Bytes → List Bytes
unfolding pieces
all_pieces [] = []
all_pieces (l ∷ ls) = pieces (suc (length l)) l ++ all_pieces ls

abbrev pub write_lines : List Bytes → Bytes
write_lines [] = []
write_lines (l ∷ ls) = l ++ (crlf ++ write_lines ls)

-- The text that `StringToBody` hands to the translator.
unfoldable pub body_text : Bytes → Bytes
unfolding scan_lines all_pieces
body_text s = write_lines (all_pieces (scan_lines (suc (length s)) s))

-- A translator of the third-party charset package: the translated text, and whether the error is nil.
pub record Translator : Type 0 where
  pub translate : Bytes → Bytes × Bool
  -- `toCharset`: a text as one of ISO-8859-1.
  pub to_latin1 : Bytes → Bytes

-- `StringToBody`, with the translator that was found.
unfoldable pub string_to_body : Translator → Bytes → Bytes × Bool
string_to_body t s = t.translate (body_text s)
