-- ===== src/Go/Textproto/Fields.antt =====
-- `ReadMIMEHeader` on lines of keys and values: each adds its value to its key.
use wl2k_go.Prelude.{
  ℕ, zero, suc, ◌<◌, ◌≤◌, ◌≡◌, ◌≢◌, refl, ◌∙◌, false, some, List, [], ◌∷◌, ◌++◌, Bytes, arith,
  length, append_assoc, length-append,
}
use wl2k_go.Go.Result.{ok}
use wl2k_go.Go.Strings.{cut_at, Free, Free-append, cut_at-append}
use wl2k_go.Go.Sort.{All}
use wl2k_go.Go.Textproto.{
  Header, append_to, is_token, is_blank, trim_right, trim, drop_return, read_line, starts_blank,
  continued, add_field, read_fields, read_mime_header,
}
use wl2k_go.Go.Textproto.Trim.{
  IsKey, IsValue, trim_left-eq, trim_right-append, value_trimmed, IsKey-Free, IsKey-starts_blank,
}

abbrev pub IsField : Bytes × Bytes → Type 0
IsField (k, v) = IsKey k × IsValue v

drop_return-append : (s : Bytes) → drop_return (s ++ 13 ∷ []) ≡ s
unfolding drop_return
drop_return-append [] = refl
drop_return-append (c ∷ []) = refl
drop_return-append (c ∷ d ∷ s) = rw (drop_return-append (d ∷ s))

line_of-cut :
    (s line rest : Bytes)
    → cut_at 10 s ≡ some (line, rest)
    → read_line s ≡ some (drop_return line, rest)
unfolding read_line
line_of-cut s line rest e = ground (arith, e)

-- A line and its end are read.
pub read_line-append :
    (line rest : Bytes) → Free 10 line → read_line (line ++ 13 ∷ 10 ∷ rest) ≡ some (line, rest)
read_line-append line rest h =
    let e =
      cut_at-append 10 (line ++ 13 ∷ []) rest (Free-append 10 line (13 ∷ []) h (ground arith)) in
    rw (← append_assoc line (13 ∷ []) (10 ∷ rest)) (
      line_of-cut ((line ++ 13 ∷ []) ++ 10 ∷ rest) (line ++ 13 ∷ []) rest e
      ∙ rw (drop_return-append line))

continued_stop : (f : ℕ) (line s : Bytes) → starts_blank s ≡ false → continued f line s ≡ (line, s)
unfolding continued
continued_stop zero line s h = refl
continued_stop (suc f) line s h = rw h

-- The text of a field, and what its value is read from.
abbrev field : Bytes → Bytes → Bytes
field k v = k ++ b':' ∷ b' ' ∷ v

trim-field :
    {k : Bytes} (v : Bytes)
    → IsKey k
    → trim (field k v) ≡ k ++ b':' ∷ trim_right is_blank (b' ' ∷ v)
trim-field {k} v h =
    rw (trim_left-eq is_blank (field k v) (IsKey-starts_blank k (b':' ∷ b' ' ∷ v) h))
      (trim_right-append is_blank k b':' (b' ' ∷ v) refl)

add_field-eq :
    {k v : Bytes} (h : Header)
    → IsKey k
    → IsValue v
    → add_field k (trim_right is_blank (b' ' ∷ v)) h ≡ append_to k v h
unfolding add_field
add_field-eq {k = []} {v} h hk hv = absurd (hk.ne_nil refl)
add_field-eq {k = c ∷ k} {v} h hk hv = rw (add_field, hk.canonical) (rw (value_trimmed hv))

field-Free : {k v : Bytes} → IsKey k → IsValue v → Free 10 (field k v)
unfolding is_token
field-Free {k} {v} hk hv =
    Free-append 10 k (b':' ∷ b' ' ∷ v) (IsKey-Free 10 refl hk) (refl, (refl, hv.one_line))

cut-field : {k : Bytes} (v : Bytes) → IsKey k → cut_at b':' (k ++ b':' ∷ v) ≡ some (k, v)
unfolding is_token
cut-field {k} v h = cut_at-append b':' k v (IsKey-Free b':' refl h)

append-ne : (k : Bytes) (c : ℕ) (s : Bytes) → k ++ c ∷ s ≢ []
append-ne [] c s e = cc
append-ne (x ∷ k) c s e = cc

-- A round of the loop, on a line that was read, trimmed and cut.
read_fields_step :
    (f : ℕ) (s line rest key value : Bytes) (found : Bytes × Bytes) (h : Header)
    → line ≢ []
    → read_line s ≡ some (line, rest)
    → cut_at b':' line ≡ some found
    → starts_blank rest ≡ false
    → cut_at b':' (trim line) ≡ some (key, value)
    → read_fields (suc f) s h ≡ read_fields f rest (add_field key value h)
unfolding read_fields
read_fields_step f s [] rest key value found h ne e1 e2 e3 e4 = absurd (ne refl)
read_fields_step f s (c ∷ line) rest key value found h ne e1 e2 e3 e4 =
    ground (arith, e1, e2, continued_stop (length rest) (trim (c ∷ line)) rest e3, e4)

read_fields-field :
    (f : ℕ) {k v : Bytes} (rest : Bytes) (h : Header)
    → IsKey k
    → IsValue v
    → starts_blank rest ≡ false
    → read_fields (suc f) (field k v ++ 13 ∷ 10 ∷ rest) h ≡ read_fields f rest (append_to k v h)
read_fields-field f {k} {v} rest h hk hv e =
    read_fields_step f (field k v ++ 13 ∷ 10 ∷ rest) (field k v) rest k
      (trim_right is_blank (b' ' ∷ v)) (k, b' ' ∷ v) h (append-ne k b':' (b' ' ∷ v))
      (read_line-append (field k v) rest (field-Free hk hv)) (cut-field (b' ' ∷ v) hk) e
      (rw (trim-field v hk) (cut-field (trim_right is_blank (b' ' ∷ v)) hk))
    ∙ rw (add_field-eq h hk hv)

-- The lines of some fields, in front of the rest of the input; and the header that they make.
abbrev pub wire : List (Bytes × Bytes) → Bytes → Bytes
wire [] rest = rest
wire ((k, v) ∷ fs) rest = field k v ++ 13 ∷ 10 ∷ wire fs rest

abbrev pub add_all : List (Bytes × Bytes) → Header → Header
add_all [] h = h
add_all ((k, v) ∷ fs) h = add_all fs (append_to k v h)

starts_blank-wire :
    (fs : List (Bytes × Bytes)) (rest : Bytes)
    → All IsField fs
    → starts_blank rest ≡ false
    → starts_blank (wire fs rest) ≡ false
starts_blank-wire [] rest h e = e
starts_blank-wire ((k, v) ∷ fs) rest h e =
    rw (append_assoc k (b':' ∷ b' ' ∷ v) (13 ∷ 10 ∷ wire fs rest))
      (IsKey-starts_blank k (b':' ∷ b' ' ∷ v ++ 13 ∷ 10 ∷ wire fs rest) h.0.0)

read_fields-end :
    (f : ℕ) (rest : Bytes) (h : Header) → read_fields (suc f) (13 ∷ 10 ∷ rest) h ≡ ok (h, rest)
unfolding read_fields
read_fields-end f rest h = ground (arith, read_line-append [] rest tt)

read_fields-wire :
    (f : ℕ) (fs : List (Bytes × Bytes)) (rest : Bytes) (h : Header)
    → All IsField fs
    → length fs < f
    → read_fields f (wire fs (13 ∷ 10 ∷ rest)) h ≡ ok (add_all fs h, rest)
read_fields-wire zero fs rest h hs lt = absurd (omega arith)
read_fields-wire (suc f) [] rest h hs lt = read_fields-end f rest h
read_fields-wire (suc f) ((k, v) ∷ fs) rest h hs lt =
    read_fields-field f (wire fs (13 ∷ 10 ∷ rest)) h hs.0.0 hs.0.1
      (starts_blank-wire fs (13 ∷ 10 ∷ rest) hs.1 refl)
    ∙ read_fields-wire f fs rest (append_to k v h) hs.1 (omega arith)

length-wire : (fs : List (Bytes × Bytes)) (rest : Bytes) → length fs ≤ length (wire fs rest)
length-wire [] rest = omega arith
length-wire ((k, v) ∷ fs) rest =
    omega (arith, length-wire fs rest, length-append {0} (field k v) (13 ∷ 10 ∷ wire fs rest))

-- Fields that are written are read, in their order.
pub read_mime_header-wire :
    (fs : List (Bytes × Bytes)) (rest : Bytes)
    → All IsField fs
    → read_mime_header (wire fs (13 ∷ 10 ∷ rest)) ≡ ok (add_all fs [], rest)
unfolding read_mime_header
read_mime_header-wire fs rest h = rw (starts_blank-wire fs (13 ∷ 10 ∷ rest) h refl) (
    read_fields-wire (suc (length (wire fs (13 ∷ 10 ∷ rest)))) fs rest [] h
      (omega (arith, length-wire fs (13 ∷ 10 ∷ rest))))
