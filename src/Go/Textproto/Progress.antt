-- ===== src/Go/Textproto/Progress.antt =====
-- Each line takes a byte of the input at least, so the fuel of the loops is enough.
use wl2k_go.Prelude.{
  ℕ, zero, suc, ◌<◌, ◌≤◌, ◌≡◌, ◌≢◌, refl, inl, inr, Bool, false, Bool-cases, Option-cases, some, [],
  ◌∷◌, ◌++◌, Bytes, arith, length,
}
use wl2k_go.Go.Result.{err}
use wl2k_go.Go.Strings.{cut_at, cut_at_shorter}
use wl2k_go.Go.Textproto.{
  out_of_fuel, Header, is_blank, trim_left, trim, last_line, read_line, starts_blank, continued,
  add_field, read_fields, read_mime_header,
}

last_line_shorter : (s line rest : Bytes) → last_line s ≡ some (line, rest) → length rest < length s
last_line_shorter [] line rest e = cc
last_line_shorter (c ∷ s) line rest e = ground arith

pub read_line_shorter :
    (s line rest : Bytes) → read_line s ≡ some (line, rest) → length rest < length s
unfolding read_line
read_line_shorter s line rest e = elim (Option-cases (cut_at 10 s)) [
  | inl n ↦ last_line_shorter s line rest (ground (arith, n))
  | inr (p, q) ↦ ground (arith, q, cut_at_shorter 10 s p.0 p.1)
]

length-trim_left : (p : ℕ → Bool) (s : Bytes) → length (trim_left p s) ≤ length s
unfolding trim_left
length-trim_left p [] = omega arith
length-trim_left p (c ∷ s) = ground (arith, length-trim_left p s)

-- The continued lines end where no blank begins a line, and nothing is put back.
pub continued_end :
    (f : ℕ) (line s : Bytes)
    → length s ≤ f
    → (starts_blank (continued f line s).1 ≡ false) × (length (continued f line s).1 ≤ length s)
unfolding continued
continued_end zero line [] h = (refl, omega arith)
continued_end zero line (c ∷ s) h = absurd (omega arith)
continued_end (suc f) line s h = elim (Bool-cases (starts_blank s)) [
  | inr e ↦ rw e (e, omega arith)
  | inl e ↦ elim (Option-cases (read_line (trim_left is_blank s))) [
    | inl n ↦ ground (arith, e, n)
    | inr (p, q) ↦ ground (
      arith,
      e,
      q,
      length-trim_left is_blank s,
      read_line_shorter (trim_left is_blank s) p.0 p.1,
      continued_end f (line ++ b' ' ∷ trim p.0) p.1,
    )
  ]
]

read_fields_ends :
    (f : ℕ) (s : Bytes) (h : Header) → length s < f → read_fields f s h ≢ err out_of_fuel
unfolding read_fields
read_fields_ends zero s h lt = absurd (omega arith)
read_fields_ends (suc f) s h lt = elim (Option-cases (read_line s)) [
  | inl n ↦ ground (arith, n)
  | inr (([], rest), q) ↦ ground (arith, q)
  | inr ((c ∷ line, rest), q) ↦ elim (Option-cases (cut_at b':' (c ∷ line))) [
    | inl n ↦ ground (arith, q, n)
    | inr (found, r) ↦
        let whole = continued (length rest) (trim (c ∷ line)) rest in
        elim (Option-cases (cut_at b':' whole.0)) [
          | inl n ↦ ground (arith, q, r, n)
          | inr (kv, k) ↦ ground (
            arith,
            q,
            r,
            k,
            read_line_shorter s (c ∷ line) rest q,
            continued_end (length rest) (trim (c ∷ line)) rest,
            read_fields_ends f whole.1 (add_field kv.0 kv.1 h),
          )
        ]
  ]
]

-- `ReadMIMEHeader` ends on every input: its fuel is not exhausted.
read_mime_header_ends : (s : Bytes) → read_mime_header s ≢ err out_of_fuel
unfolding read_mime_header
read_mime_header_ends s = ground (arith, read_fields_ends (suc (length s)) s [])
