-- ===== src/Fbb/Line/Progress.antt =====
-- Reading a line takes a byte at least, and never runs out of fuel.
use wl2k_go.Prelude.{
  ℕ, ◌<◌, refl, inl, inr, Bool, true, Option-cases, [], ◌∷◌, ◌++◌, Bytes, arith, length,
}
use mathlib.Core.List.{reverse}
use wl2k_go.Go.Strings.{cut_at, cut_at_shorter}
use wl2k_go.Fbb.Error.{Ends, Ends-bind}
use wl2k_go.Fbb.Line.{
  trim_space, cut_nul, clean_end, clean_begin, clean_string, checked_line, next_line_remote_err,
  next_line,
}

clean_end-Ends : (r : Bytes) → Ends (λ l. Unit {0}) (clean_end r)
unfolding clean_end cut_nul
clean_end-Ends [] = tt
clean_end-Ends (c ∷ []) = ground arith
clean_end-Ends (c ∷ d ∷ r) = ground arith

clean_begin-Ends : (s : Bytes) → Ends (λ l. Unit {0}) (clean_begin s)
unfolding clean_begin
clean_begin-Ends [] = tt
clean_begin-Ends (c ∷ s) =
    ground (arith, clean_end-Ends (reverse s), clean_end-Ends (reverse (c ∷ s)))

checked_line-Ends :
    (parse_err : Bool) (line rest : Bytes) (n : ℕ)
    → length rest < n
    → Ends (λ r. length r.1 < n) (checked_line parse_err line rest)
unfolding checked_line
checked_line-Ends parse_err line rest n h = ground arith

pub next_line_remote_err-Ends :
    (parse_err : Bool) (s : Bytes)
    → Ends (λ r. length r.1 < length s) (next_line_remote_err parse_err s)
unfolding next_line_remote_err clean_string
next_line_remote_err-Ends parse_err s = elim (Option-cases (cut_at 13 s)) [
  | inl e ↦ rw (e, next_line_remote_err) refl
  | inr ((before, rest), e) ↦
      rw (e, next_line_remote_err)
        (Ends-bind (λ l. Unit) (λ r. length r.1 < length s)
          (clean_begin (trim_space (before ++ (13 ∷ []))))
          (λ line. checked_line parse_err line rest) (clean_begin-Ends _)
          (λ line _.
            checked_line-Ends parse_err line rest (length s) (cut_at_shorter 13 s before rest e)))
]

pub next_line-Ends : (s : Bytes) → Ends (λ r. length r.1 < length s) (next_line s)
unfolding next_line
next_line-Ends s = next_line_remote_err-Ends true s
