-- ===== src/Fbb/Session/Steps.antt =====
-- A step of a session: the session behind it, and a value, an error or a panic.
use wl2k_go.Prelude.{Bytes, ◌++◌}
use wl2k_go.Go.Result.{ok, err, panic}
use wl2k_go.Fbb.Error.{Result}
use wl2k_go.Fbb.Line.{next_line}
use wl2k_go.Fbb.Session.Defs.{Session}

abbrev pub Step : Type 0 → Type 0 → Type 0
Step M A = Session M → Session M × Result A

-- What follows a step, if it is no error; the session keeps what was done before an error.
abbrev pub after : {M A B : Type 0} → Session M × Result A → (A → Step M B) → Session M × Result B
after (s, ok a) f = f a s
after (s, err e) f = (s, err e)
after (s, panic) f = (s, panic)

infixl 5 ◌>>=◌
abbrev pub ◌>>=◌ : {M A B : Type 0} → Step M A → (A → Step M B) → Step M B
◌>>=◌ m f s = after (m s) f

abbrev pub pure : {M A : Type 0} → A → Step M A
pure a s = (s, ok a)

abbrev pub lift : {M A : Type 0} → Result A → Step M A
lift r s = (s, r)

-- `fmt.Fprint(rw, b)`
abbrev pub write : {M : Type 0} → Bytes → Session M → Session M
write b s = record s { out = s.out ++ b }

-- A read from the connection: the rest stays there.
abbrev pub advance : {M A : Type 0} → Session M → Result (A × Bytes) → Session M × Result A
advance s (ok (a, rest)) = (record s { rd = rest }, ok a)
advance s (err e) = (s, err e)
advance s panic = (s, panic)

abbrev pub read_line : {M : Type 0} → Step M Bytes
read_line s = advance s (next_line s.rd)
