-- ===== src/Fbb/Error.antt =====
-- The errors that the fbb package returns, one constructor for each message or cause.
use wl2k_go.Prelude.{ℕ, Bytes, Bool, true, false, ◌≡◌, ◌≢◌, ap, arith, if◌then◌else◌}
use mathlib.Core.Path.{subst}
use wl2k_go.Prelude.Int.{ℤ}
use wl2k_go.Go.Result.{Result as Outcome, ok, err, panic, ◌>>=◌}

pub data Error : Type 0 where
  -- The connection ended: io.EOF and io.ErrUnexpectedEOF.
  eof : Error
  -- A line that begins with '*', with the text behind the last one.
  remote_error : Bytes → Error
  -- proposal.go
  unsupported_code : ℕ → Error
  proposal_too_short not_b2_proposal malformed_proposal : Error
  malformed_type unexpected_type : Error
  too_many_parts : Error
  -- b2f.go, readCompressed and writeCompressed
  invalid_compressed_data : Error
  cms_error : Bytes → Error
  bad_first_byte : ℕ → Error
  title_unparsed offset_unparsed : Error
  header_length_mismatch : ℕ → ℕ → Error
  offset_not_integer : Error
  offset_mismatch : ℤ → ℤ → Error
  bad_checksum length_mismatch : Error
  unexpected_byte : ℕ → Error
  -- b2f.go, the answers
  too_many_answers offset_without_index : Error
  invalid_answer : ℕ → Error
  -- b2f.go, handleOutbound and handleInbound
  unexpected_response unexpected_answer unexpected_line : Bytes → Error
  checksum_mismatch : ℕ → ℤ → Error
  unknown_command : ℕ → Error
  quit_with_pending : Error
  -- handshake.go
  no_sid bad_sid no_fb2 malformed_forward no_login_handler : Error
  -- What a handler of the application returns.
  handler_error : Error
  -- What `Message()` returns for a proposal whose data is no message.
  bad_message : Error
  -- wl2k.go, ErrConnLost.
  conn_lost : Error
  -- No Go value: a loop of the model had too little fuel.
  out_of_fuel : Error

abbrev pub Result {κ} : Type κ → Type κ
Result A = Outcome Error A

abbrev pub is_fuel : Error → Bool
is_fuel out_of_fuel = true
is_fuel _ = false

-- A result that is `P` if it is a value, and is no exhausted fuel.
abbrev pub Ends {κ} : {A : Type κ} → (A → Type 0) → Result A → Type 0
Ends P (ok a) = P a
Ends P (err e) = is_fuel e ≡ false
Ends P panic = Unit {0}

fuel_err : (b : Error) → is_fuel b ≡ false → b ≢ out_of_fuel
fuel_err b h e = ground (arith, ap is_fuel e)

module _ {κ} {A : Type κ} where
  pub Ends-bind {μ} :
      {B : Type μ} (P : A → Type 0) (Q : B → Type 0) (m : Result A) (f : A → Result B)
      → Ends P m
      → ((a : A) → P a → Ends Q (f a))
      → Ends Q (m >>= f)
  Ends-bind P Q (ok a) f h k = k a h
  Ends-bind P Q (err e) f h k = h
  Ends-bind P Q panic f h k = tt

  pub Ends-ok : (P : A → Type 0) (m : Result A) (a : A) → Ends P m → m ≡ ok a → P a
  Ends-ok P (ok b) a h e = subst P (cc) h
  Ends-ok P (err b) a h e = cc
  Ends-ok P panic a h e = cc

  pub Ends-fuel : (P : A → Type 0) (m : Result A) → Ends P m → m ≢ err out_of_fuel
  Ends-fuel P (ok b) h e = cc
  Ends-fuel P (err b) h e = absurd (fuel_err b h (cc))
  Ends-fuel P panic h e = cc

  pub Ends-mono : (P Q : A → Type 0) (m : Result A) → ((a : A) → P a → Q a) → Ends P m → Ends Q m
  Ends-mono P Q (ok a) k h = k a h
  Ends-mono P Q (err e) k h = h
  Ends-mono P Q panic k h = tt

-- A test chooses between two results.
pub Ends-if {κ} :
    {A : Type κ} (P : A → Type 0) (b : Bool) (m n : Result A)
    → Ends P m
    → Ends P n
    → Ends P (if b then m else n)
Ends-if P true m n h k = h
Ends-if P false m n h k = k
