-- ===== src/Mailbox/Delivered.antt =====
-- The loop of GetOutbound: which messages it delivers, and what stays true of them.
use wl2k_go.Prelude.{
  arith, ◌≡◌, ◌≢◌, refl, sym, ap, ◌∙◌, inl, inr, no_bool, Bool-cases, Bool, true, false, Option,
  none, some, List, [], ◌∷◌, Bytes, if◌then◌else◌,
}
use wl2k_go.Go.Result.{Result as Outcome, ok, err, panic, ◌>>=◌}
use wl2k_go.Go.Sort.{All, Among}
use wl2k_go.Go.Strings.{codes, bytes_eq, bytes_eq_iff}
use wl2k_go.Go.Textproto.{header_get, header_del, canonical_key, capitals, all_tokens, is_token}
use wl2k_go.Go.Textproto.Map.{header_get-header_del, header_get-header_del_other}
use wl2k_go.Fbb.Address.{Address, equal_fold}
use wl2k_go.Fbb.Answer.{seen_mid}
use wl2k_go.Fbb.Message.Compose.{address_string, receivers, is_only_receiver, is_only_receiver-one}
use wl2k_go.Fbb.Header.{header_mid}
use wl2k_go.Fbb.Message.{Message}
use wl2k_go.Mailbox.{
  Error, message_id, x_unread, x_file_path, x_p2p_only, is_deferred, is_addressed, strip,
  deliver_one, deliver,
}

abbrev pub AllOk {ℓ} : {A : Type 0} {E : Type ℓ} → (A → Type 0) → Outcome E (List A) → Type 0
AllOk P (ok xs) = All P xs
AllOk P (err e) = Unit {0}
AllOk P panic = Unit {0}

abbrev pub EachOk : (Message → Type 0) → Outcome Error Message → Type 0
EachOk P (ok m) = P m
EachOk P (err e) = Unit {0}
EachOk P panic = Unit {0}

pub AllOk-cons :
    (P : Message → Type 0) (o : Outcome Error Message) (r : Outcome Error (List Message))
    → EachOk P o
    → AllOk P r
    → AllOk P (o >>= λ m. r >>= λ ms. ok (m ∷ ms))
AllOk-cons P (ok m) (ok ms) p ps = (p, ps)
AllOk-cons P (ok m) (err e) p ps = tt
AllOk-cons P (ok m) panic p ps = tt
AllOk-cons P (err e) r p ps = tt
AllOk-cons P panic r p ps = tt

pub AllOk-if :
    (P : Message → Type 0) (b : Bool) (r s : Outcome Error (List Message))
    → AllOk P r
    → AllOk P s
    → AllOk P (if b then r else s)
AllOk-if P true r s p q = p
AllOk-if P false r s p q = q

-- The private headers, which only the mailbox uses, are not there.
abbrev pub HasNoPrivate : Message → Type 0
HasNoPrivate m =
    (header_get x_p2p_only m.header ≡ [])
    × (header_get x_file_path m.header ≡ [])
    × (header_get x_unread m.header ≡ [])

-- What the forwarders of the remote ask of a message.
abbrev pub Suits : List Address → Message → Type 0
Suits [] m = HasNoPrivate m
Suits (fw ∷ fws) m =
    (r : Address) × (f : Address) × (receivers m ≡ r ∷ [])
    × Among f (fw ∷ fws)
    × (equal_fold (address_string r) (address_string f) ≡ true)

-- The id is none of those that were deferred, if there is a map of these.
abbrev pub IsNew : Option (List Bytes) → Bytes → Type 0
IsNew none mid = Unit {0}
IsNew (some mids) mid = All (λ d. mid ≢ d) mids

seen_mid-new :
    (mid : Bytes) (mids : List Bytes) → seen_mid mid mids ≡ false → All (λ d. mid ≢ d) mids
seen_mid-new mid [] h = tt
seen_mid-new mid (d ∷ mids) h = (
  λ e. no_bool (sym (ground arith) ∙ (bytes_eq_iff mid d).1 e),
  seen_mid-new mid mids (ground arith),
)

is_deferred-IsNew :
    (deferred : Option (List Bytes)) (mid : Bytes)
    → is_deferred deferred mid ≡ false
    → IsNew deferred mid
is_deferred-IsNew none mid h = tt
is_deferred-IsNew (some mids) mid h = seen_mid-new mid mids h

is_addressed-Among :
    (fws : List Address) (m : Message)
    → is_addressed fws m ≡ true
    → (r : Address) × (f : Address) × (receivers m ≡ r ∷ [])
      × Among f fws
      × (equal_fold (address_string r) (address_string f) ≡ true)
unfolding is_addressed
is_addressed-Among [] m h = absurd (no_bool h)
is_addressed-Among (fw ∷ fws) m h = elim (Bool-cases (is_only_receiver m fw)) [
  | inl e ↦ let (r, one, same) = is_only_receiver-one m fw e in (r, fw, one, inl refl, same)
  | inr e ↦
      let (r, f, one, at, same) = is_addressed-Among fws m (ground arith) in
      (r, f, one, inr at, same)
]

abbrev pub Deliverable : List Address → Option (List Bytes) → Message → Type 0
Deliverable fws deferred m = IsNew deferred (message_id m) × Suits fws m

pub strip-HasNoPrivate : (m : Message) → HasNoPrivate (strip m)
unfolding canonical_key capitals all_tokens is_token
strip-HasNoPrivate m =
    let h₁ = header_del x_p2p_only m.header in
    let h₂ = header_del x_file_path h₁ in
    (
      header_get-header_del_other x_p2p_only x_unread h₂ refl
          ∙ header_get-header_del_other x_p2p_only x_file_path h₁ refl
          ∙ header_get-header_del x_p2p_only m.header,
      header_get-header_del_other x_file_path x_unread h₂ refl
          ∙ header_get-header_del x_file_path h₁,
      header_get-header_del x_unread h₂,
    )

message_id-strip : (m : Message) → message_id (strip m) ≡ message_id m
unfolding canonical_key capitals all_tokens is_token
message_id-strip m =
    let h₁ = header_del x_p2p_only m.header in
    header_get-header_del_other header_mid x_unread (header_del x_file_path h₁) refl
    ∙ header_get-header_del_other header_mid x_file_path h₁ refl
    ∙ header_get-header_del_other header_mid x_p2p_only m.header refl

abbrev pub IfSome : (Message → Type 0) → Option Message → Type 0
IfSome P none = Unit {0}
IfSome P (some m) = P m

IfSome-if :
    (P : Message → Type 0) (b : Bool) (o p : Option Message)
    → (b ≡ true → IfSome P o)
    → (b ≡ false → IfSome P p)
    → IfSome P (if b then o else p)
IfSome-if P true o p f g = f refl
IfSome-if P false o p f g = g refl

pub deliver_one-Deliverable :
    (fws : List Address) (deferred : Option (List Bytes)) (m : Message)
    → IfSome (Deliverable fws deferred) (deliver_one fws deferred m)
unfolding deliver_one
deliver_one-Deliverable [] deferred m =
    IfSome-if (Deliverable [] deferred) (is_deferred deferred (message_id m)) none _ (λ e. tt)
      λ e.
        IfSome-if (Deliverable [] deferred)
          (bytes_eq (header_get x_p2p_only m.header) (codes "true")) none (some (strip m))
          (λ e'. tt)
          λ e'. (
            is_deferred-IsNew deferred (message_id (strip m))
                (ap (is_deferred deferred) (message_id-strip m) ∙ e),
            strip-HasNoPrivate m,
          )
deliver_one-Deliverable (fw ∷ fws) deferred m =
    let P = Deliverable (fw ∷ fws) deferred in
    IfSome-if P (is_deferred deferred (message_id m)) none _ (λ e. tt)
      λ e.
        IfSome-if P (is_addressed (fw ∷ fws) m) (some m) none
          (λ e'. (is_deferred-IsNew deferred (message_id m) e, is_addressed-Among (fw ∷ fws) m e'))
          (λ e'. tt)

-- A message of the outbox is delivered as it is if the remote has forwarders.
pub deliver_one-same :
    (P : Message → Type 0) (fw : Address) (fws : List Address) (deferred : Option (List Bytes))
    → (m : Message) → P m
    → IfSome P (deliver_one (fw ∷ fws) deferred m)
unfolding deliver_one
deliver_one-same P fw fws deferred m p =
    IfSome-if P (is_deferred deferred (message_id m)) none _ (λ e. tt)
      λ e. IfSome-if P (is_addressed (fw ∷ fws) m) (some m) none (λ e'. p) (λ e'. tt)

IfSome-cons :
    (P : Message → Type 0) (o : Option Message) (out : List Message)
    → IfSome P o
    → All P out
    → All P (elim o as (λ x. List Message) [ none ↦ out | some m ↦ m ∷ out ])
IfSome-cons P none out p ps = ps
IfSome-cons P (some m) out p ps = (p, ps)

pub deliver-All :
    (P Q : Message → Type 0) (fws : List Address) (deferred : Option (List Bytes))
    → ((m : Message) → P m → IfSome Q (deliver_one fws deferred m))
    → (ms : List Message) → All P ms
    → All Q (deliver fws deferred ms)
unfolding deliver
deliver-All P Q fws deferred step [] ps = tt
deliver-All P Q fws deferred step (m ∷ ms) (p, ps) =
    IfSome-cons Q (deliver_one fws deferred m) _ (step m p)
      (deliver-All P Q fws deferred step ms ps)

pub All-true : (ms : List Message) → All (λ m. Unit {0}) ms
All-true [] = tt
All-true (m ∷ ms) = (tt, All-true ms)
