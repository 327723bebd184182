-- ===== src/Fbb/Session/Defs.antt =====
-- The state of a session, and what the application gives to it.
use wl2k_go.Prelude.{ℕ, Bool, Option, none, some, List, [], ◌∷◌, Bytes, if◌then◌else◌}
use wl2k_go.Fbb.Address.{Address}
use wl2k_go.Fbb.Proposal.{Proposal}
use wl2k_go.Fbb.Sorting.{sort_proposals}

-- `MBoxHandler`, what the application gives: `M` is the state of its mailbox, `Msg` its messages.
-- A Bool result says that there is no error.
pub record MboxHandler (M Msg : Type 0) : Type 0 where
  pub prepare : M → M × Bool
  pub get_outbound : List Address → M → List Msg
  pub set_sent : Bytes → Bool → M → M
  pub set_deferred : Bytes → M → M
  pub process_inbound : Msg → M → M × Bool
  pub get_inbound_answer : M → Proposal → ℕ

-- What `Message()` of a proposal does: it gives a message, or an error, that the text ends too soon or another one; and
-- it panics at compressed data that cannot be read.
pub data Parsed (Msg : Type 0) : Type 0 where
  parsed : Msg → Parsed Msg
  cut_short malformed panicked : Parsed Msg

-- What a session asks of a message: `Validate`, `Proposal(code)`, and `Message()` of a proposal.
pub record Messages (Msg : Type 0) : Type 0 where
  pub validate : Msg → Bool
  pub to_proposal : ℕ → Msg → Option Proposal
  pub from_proposal : Proposal → Parsed Msg

-- The fields of `Session` that change in a session, and what was written. `prop_code` is the result of
-- `highestPropCode` for the other side's SID.
pub record Session (M : Type 0) : Type 0 where
  pub master : Bool
  pub remote_sid : Bytes
  pub remote_fw : List Address
  pub prop_code : ℕ
  pub received : List Bytes
  pub sent : List Bytes
  pub quit_received : Bool
  pub quit_sent : Bool
  pub remote_no_msgs : Bool
  pub rd : Bytes
  pub out : Bytes
  pub mbox : M

-- The loop of `outbound` over the messages: an invalid one, and one with no proposal, is left out.
unfoldable pub prepare_all : {Msg : Type 0} → Messages Msg → ℕ → List Msg → List Proposal
prepare_all msgs code [] = []
prepare_all msgs code (m ∷ ms) =
    if msgs.validate m
    then elim (msgs.to_proposal code m) [
      | none ↦ prepare_all msgs code ms
      | some p ↦ p ∷ prepare_all msgs code ms
    ]
    else prepare_all msgs code ms

module _ {M Msg : Type 0} (h : Option (MboxHandler M Msg)) (msgs : Messages Msg) where
  -- The pending proposals, in the order in which they are offered.
  unfoldable pub outbound : Session M → List Proposal
  outbound s = elim h [
    | none ↦ []
    | some mb ↦ sort_proposals (prepare_all msgs s.prop_code (mb.get_outbound s.remote_fw s.mbox))
  ]
