-- ===== src/Fbb/Message/Date.antt =====
-- fbb/message.go: the layouts of dates, and `ParseDate`.
use wl2k_go.Prelude.{Option, none, some, List, [], ◌∷◌, ◌++◌, Bytes, map}
use wl2k_go.Go.Strings.{codes}

-- Package `time`, whose language of layouts is not modelled.
pub record TimePackage : Type 1 where
  pub Time : Type 0
  pub zero_time : Time
  pub parse : Bytes → Bytes → Option Time
  pub to_local : Time → Time
  -- `t.UTC().Format(layout)`.
  pub format_utc : Time → Bytes → Bytes

abbrev pub date_layout : Bytes
date_layout = codes "2006/01/02 15:04"

-- Each text with each ending, in the order of two nested loops.
with_endings : List Bytes → List Bytes → List Bytes
with_endings [] endings = []
with_endings (s ∷ ss) endings = map (λ e. s ++ e) endings ++ with_endings ss endings

-- The nested loops of `init`.
unfoldable pub mail_layouts : List Bytes
unfolding with_endings
mail_layouts =
    let dows = [] ∷ codes "Mon, " ∷ [] in
    let days = map (λ d. d ++ codes " Jan ") (codes "2" ∷ codes "02" ∷ []) in
    let years = map (λ y. y ++ codes " 15:04") (codes "2006" ∷ codes "06" ∷ []) in
    let seconds = map (λ s. s ++ codes " ") (codes ":05" ∷ [] ∷ []) in
    let zones = codes "-0700" ∷ codes "MST" ∷ codes "-0700 (MST)" ∷ [] in
    with_endings dows (with_endings days (with_endings years (with_endings seconds zones)))

-- `dateLayouts`.
unfoldable pub date_layouts : List Bytes
unfolding mail_layouts
date_layouts =
    date_layout
    ∷ codes "2006.01.02 15:04"
    ∷ codes "2006-01-02 15:04"
    ∷ codes "20060102150405"
    ∷ mail_layouts

module _ (time : TimePackage) where
  open time use {Time, zero_time, parse, to_local}

  -- The first layout that fits.
  unfoldable pub parse_layouts : List Bytes → Bytes → Option Time
  parse_layouts [] date = none
  parse_layouts (l ∷ ls) date = elim (parse l date) [
    | none ↦ parse_layouts ls date
    | some t ↦ some (to_local t)
  ]

  -- `ParseDate`. The empty text is the zero time.
  unfoldable pub parse_date : Bytes → Option Time
  unfolding parse_layouts date_layouts
  parse_date [] = some zero_time
  parse_date (c ∷ s) = parse_layouts date_layouts (c ∷ s)
