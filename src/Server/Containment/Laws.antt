-- ===== src/Server/Containment/Laws.antt =====
-- What the log of apps/server/src/containment.ts tells of the state, and what the state allows.
use gib_sync.Prelude.{
  ℕ, ◌≡◌, String, true, none, some, List, [], ◌∷◌, arith, eq_iff, Option-cases, inl, inr, ◌==◌,
  string_eq, option_eq,
}
use gib_sync.Prelude.Text.{Text}
use gib_sync.Prelude.Dict.{Dict, lookup}
use gib_sync.Prelude.Result.{ok}
use gib_sync.Server.Containment.{
  ContainmentState, ContainmentEvent, enabled, disabled, Tables, inactive, joined, current_state,
  allows, enable, disable, or_rolled_back, Switch, switch_on, switch_off, switch_all,
}

-- The state that the newest event of the log tells.
abbrev pub logged_state : Dict String String → List ContainmentEvent → ContainmentState
logged_state names [] = inactive
logged_state names (e ∷ es) = elim e.action [
  | enabled ↦ elim e.allowed_vault_id [
    | none ↦ inactive
    | some id ↦ joined names id e.reason e.created_at
  ]
  | disabled ↦ inactive
]

unfoldable pub Logged : Tables → Type 0
unfolding current_state
Logged T = current_state T ≡ logged_state T.names T.events

enable-Logged :
    (trim : Text → Text) (id : String) (reason : Text) (now : ℕ) (T : Tables)
    → Logged T
    → Logged (or_rolled_back T (enable trim id reason now T))
unfolding Logged enable
enable-Logged trim id reason now T logged = ground (arith, logged)

disable-Logged :
    (trim : Text → Text) (reason : Text) (now : ℕ) (T : Tables)
    → Logged T
    → Logged (disable trim reason now T)
unfolding Logged disable
disable-Logged trim reason now T logged = elim (Option-cases T.containment) [
  | inl e ↦ ground (arith, e, logged)
  | inr (row, e) ↦ ground (arith, e, logged)
]

-- However containment is switched on and off, also by calls that fail, the state is the one that
-- the newest event of the log tells, if that was so before.
pub switch_all-Logged :
    (trim : Text → Text) (ss : List Switch) (T : Tables) → Logged T → Logged (switch_all trim ss T)
unfolding switch_all
switch_all-Logged trim [] T logged = logged
switch_all-Logged trim (switch_on id reason now ∷ ss) T logged =
    switch_all-Logged trim ss (or_rolled_back T (enable trim id reason now T))
      (enable-Logged trim id reason now T logged)
switch_all-Logged trim (switch_off reason now ∷ ss) T logged =
    switch_all-Logged trim ss (disable trim reason now T) (disable-Logged trim reason now T logged)

allows-disable :
    (trim : Text → Text) (other : String) (reason : Text) (now : ℕ) (T : Tables)
    → allows other (disable trim reason now T) ≡ true
unfolding allows disable
allows-disable trim other reason now T = elim (Option-cases T.containment) [
  | inl e ↦ ground (arith, e)
  | inr (row, e) ↦ ground (arith, e)
]

-- Once containment is on for a vault, that vault is allowed and no other; once it is off again,
-- every vault is.
pub allows-enable :
    (trim : Text → Text) (id other : String) (reason off_reason : Text) (now later : ℕ) (T : Tables)
    {T' : Tables}
    → enable trim id reason now T ≡ ok T'
    → (allows other T' ≡ (id == other)) × (allows other (disable trim off_reason later T') ≡ true)
unfolding allows enable
allows-enable trim id other reason off_reason now later T {T'} h = (
  elim (Option-cases (lookup id T.names)) [
    | inl e ↦ ground (arith, e)
    | inr (name, e) ↦ ground (arith, e, eq_iff id other)
  ],
  allows-disable trim other off_reason later T',
)
