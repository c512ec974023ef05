-- ===== src/Monitoring/Upkeep/Cleanup.antt =====
-- packages/api/src/persistence/repositories/docker-monitoring.repository.ts: what `cleanupForVps` removes.
use vps_manager_nodejs.Prelude.{
  String, true, false, List, [], ◌∷◌, Option, none, some, ◌≡◌, ◌≢◌, refl, sym, ap, ◌∙◌, inl, inr,
  filterb, str_eq, eq_iff, eq_refl, Bool-cases,
}
use vps_manager_nodejs.Monitoring.Records.{RuleKey, Store}
use vps_manager_nodejs.Prelude.{some-eq}
use vps_manager_nodejs.Alerts.Unavailable.{State}
use vps_manager_nodejs.Alerts.RuleState.{TypedState}
use vps_manager_nodejs.Monitoring.Tables.{set_entry}
use vps_manager_nodejs.Monitoring.Upkeep.{is_other, keep_host, keep_typed, cleanup_for_vps}

module _ {T : Type 0} (server : T → String) where
  -- The rows of a server.
  abbrev pub of_server : String → List T → List T
  of_server vps_id rows = filterb (λ x. str_eq (server x) vps_id) rows

  abbrev without : String → List T → List T
  without vps_id rows = filterb (λ x. is_other vps_id (server x)) rows

  none_left : (vps_id : String) (rows : List T) → of_server vps_id (without vps_id rows) ≡ []
  none_left vps_id [] = refl
  none_left vps_id (x ∷ xs) = elim (Bool-cases (str_eq (server x) vps_id)) [
    | inl its ↦ rw (its) (none_left vps_id xs)
    | inr other ↦ rw (other, other) (none_left vps_id xs)
  ]

  others_stay :
      (vps_id other : String) (rows : List T)
      → other ≢ vps_id
      → of_server other (without vps_id rows) ≡ of_server other rows
  others_stay vps_id other [] apart = refl
  others_stay vps_id other (x ∷ xs) apart = elim (Bool-cases (str_eq (server x) vps_id)) [
    | inl its ↦
        let away : str_eq (server x) other ≡ false = elsewhere its in
        rw (its, away) (others_stay vps_id other xs apart)
    | inr kept ↦ elim (Bool-cases (str_eq (server x) other)) [
      | inl found ↦ rw (kept, found) (ap (λ r. x ∷ r) (others_stay vps_id other xs apart))
      | inr missed ↦ rw (kept, missed) (others_stay vps_id other xs apart)
    ]
  ]
    where
      elsewhere : str_eq (server x) vps_id ≡ true → str_eq (server x) other ≡ false
      elsewhere its = elim (Bool-cases (str_eq (server x) other)) [
        | inr missed ↦ missed
        | inl found ↦
            absurd
              (apart (sym ((eq_iff (server x) other).0 found) ∙ (eq_iff (server x) vps_id).0 its))
      ]

set_entry-gone :
    {A : Type 0} (key : String) (entries : String → Option A)
    → set_entry key none entries key ≡ none
set_entry-gone key entries = rw (eq_refl key) refl

set_entry-other :
    {A : Type 0} (key other : String) (entries : String → Option A)
    → other ≢ key
    → set_entry key none entries other ≡ entries other
set_entry-other key other entries apart = elim (Bool-cases (str_eq key other)) [
  | inl same ↦ absurd (apart (sym ((eq_iff key other).0 same)))
  | inr differ ↦ rw (differ) refl
]

keep_host-other :
    (vps_id : String) (entry : Option State) (state : State)
    → keep_host vps_id entry ≡ some state
    → state.vps_id ≢ vps_id
keep_host-other vps_id none state kept same = cc
keep_host-other vps_id (some s) state kept same = elim (Bool-cases (str_eq s.vps_id vps_id)) [
  | inl its ↦ let e = rw (its) at kept in cc
  | inr other ↦
      let e = some-eq (rw (other) at kept) in
      let its = (eq_iff s.vps_id vps_id).1 (ap (λ x. x.vps_id) e ∙ same) in cc
]

keep_typed-other :
    (vps_id : String) (entry : Option TypedState) (state : TypedState)
    → keep_typed vps_id entry ≡ some state
    → state.vps_id ≢ vps_id
keep_typed-other vps_id none state kept same = cc
keep_typed-other vps_id (some s) state kept same = elim (Bool-cases (str_eq s.vps_id vps_id)) [
  | inl its ↦ let e = rw (its) at kept in cc
  | inr other ↦
      let e = some-eq (rw (other) at kept) in
      let its = (eq_iff s.vps_id vps_id).1 (ap (λ x. x.vps_id) e ∙ same) in cc
]

is_other-true : (vps_id other : String) → other ≢ vps_id → is_other vps_id other ≡ true
is_other-true vps_id other apart = elim (Bool-cases (str_eq other vps_id)) [
  | inl same ↦ absurd (apart ((eq_iff other vps_id).0 same))
  | inr differ ↦ rw (differ) refl
]

keep_host-same :
    (vps_id other : String) (entry : Option State)
    → other ≢ vps_id
    → ((state : State) → entry ≡ some state → state.vps_id ≡ other)
    → keep_host vps_id entry ≡ entry
keep_host-same vps_id other none apart names = refl
keep_host-same vps_id other (some s) apart names =
    rw (names s refl, is_other-true vps_id other apart) refl

keep_typed-same :
    (vps_id other : String) (entry : Option TypedState)
    → other ≢ vps_id
    → ((state : TypedState) → entry ≡ some state → state.vps_id ≡ other)
    → keep_typed vps_id entry ≡ entry
keep_typed-same vps_id other none apart names = refl
keep_typed-same vps_id other (some s) apart names =
    rw (names s refl, is_other-true vps_id other apart) refl

module _ {R : Type 0} where
  -- What the store has of a server, section by section. The rule states of a server are those that
  -- name it.
  pub record SameOf (vps_id : String) (s after : Store R) : Type 0 where
    pub samples :
        of_server (λ x. x.vps_id) vps_id after.samples ≡ of_server (λ x. x.vps_id) vps_id s.samples
    pub events :
        of_server (λ x. x.vps_id) vps_id after.events ≡ of_server (λ x. x.vps_id) vps_id s.events
    pub rollups :
        of_server (λ x. x.vps_id) vps_id after.rollups ≡ of_server (λ x. x.vps_id) vps_id s.rollups
    pub alerts :
        of_server (λ x. x.vps_id) vps_id after.alerts ≡ of_server (λ x. x.vps_id) vps_id s.alerts
    pub snapshots :
        of_server (λ x. x.vps_id) vps_id after.snapshots
        ≡ of_server (λ x. x.vps_id) vps_id s.snapshots
    pub watermarks :
        of_server (λ x. x.vps_id) vps_id after.watermarks
        ≡ of_server (λ x. x.vps_id) vps_id s.watermarks
    pub batches :
        of_server (λ x. x.vps_id) vps_id after.batches ≡ of_server (λ x. x.vps_id) vps_id s.batches
    pub storage : after.latest_storage vps_id ≡ s.latest_storage vps_id
    pub latest : after.latest_by_vps vps_id ≡ s.latest_by_vps vps_id
    pub host_states :
        (key : String)
        → ((state : State) → s.unavailable_states key ≡ some state → state.vps_id ≡ vps_id)
        → after.unavailable_states key ≡ s.unavailable_states key
    pub typed_states :
        (key : RuleKey)
        → ((state : TypedState) → s.typed_states key ≡ some state → state.vps_id ≡ vps_id)
        → after.typed_states key ≡ s.typed_states key

  -- Nothing is left of a server.
  pub record IsErased (vps_id : String) (after : Store R) : Type 0 where
    pub samples : of_server (λ x. x.vps_id) vps_id after.samples ≡ []
    pub events : of_server (λ x. x.vps_id) vps_id after.events ≡ []
    pub rollups : of_server (λ x. x.vps_id) vps_id after.rollups ≡ []
    pub alerts : of_server (λ x. x.vps_id) vps_id after.alerts ≡ []
    pub snapshots : of_server (λ x. x.vps_id) vps_id after.snapshots ≡ []
    pub watermarks : of_server (λ x. x.vps_id) vps_id after.watermarks ≡ []
    pub batches : of_server (λ x. x.vps_id) vps_id after.batches ≡ []
    pub storage : after.latest_storage vps_id ≡ none
    pub latest : after.latest_by_vps vps_id ≡ none
    pub host_states :
        (key : String) (state : State)
        → after.unavailable_states key ≡ some state
        → state.vps_id ≢ vps_id
    pub typed_states :
        (key : RuleKey) (state : TypedState)
        → after.typed_states key ≡ some state
        → state.vps_id ≢ vps_id

  -- A cleanup leaves nothing of its server, in any section of the store, and everything of every other
  -- server as it was.
  pub cleanup_for_vps-Erases :
      (vps_id : String) (s : Store R)
      → IsErased vps_id (cleanup_for_vps vps_id s)
        × ((other : String) → other ≢ vps_id → SameOf other s (cleanup_for_vps vps_id s))
  unfolding cleanup_for_vps
  cleanup_for_vps-Erases vps_id s = (
    record {
      samples = none_left (λ x. x.vps_id) vps_id s.samples;
      events = none_left (λ x. x.vps_id) vps_id s.events;
      rollups = none_left (λ x. x.vps_id) vps_id s.rollups;
      alerts = none_left (λ x. x.vps_id) vps_id s.alerts;
      snapshots = none_left (λ x. x.vps_id) vps_id s.snapshots;
      watermarks = none_left (λ x. x.vps_id) vps_id s.watermarks;
      batches = none_left (λ x. x.vps_id) vps_id s.batches;
      storage = set_entry-gone vps_id s.latest_storage;
      latest = set_entry-gone vps_id s.latest_by_vps;
      host_states = λ key state. keep_host-other vps_id (s.unavailable_states key) state;
      typed_states = λ key state. keep_typed-other vps_id (s.typed_states key) state;
    },
    λ other apart. record {
      samples = others_stay (λ x. x.vps_id) vps_id other s.samples apart;
      events = others_stay (λ x. x.vps_id) vps_id other s.events apart;
      rollups = others_stay (λ x. x.vps_id) vps_id other s.rollups apart;
      alerts = others_stay (λ x. x.vps_id) vps_id other s.alerts apart;
      snapshots = others_stay (λ x. x.vps_id) vps_id other s.snapshots apart;
      watermarks = others_stay (λ x. x.vps_id) vps_id other s.watermarks apart;
      batches = others_stay (λ x. x.vps_id) vps_id other s.batches apart;
      storage = set_entry-other vps_id other s.latest_storage apart;
      latest = set_entry-other vps_id other s.latest_by_vps apart;
      host_states = λ key names. keep_host-same vps_id other (s.unavailable_states key) apart names;
      typed_states = λ key names. keep_typed-same vps_id other (s.typed_states key) apart names;
    },
  )
