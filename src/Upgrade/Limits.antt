-- ===== src/Upgrade/Limits.antt =====
-- packages/api/src/persistence/repositories/local-upgrade.repository.ts: what `create` checks before
-- it inserts a job.
use vps_manager_nodejs.Prelude.{
  ◌+◌, ◌≤◌, ◌≡◌, refl, sym, ◌∙◌, ◌⊎◌, inl, inr, String, Bool, true, false, ◌&&◌, List, [], ◌∷◌,
  ◌++◌, Option, none, some, arith, str_eq, eq_iff, find, count_if, Option-cases, Bool-cases, ok,
  if◌then◌else◌, subst,
}
use vps_manager_nodejs.Upgrade.Job.{Job}
use vps_manager_nodejs.Upgrade.Store.{
  World, is_active_of, same_key, has_key, get_active_by_vps, get_by_idempotency_key, add_job,
  create_keyed, create_key, create,
}

-- No server has two live jobs.
abbrev pub OneActive : World → Type 0
OneActive w = (vps_id : String) → count_if (is_active_of vps_id) w.jobs ≤ 1

-- No two jobs of a server share an idempotency key; the empty key is no key.
abbrev pub KeyedOnce : World → Type 0
KeyedOnce w = (vps_id key : String) → (key ≡ "") ⊎ (count_if (has_key vps_id key) w.jobs ≤ 1)

count_if-absent : (p : Job → Bool) (js : List Job) → find p js ≡ none → count_if p js ≡ 0
count_if-absent p [] e = refl
count_if-absent p (x ∷ js) e = elim (Bool-cases (p x)) [
  | inl hit ↦ ground arith
  | inr miss ↦ ground (arith, count_if-absent p js)
]

count_if-add :
    (p : Job → Bool) (js : List Job) (j : Job)
    → count_if p (js ++ j ∷ []) ≡ count_if p js + (if p j then 1 else 0)
count_if-add p [] j = ground arith
count_if-add p (x ∷ js) j = ground (arith, count_if-add p js j)

-- The key of a new job is none, is empty, or is not yet used.
abbrev FreshKey : Job → Option String → World → Type 0
FreshKey j none w = Unit
FreshKey j (some key) w = (key ≡ "") ⊎ (get_by_idempotency_key j.vps_id key w ≡ none)

create_key-cases :
    (key : Option String) (j new : Job) (w v : World)
    → create_key key j w ≡ ok (new, v)
    → FreshKey j key w × (v ≡ add_job j w)
unfolding create_key create_keyed
create_key-cases none j new w v e = (tt, ground arith)
create_key-cases (some key) j new w v e = elim (Bool-cases (str_eq key "")) [
  | inl empty ↦ (inl ((eq_iff key "").0 empty), ground (arith))
  | inr used ↦ elim (Option-cases (get_by_idempotency_key j.vps_id key w)) [
    | inl fresh ↦ (inr fresh, ground arith)
    | inr (old, found) ↦ absurd (ground arith)
  ]
]

create-cases :
    (j new : Job) (w v : World)
    → create j w ≡ ok (new, v)
    → (get_active_by_vps j.vps_id w ≡ none) × FreshKey j j.idempotency_key w × (v ≡ add_job j w)
unfolding create
create-cases j new w v e = elim (Option-cases (get_active_by_vps j.vps_id w)) [
  | inl idle ↦
      let (fresh, added) = create_key-cases j.idempotency_key j new w v (ground arith) in
      (idle, fresh, added)
  | inr (old, found) ↦ absurd (ground arith)
]

module _ (p : Job → Bool) (j : Job) (w : World) where
  add_job-absent : find p w.jobs ≡ none → count_if p (add_job j w).jobs ≤ 1
  add_job-absent absent =
      ground
        (arith, count_if-add p w.jobs (record j { revision = 0 }), count_if-absent p w.jobs absent)

  add_job-other :
      p (record j { revision = 0 }) ≡ false
      → count_if p w.jobs ≤ 1
      → count_if p (add_job j w).jobs ≤ 1
  add_job-other other one = ground (arith, count_if-add p w.jobs (record j { revision = 0 }), other)

add_job-OneActive :
    (j : Job) (w : World)
    → get_active_by_vps j.vps_id w ≡ none
    → OneActive w
    → OneActive (add_job j w)
unfolding get_active_by_vps
add_job-OneActive j w idle one vps_id = elim (Bool-cases (str_eq j.vps_id vps_id)) [
  | inl own ↦
      add_job-absent (is_active_of vps_id) j w
        (subst (λ v. find (is_active_of v) w.jobs ≡ none) ((eq_iff j.vps_id vps_id).0 own) idle)
  | inr other ↦ add_job-other (is_active_of vps_id) j w (rw other refl) (one vps_id)
]

FreshKey-absent :
    (j : Job) (o : Option String) (w : World) (vps_id key : String)
    → FreshKey j o w
    → (str_eq j.vps_id vps_id && same_key o key) ≡ true
    → (key ≡ "") ⊎ (find (has_key vps_id key) w.jobs ≡ none)
unfolding get_by_idempotency_key
FreshKey-absent j none w vps_id key fresh hit = absurd (ground arith)
FreshKey-absent j (some k) w vps_id key fresh hit =
    let own : j.vps_id ≡ vps_id = ground (arith, eq_iff j.vps_id vps_id) in
    let same : k ≡ key = ground (arith, eq_iff k key) in
    elim fresh [
      | inl empty ↦ inl (sym same ∙ empty)
      | inr absent ↦ inr (
          subst (λ i. find (has_key i key) w.jobs ≡ none) own
            (subst (λ i. find (has_key j.vps_id i) w.jobs ≡ none) same absent))
    ]

add_job-KeyedOnce :
    (j : Job) (w : World) → FreshKey j j.idempotency_key w → KeyedOnce w → KeyedOnce (add_job j w)
unfolding get_by_idempotency_key
add_job-KeyedOnce j w fresh once vps_id key = elim (once vps_id key) [
  | inl empty ↦ inl empty
  | inr one ↦ elim (Bool-cases (has_key vps_id key j)) [
    | inr other ↦ inr (add_job-other (has_key vps_id key) j w other one)
    | inl hit ↦ elim (FreshKey-absent j j.idempotency_key w vps_id key fresh hit) [
      | inl empty ↦ inl empty
      | inr absent ↦ inr (add_job-absent (has_key vps_id key) j w absent)
    ]
  ]
]

-- `create` inserts a job only where its server has no live job and its idempotency key is not in use,
-- so that no server ever has two live jobs and no key names two jobs of a server.
pub create-KeepsLimits :
    (j new : Job) (w v : World)
    → OneActive w
    → KeyedOnce w
    → create j w ≡ ok (new, v)
    → OneActive v × KeyedOnce v
create-KeepsLimits j new w v one once e =
    let (idle, fresh, added) = create-cases j new w v e in
    rw added (add_job-OneActive j w idle one, add_job-KeyedOnce j w fresh once)
