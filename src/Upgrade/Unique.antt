-- ===== src/Upgrade/Unique.antt =====
-- Job ids are unique in the store of packages/api/src/persistence/repositories/
-- local-upgrade.repository.ts, so that a job found in any way is the one its id names.
use vps_manager_nodejs.Prelude.{
  All, ℕ, suc, zero, ◌≡◌, refl, sym, ap, ◌∙◌, inl, inr, String, Bool, List, [], ◌∷◌, none, some,
  find, filterb, take, drop, leb, arith, str_eq, eq_iff, Bool-cases,
}
use vps_manager_nodejs.Upgrade.Job.{Job}
use vps_manager_nodejs.Upgrade.Store.{
  World, has_id, is_active_of, get, get_active_by_vps, list_by_vps, sort_newest, insert_newest,
  replace_first, compare_and_set,
}
use vps_manager_nodejs.Upgrade.Store.Evolution.{compare_and_set-Committed, get-id}

abbrev pub Unique : List Job → Type 0
Unique [] = Unit
Unique (j ∷ js) = (find (has_id j.id) js ≡ none) × Unique js

replace_first-absent :
    (id k : String) (new : Job) (js : List Job)
    → new.id ≡ id
    → find (has_id k) js ≡ none
    → find (has_id k) (replace_first id new js) ≡ none
replace_first-absent id k new [] same e = refl
replace_first-absent id k new (x ∷ js) same e =
    ground
      (arith, eq_iff x.id id, eq_iff x.id k, eq_iff new.id k, replace_first-absent id k new js same)

pub replace_first-Unique :
    (id : String) (new : Job) (js : List Job)
    → new.id ≡ id
    → Unique js
    → Unique (replace_first id new js)
replace_first-Unique id new [] same u = tt
replace_first-Unique id new (x ∷ js) same u = elim (Bool-cases (has_id id x)) [
  | inl hit ↦ rw hit (rw (same ∙ sym ((eq_iff x.id id).0 hit)) u.0, u.1)
  | inr miss ↦
      rw miss
        (replace_first-absent id x.id new js same u.0, replace_first-Unique id new js same u.1)
]

-- In a store of unique ids a job found by any test is found by its id.
pub find-Unique :
    (p : Job → Bool) (js : List Job) (a : Job)
    → Unique js
    → find p js ≡ some a
    → find (has_id a.id) js ≡ some a
find-Unique p [] a u e = cc
find-Unique p (x ∷ js) a u e = elim (Bool-cases (p x)) [
  | inl hit ↦ ground (arith, eq_iff x.id a.id)
  | inr miss ↦ ground (arith, eq_iff x.id a.id, find-Unique p js a u.1)
]

pub get_active-get :
    (vps_id : String) (w : World) (a : Job)
    → Unique w.jobs
    → get_active_by_vps vps_id w ≡ some a
    → get a.id w ≡ some a
unfolding get get_active_by_vps
get_active-get vps_id w a u e = find-Unique (is_active_of vps_id) w.jobs a u e

module _ {ℓ κ μ} {A : Type ℓ} {P : A → Type κ} {Q : A → Type μ} (f : (a : A) → P a → Q a) where
  All-map : (xs : List A) → All P xs → All Q xs
  All-map [] h = tt
  All-map (x ∷ xs) h = (f x h.0, All-map xs h.1)

module _ {ℓ κ} {A : Type ℓ} (P : A → Type κ) where
  All-filterb : (p : A → Bool) (xs : List A) → All P xs → All P (filterb p xs)
  All-filterb p [] h = tt
  All-filterb p (x ∷ xs) h = elim (Bool-cases (p x)) [
    | inl hit ↦ rw hit (h.0, All-filterb p xs h.1)
    | inr miss ↦ rw miss (All-filterb p xs h.1)
  ]

  All-drop : (n : ℕ) (xs : List A) → All P xs → All P (drop n xs)
  All-drop zero xs h = h
  All-drop (suc n) [] h = tt
  All-drop (suc n) (x ∷ xs) h = All-drop n xs h.1

  All-take : (n : ℕ) (xs : List A) → All P xs → All P (take n xs)
  All-take zero xs h = tt
  All-take (suc n) [] h = tt
  All-take (suc n) (x ∷ xs) h = (h.0, All-take n xs h.1)

module _ {ℓ} (P : Job → Type ℓ) where
  All-insert_newest : (j : Job) (js : List Job) → P j → All P js → All P (insert_newest j js)
  unfolding insert_newest
  All-insert_newest j [] p h = (p, tt)
  All-insert_newest j (k ∷ ks) p h = elim (Bool-cases (leb k.created_at j.created_at)) [
    | inl first ↦ rw first (p, h)
    | inr later ↦ rw later (h.0, All-insert_newest j ks p h.1)
  ]

  All-sort_newest : (js : List Job) → All P js → All P (sort_newest js)
  unfolding sort_newest
  All-sort_newest [] h = tt
  All-sort_newest (j ∷ js) h = All-insert_newest j (sort_newest js) h.0 (All-sort_newest js h.1)

abbrev FoundIn : List Job → Job → Type 0
FoundIn js j = find (has_id j.id) js ≡ some j

FoundIn-cons :
    (x : Job) (js : List Job)
    → find (has_id x.id) js ≡ none
    → (j : Job) → FoundIn js j
    → FoundIn (x ∷ js) j
FoundIn-cons x js absent j found = ground (arith, eq_iff x.id j.id)

All-FoundIn : (js : List Job) → Unique js → All (FoundIn js) js
All-FoundIn [] u = tt
All-FoundIn (x ∷ js) u =
    (ground (arith, eq_iff x.id x.id), All-map (FoundIn-cons x js u.0) js (All-FoundIn js u.1))

-- Every listed job is the one that its id names.
pub list_by_vps-get :
    (vps_id : String) (limit offset : ℕ) (w : World)
    → Unique w.jobs
    → All (λ j. get j.id w ≡ some j) (list_by_vps vps_id limit offset w)
unfolding list_by_vps get
list_by_vps-get vps_id limit offset w u = All-take _ limit _ (
    All-drop _ offset _ (
      All-sort_newest _ _
        (All-filterb _ (λ j. str_eq j.vps_id vps_id) w.jobs (All-FoundIn w.jobs u))))

pub compare_and_set-Unique :
    (id : String) (expected : ℕ) (patch : Job → Job) (stamp : ℕ) (w w' : World) (new : Job)
    → compare_and_set id expected patch stamp w ≡ some (new, w')
    → Unique w.jobs
    → Unique w'.jobs
compare_and_set-Unique id expected patch stamp w w' new e u =
    let c = compare_and_set-Committed id expected patch stamp w w' new e in
    rw c.jobs
      (replace_first-Unique id new w.jobs (ap (λ j. j.id) c.written ∙ get-id id w c.old c.found) u)
