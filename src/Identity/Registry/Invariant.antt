-- ===== src/Identity/Registry/Invariant.antt =====
-- What holds of the agents table between two calls: the legacy flag agrees with the lifecycle, and
-- the identifiers are unique.
use acr_framework.Prelude.{
  ℕ, String, ◌≡◌, refl, inl, inr, not, ◌||◌, none, List, [], ◌∷◌, ◌++◌, arith, ◌==◌, str_iff,
  contains, All, All-append, Distinct,
}
use acr_framework.Prelude.Table.{find, update, All-update}
use acr_framework.Identity.Models.{AgentRecord, is_retired}
use acr_framework.Identity.Registry.{
  AgentTable, agent_key, new_record, apply_update, retire, move_to, beat, sweep_stale_heartbeats,
}
use acr_framework.Identity.Registry.Lineage.{ids}
use acr_framework.Identity.Registry.History.{
  Call, register, change, deregister, transition, heartbeat, sweep, run, run_all, register_cases,
  change_cases, deregister_cases, transition_cases, heartbeat_cases,
}

-- "is_active == False iff lifecycle_state == 'retired'"
abbrev pub IsSynced : AgentRecord → Type 0
IsSynced r = r.is_active ≡ not (is_retired r.lifecycle_state)

pub record IsWellFormed (db : AgentTable) : Type 0 where
  pub synced : All IsSynced db
  pub unique : Distinct (ids db)

contains-snoc :
    (k : String) (db : AgentTable) (r : AgentRecord)
    → contains k (ids (db ++ r ∷ [])) ≡ contains k (ids db) || r.agent_id == k
unfolding contains
contains-snoc k [] r = ground arith
contains-snoc k (x ∷ db) r = ground (arith, contains-snoc k db r)

ids_snoc :
    (db : AgentTable) (r : AgentRecord)
    → Distinct (ids db)
    → find agent_key r.agent_id db ≡ none
    → Distinct (ids (db ++ r ∷ []))
unfolding find contains
ids_snoc [] r d new = (refl, tt)
ids_snoc (x ∷ db) r d new = (
  ground (
    arith,
    contains-snoc x.agent_id db r,
    str_iff x.agent_id r.agent_id,
    str_iff r.agent_id x.agent_id,
  ),
  ids_snoc db r d.1 (ground arith),
)

ids-update :
    (a : String) (f : AgentRecord → AgentRecord) (db : AgentTable)
    → ((r : AgentRecord) → (f r).agent_id ≡ r.agent_id)
    → ids (update agent_key a f db) ≡ ids db
unfolding update
ids-update a f [] same = refl
ids-update a f (r ∷ db) same = ground (arith, same r, ids-update a f db same)

update-IsWellFormed :
    (a : String) (f : AgentRecord → AgentRecord) (db : AgentTable)
    → ((r : AgentRecord) → (f r).agent_id ≡ r.agent_id)
    → ((r : AgentRecord) → IsSynced r → IsSynced (f r))
    → IsWellFormed db
    → IsWellFormed (update agent_key a f db)
update-IsWellFormed a f db same keep w = record {
  synced = All-update agent_key IsSynced a f db keep w.synced;
  unique = rw (ids-update a f db same) w.unique;
}

sweep-IsSynced :
    (now threshold : ℕ) (db : AgentTable)
    → All IsSynced db
    → All IsSynced (sweep_stale_heartbeats now threshold db).1
unfolding sweep_stale_heartbeats
sweep-IsSynced now threshold [] h = tt
sweep-IsSynced now threshold (r ∷ db) h = (ground arith, sweep-IsSynced now threshold db h.1)

ids-sweep :
    (now threshold : ℕ) (db : AgentTable) → ids (sweep_stale_heartbeats now threshold db).1 ≡ ids db
unfolding sweep_stale_heartbeats
ids-sweep now threshold [] = refl
ids-sweep now threshold (r ∷ db) = ground (arith, ids-sweep now threshold db)

run-IsWellFormed :
    (now : ℕ) (c : Call) (db : AgentTable) → IsWellFormed db → IsWellFormed (run now c db)
run-IsWellFormed now (register req) db w = elim (register_cases now req db) [
  | inl same ↦ rw same w
  | inr (new, added) ↦ rw added (record {
    synced =
        All-append IsSynced db (new_record now req ∷ []) w.synced (unfold new_record in (refl, tt));
    unique = unfold new_record in ids_snoc db (new_record now req) w.unique new;
  })
]
run-IsWellFormed now (change a req) db w = elim (change_cases now a req db) [
  | inl same ↦ rw same w
  | inr changed ↦ rw changed (
      unfold apply_update in
      update-IsWellFormed a (apply_update now req) db (λ r. refl) (λ r s. s) w)
]
run-IsWellFormed now (deregister a) db w = elim (deregister_cases now a db) [
  | inl same ↦ rw same w
  | inr changed ↦
      rw changed
        (unfold retire in update-IsWellFormed a (retire now) db (λ r. refl) (λ r s. refl) w)
]
run-IsWellFormed now (transition a t) db w = elim (transition_cases now a t db) [
  | inl same ↦ rw same w
  | inr (row, found, legal, changed) ↦
      rw changed
        (unfold move_to in update-IsWellFormed a (move_to now t) db (λ r. refl) (λ r s. refl) w)
]
run-IsWellFormed now (heartbeat a h) db w = elim (heartbeat_cases now a h db) [
  | inl same ↦ rw same w
  | inr changed ↦
      rw changed (unfold beat in update-IsWellFormed a (beat now h) db (λ r. refl) (λ r s. s) w)
]
run-IsWellFormed now (sweep threshold) db w =
    unfold run in
    record {
      synced = sweep-IsSynced now threshold db w.synced;
      unique = rw (ids-sweep now threshold db) w.unique;
    }

-- From a well-formed table, after any calls, is_active is false exactly on the retired rows, and no
-- identifier occurs twice.
pub run_all-IsWellFormed :
    (cs : List (ℕ × Call)) (db : AgentTable) → IsWellFormed db → IsWellFormed (run_all cs db)
unfolding run_all
run_all-IsWellFormed [] db w = w
run_all-IsWellFormed ((now, c) ∷ cs) db w =
    run_all-IsWellFormed cs (run now c db) (run-IsWellFormed now c db w)
