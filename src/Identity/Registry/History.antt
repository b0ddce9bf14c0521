-- ===== src/Identity/Registry/History.antt =====
-- What any history of calls does to one agent: its lifecycle follows the diagram.
use mathlib.Core.Path.{subst}
use mathlib.Core.Option
use acr_framework.Prelude.{
  ℕ, String, ◌≡◌, refl, ◌⊎◌, inl, inr, true, some, List, [], ◌∷◌, ◌++◌, arith, Option-cases,
  Bool-cases, none,
}
use acr_framework.Prelude.Table.{find, update, update_relates, find-append_some}
use acr_framework.Errors.{Result, ok, err}
use acr_framework.Identity.Models.{
  LifecycleState, retired, HealthStatus, AgentRegisterRequest, AgentUpdateRequest, AgentRecord,
  same_state,
}
use acr_framework.Identity.Registry.{
  AgentTable, agent_key, new_record, apply_update, retire, move_to, beat, downgrade, may_transition,
  register_agent, update_agent, deregister_agent, transition_lifecycle, record_heartbeat,
  sweep_stale_heartbeats,
}

-- A call that changes the table.
pub data Call : Type 0 where
  register : AgentRegisterRequest → Call
  change : String → AgentUpdateRequest → Call
  deregister : String → Call
  transition : String → LifecycleState → Call
  heartbeat : String → HealthStatus → Call
  sweep : ℕ → Call

abbrev pub table_of : AgentTable → Result (AgentRecord × AgentTable) → AgentTable
table_of db (ok (r, db')) = db'
table_of db (err e) = db

abbrev pub left_by : AgentTable → Result AgentTable → AgentTable
left_by db (ok db') = db'
left_by db (err e) = db

-- The table after a call at a time; a call that raises is rolled back.
unfoldable pub run : ℕ → Call → AgentTable → AgentTable
run now (register req) db = table_of db (register_agent now db req)
run now (change a req) db = table_of db (update_agent now db a req)
run now (deregister a) db = left_by db (deregister_agent now db a)
run now (transition a s) db = table_of db (transition_lifecycle now db a s)
run now (heartbeat a h) db = table_of db (record_heartbeat now db a h)
run now (sweep threshold) db = (sweep_stale_heartbeats now threshold db).1

unfoldable pub run_all : List (ℕ × Call) → AgentTable → AgentTable
run_all [] db = db
run_all ((now, c) ∷ cs) db = run_all cs (run now c db)

-- One step of the lifecycle: stay, follow the diagram, or be retired.
pub data Evolves : LifecycleState → LifecycleState → Type 0 where
  stay : (s : LifecycleState) → Evolves s s
  move : (s t : LifecycleState) → may_transition s t ≡ true → Evolves s t
  removed : (s : LifecycleState) → Evolves s retired

-- The row of an agent before and after a call.
abbrev Keeps : AgentTable → AgentTable → Type 0
Keeps db db' =
    (j : String) (r : AgentRecord)
    → find agent_key j db ≡ some r
    → (r' : AgentRecord) × (find agent_key j db' ≡ some r')
      × Evolves r.lifecycle_state r'.lifecycle_state

Keeps-refl : (db : AgentTable) → Keeps db db
Keeps-refl db j r h = (r, h, stay _)

-- A change in place keeps every agent on the diagram, if it does so for the row that it changes.
Keeps-update :
    (a : String) (f : AgentRecord → AgentRecord) (db : AgentTable)
    → ((r : AgentRecord) → (f r).agent_id ≡ r.agent_id)
    → ((r : AgentRecord)
        → find agent_key a db ≡ some r
        → Evolves r.lifecycle_state (f r).lifecycle_state)
    → Keeps db (update agent_key a f db)
Keeps-update a f db same ev =
    update_relates agent_key f same (λ r r'. Evolves r.lifecycle_state r'.lifecycle_state) a db
      (λ r. stay _) ev

-- What each call leaves: the table as it was, or one row added or changed.
pub register_cases :
    (now : ℕ) (req : AgentRegisterRequest) (db : AgentTable)
    → (run now (register req) db ≡ db)
      ⊎ ((find agent_key req.agent_id db ≡ none)
          × (run now (register req) db ≡ db ++ new_record now req ∷ []))
unfolding run register_agent
register_cases now req db = ground arith

pub change_cases :
    (now : ℕ) (a : String) (req : AgentUpdateRequest) (db : AgentTable)
    → (run now (change a req) db ≡ db)
      ⊎ (run now (change a req) db ≡ update agent_key a (apply_update now req) db)
unfolding run update_agent
change_cases now a req db = ground arith

pub deregister_cases :
    (now : ℕ) (a : String) (db : AgentTable)
    → (run now (deregister a) db ≡ db)
      ⊎ (run now (deregister a) db ≡ update agent_key a (retire now) db)
unfolding run deregister_agent
deregister_cases now a db = ground arith

pub transition_cases :
    (now : ℕ) (a : String) (s : LifecycleState) (db : AgentTable)
    → (run now (transition a s) db ≡ db)
      ⊎ ((r : AgentRecord) × (find agent_key a db ≡ some r)
          × (may_transition r.lifecycle_state s ≡ true)
          × (run now (transition a s) db ≡ update agent_key a (move_to now s) db))
unfolding run transition_lifecycle
transition_cases now a s db = elim (Option-cases (find agent_key a db)) [
  | inl missing ↦ inl (ground arith)
  | inr (r, found) ↦ elim (Bool-cases (may_transition r.lifecycle_state s)) [
    | inl legal ↦ elim (Bool-cases (same_state s r.lifecycle_state)) [
      | inl same ↦ inl (ground arith)
      | inr other ↦ inr (r, found, legal, ground arith)
    ]
    | inr illegal ↦ inl (ground arith)
  ]
]

pub heartbeat_cases :
    (now : ℕ) (a : String) (h : HealthStatus) (db : AgentTable)
    → (run now (heartbeat a h) db ≡ db)
      ⊎ (run now (heartbeat a h) db ≡ update agent_key a (beat now h) db)
unfolding run record_heartbeat
heartbeat_cases now a h db = ground arith

find-sweep :
    (now threshold : ℕ) (j : String) (db : AgentTable)
    → find agent_key j (run now (sweep threshold) db)
      ≡ Option.map (downgrade now threshold) (find agent_key j db)
unfolding run sweep_stale_heartbeats find
find-sweep now threshold j [] = refl
find-sweep now threshold j (r ∷ db) = ground (arith, find-sweep now threshold j db)

state-downgrade :
    (now threshold : ℕ) (r : AgentRecord)
    → (downgrade now threshold r).lifecycle_state ≡ r.lifecycle_state
unfolding downgrade
state-downgrade now threshold r = ground arith

-- Every call keeps every agent, on the diagram or retired.
run-Keeps : (now : ℕ) (c : Call) (db : AgentTable) → Keeps db (run now c db)
run-Keeps now (register req) db = elim (register_cases now req db) [
  | inl same ↦ rw same (Keeps-refl db)
  | inr (new, added) ↦
      rw added λ j r h. (r, find-append_some agent_key j db (new_record now req) h, stay _)
]
run-Keeps now (change a req) db = elim (change_cases now a req db) [
  | inl same ↦ rw same (Keeps-refl db)
  | inr changed ↦
      rw changed (
        unfold apply_update in Keeps-update a (apply_update now req) db (λ r. refl) (λ r h. stay _))
]
run-Keeps now (deregister a) db = elim (deregister_cases now a db) [
  | inl same ↦ rw same (Keeps-refl db)
  | inr changed ↦
      rw changed (unfold retire in Keeps-update a (retire now) db (λ r. refl) (λ r h. removed _))
]
run-Keeps now (transition a s) db = elim (transition_cases now a s db) [
  | inl same ↦ rw same (Keeps-refl db)
  | inr (row, found, legal, changed) ↦ rw changed (
      unfold move_to in
      Keeps-update a (move_to now s) db (λ r. refl)
        (λ r h. move _ s (
          let same : row ≡ r = cc in
          subst (λ x. may_transition x.lifecycle_state s ≡ true) same legal)))
]
run-Keeps now (heartbeat a h) db = elim (heartbeat_cases now a h db) [
  | inl same ↦ rw same (Keeps-refl db)
  | inr changed ↦
      rw changed (unfold beat in Keeps-update a (beat now h) db (λ r. refl) (λ r h. stay _))
]
run-Keeps now (sweep threshold) db = λ j r h. (
  downgrade now threshold r,
  rw (find-sweep now threshold j db, h) refl,
  rw state-downgrade (stay _),
)

retired_stays : {s t : LifecycleState} → Evolves s t → s ≡ retired → t ≡ retired
unfolding may_transition
retired_stays (stay s) e = e
retired_stays (move s t legal) e = ground arith
retired_stays (removed s) e = refl

-- Retirement is terminal. From the moment an agent is retired, after any further calls in any order
-- its row is still in the table and still retired.
pub retired_forever :
    (cs : List (ℕ × Call)) (db : AgentTable) (a : String) (r : AgentRecord)
    → find agent_key a db ≡ some r
    → r.lifecycle_state ≡ retired
    → (r' : AgentRecord) × (find agent_key a (run_all cs db) ≡ some r')
      × (r'.lifecycle_state ≡ retired)
unfolding run_all
retired_forever [] db a r found gone = (r, found, gone)
retired_forever ((now, c) ∷ cs) db a r found gone =
    let (r', found', step) = run-Keeps now c db a r found in
    retired_forever cs (run now c db) a r' found' (retired_stays step gone)
