-- ===== src/Operators/Auth/Sound.antt =====
-- Who is authenticated, and what a revocation changes.
use acr_framework.Prelude.Select.{where_rows_first}
use acr_framework.Prelude.{
  refl, inl, inr, ℕ, String, ◌≡◌, sym, false, none, some, List, arith, ◌==◌, All, Distinct,
  where_rows, ◌∷◌, Bool-cases, Option, [], true, ◌&&◌, ap, str_iff, Option-cases, is_empty, ◌||◌,
}
use mathlib.Core.Path.{subst}
use acr_framework.Prelude.Table.{find}
use acr_framework.Prelude.Keys.{keys}
use acr_framework.Errors.{err, ok, ◌>>=◌, Result, guard, forbidden_operator}
use acr_framework.Errors.Steps.{bind-eq-ok, guard-eq-ok, ok_injective}
use acr_framework.Operators.Keys.{
  OperatorCredential, credential_key, revoke_operator_key, find_operator_key_by_hash, answers_to,
  touch_operator_key_usage,
}
use acr_framework.Operators.Keys.Revoked.{find-IsRevoked}
use acr_framework.Operators.Keys.Revocation.{hash_of, revoke_operator_key-IsRevoked}
use acr_framework.Operators.Keys.History.{Call, Spares, run_all, run_all-IsRevoked}
use acr_framework.Json.{Json}
use acr_framework.Prelude.Text.{is_ascii}
use acr_framework.Operators.Oidc.{Provider}
use acr_framework.Operators.Auth.{
  AuthConfig, Credentials, by_bootstrap, get_operator_principal, OperatorPrincipal, by_api_key,
  bootstrap_principal, by_bearer, given, by_session, row_principal, with_rows,
  require_operator_roles, shares_role,
}

-- A request with nothing but a key in its header.
abbrev pub key_only : String → Credentials
key_only api_key = record { bearer = none; session = none; api_key = some api_key }

by_key :
    (c : AuthConfig) (now : ℕ) (api_key : String) (rows : List OperatorCredential)
    → (api_key == "") ≡ false
    → find_operator_key_by_hash (c.hash_operator_key api_key) rows ≡ ok none
    → get_operator_principal c now (key_only api_key) rows
      ≡ with_rows rows (by_bootstrap c.provider api_key c.operator_api_keys)
unfolding get_operator_principal
by_key c now api_key rows named missing = ground arith

-- A key is revoked, where no two rows have one hash, and any calls follow at any times, none of which
-- rotates this key. Then the key opens nothing through the table: a request that brings only this key
-- is answered as if the table were empty, by the keys of the settings alone.
pub revoked_key_refused :
    (c : AuthConfig) (now later : ℕ) (id by api_key : String) (cs : List Call)
    (rows rows' : List OperatorCredential) (r : OperatorCredential)
    → Distinct (keys hash_of rows)
    → find credential_key id rows ≡ some r
    → c.hash_operator_key api_key ≡ r.key_hash
    → (api_key == "") ≡ false
    → revoke_operator_key now id by rows ≡ ok rows'
    → All (Spares id) cs
    → get_operator_principal c later (key_only api_key) (run_all c.hash_operator_key cs rows') ≡ (
        by_bootstrap c.provider api_key c.operator_api_keys >>= λ p.
        ok (p, run_all c.hash_operator_key cs rows'))
revoked_key_refused c now later id by api_key cs rows rows' r d found hashed named revoked spared =
    by_key c later api_key (run_all c.hash_operator_key cs rows') named (
      subst (λ h. find_operator_key_by_hash h (run_all c.hash_operator_key cs rows') ≡ ok none)
        (sym hashed)
        (find-IsRevoked id r.key_hash (run_all c.hash_operator_key cs rows') (
          run_all-IsRevoked c.hash_operator_key id r.key_hash cs rows' spared
            (revoke_operator_key-IsRevoked now id by rows rows' r d found revoked))))

-- An entry of the settings.
pub data Listed (api_key : String) (identity : Json) : List (String × Json) → Type 0 where
  here :
      (k : String) (rest : List (String × Json))
      → k ≡ api_key
      → Listed api_key identity ((k, identity) ∷ rest)
  there :
      (e : String × Json) (rest : List (String × Json))
      → Listed api_key identity rest
      → Listed api_key identity (e ∷ rest)

-- Who stands behind a request: the identity provider's token, the session, a row of the table, or an
-- entry of the settings, each only if the ones before are not given.
pub data Stands (c : AuthConfig) (now : ℕ) (h : Credentials) (rows : List OperatorCredential)
    (p : OperatorPrincipal) : Type 0 where
  bearer :
      (token : String)
      → h.bearer ≡ some token
      → by_bearer c now token ≡ ok p
      → Stands c now h rows p
  session :
      (s : String)
      → h.bearer ≡ none
      → given h.session ≡ some s
      → by_session c now s ≡ ok p
      → Stands c now h rows p
  row :
      (api_key : String) (r : OperatorCredential)
      → h.bearer ≡ none
      → given h.session ≡ none
      → given h.api_key ≡ some api_key
      → (answers_to (c.hash_operator_key api_key) r ≡ true)
      → where_rows (answers_to (c.hash_operator_key api_key)) rows ≡ r ∷ []
      → p ≡ row_principal r
      → Stands c now h rows p
  settings :
      (api_key : String) (identity : Json)
      → h.bearer ≡ none
      → given h.session ≡ none
      → given h.api_key ≡ some api_key
      → Listed api_key identity c.operator_api_keys
      → bootstrap_principal c.provider identity ≡ ok p
      → Stands c now h rows p

found_row :
    (h : String) (rows : List OperatorCredential) (r : OperatorCredential)
    → find_operator_key_by_hash h rows ≡ ok (some r)
    → where_rows (answers_to h) rows ≡ r ∷ []
unfolding find_operator_key_by_hash
found_row h rows r found = go (where_rows (answers_to h) rows) refl
  where
    go : (xs : List OperatorCredential) → where_rows (answers_to h) rows ≡ xs → xs ≡ r ∷ []
    go [] e = absurd (ground arith)
    go (x ∷ []) e = ground arith
    go (x ∷ y ∷ xs) e = absurd (ground arith)

entry-Listed :
    (p : Provider) (api_key : String) (entries : List (String × Json)) (o : OperatorPrincipal)
    → by_bootstrap p api_key entries ≡ ok o
    → (identity : Json) × Listed api_key identity entries × (bootstrap_principal p identity ≡ ok o)
unfolding by_bootstrap
entry-Listed p api_key [] o h = absurd cc
entry-Listed p api_key ((k, identity) ∷ rest) o h =
    elim (Bool-cases (is_ascii api_key && is_ascii k)) [
      | inr odd ↦ absurd (ground arith)
      | inl plain ↦ elim (Bool-cases (api_key == k)) [
        | inl same ↦ (identity, here k rest (sym ((str_iff api_key k).0 same)), ground arith)
        | inr other ↦
            let (found, l, made) = entry-Listed p api_key rest o (ground arith) in
            (found, there (k, identity) rest l, made)
      ]
    ]

made_alone :
    (r : Result OperatorPrincipal) (rows rows' : List OperatorCredential) (p : OperatorPrincipal)
    → with_rows rows r ≡ ok (p, rows')
    → r ≡ ok p
made_alone (ok q) rows rows' p h = ap ok (ap (λ x. x.0) (ok_injective h))
made_alone (err e) rows rows' p h = absurd cc

key_Stands :
    (c : AuthConfig) (now : ℕ) (h : Credentials) (rows rows' : List OperatorCredential)
    (p : OperatorPrincipal) (api_key : String)
    → h.bearer ≡ none
    → given h.session ≡ none
    → given h.api_key ≡ some api_key
    → by_api_key c now api_key rows ≡ ok (p, rows')
    → Stands c now h rows p
unfolding by_api_key
key_Stands c now h rows rows' p api_key b s k made =
    let (found, looked, rest) =
      bind-eq-ok (find_operator_key_by_hash (c.hash_operator_key api_key) rows) _ (p, rows') made in
    go found looked rest
  where
    go :
        (found : Option OperatorCredential)
        → find_operator_key_by_hash (c.hash_operator_key api_key) rows ≡ ok found
        → elim found as (λ _. Result (OperatorPrincipal × List OperatorCredential)) [
          | some r ↦ ok (row_principal r, touch_operator_key_usage now r.key_id rows)
          | none ↦ with_rows rows (by_bootstrap c.provider api_key c.operator_api_keys)
        ]
          ≡ ok (p, rows')
        → Stands c now h rows p
    go (some r) looked rest =
        let one = found_row (c.hash_operator_key api_key) rows r looked in
        row api_key r b s k
          (where_rows_first (answers_to (c.hash_operator_key api_key)) rows [] r one) one
          (sym (ap (λ x. x.0) (ok_injective rest)))
    go none looked rest =
        let made' =
          made_alone (by_bootstrap c.provider api_key c.operator_api_keys) rows rows' p rest in
        let (identity, l, principal) =
          entry-Listed c.provider api_key c.operator_api_keys p made' in
        settings api_key identity b s k l principal

principal_Stands :
    (c : AuthConfig) (now : ℕ) (h : Credentials) (rows rows' : List OperatorCredential)
    (p : OperatorPrincipal)
    → get_operator_principal c now h rows ≡ ok (p, rows')
    → Stands c now h rows p
unfolding get_operator_principal
principal_Stands c now h rows rows' p made = elim (Option-cases h.bearer) [
  | inr (token, b) ↦ bearer token b (made_alone (by_bearer c now token) rows rows' p (ground arith))
  | inl b ↦ elim (Option-cases (given h.session)) [
    | inr (t, s) ↦ session t b s (made_alone (by_session c now t) rows rows' p (ground arith))
    | inl s ↦ elim (Option-cases (given h.api_key)) [
      | inr (k, e) ↦ key_Stands c now h rows rows' p k b s e (ground arith)
      | inl e ↦ absurd (ground arith)
    ]
  ]
]

-- An operator that an endpoint lets in has one of the roles that it requires, if it requires any, and
-- the first thing that the request brings stands for this operator: a token of the identity provider,
-- else a session, else a key. A key is the one of the only active row with its hash, whose subject and
-- roles the operator has, or that of an entry of the settings.
pub require_operator_roles_sound :
    (c : AuthConfig) (now : ℕ) (required : List String) (h : Credentials)
    (rows : List OperatorCredential) (p : OperatorPrincipal)
    → require_operator_roles required (get_operator_principal c now h rows) ≡ ok p
    → ((is_empty required || shares_role required p.roles) ≡ true) × Stands c now h rows p
unfolding require_operator_roles
require_operator_roles_sound c now required h rows p made =
    let ((q, rows'), authenticated, rest) =
      bind-eq-ok (get_operator_principal c now h rows) _ p made in
    let test = is_empty required || shares_role required q.roles in
    let (_, allowed, same) = bind-eq-ok (guard test forbidden_operator) _ p rest in
    let e = ok_injective same in
    (
      subst (λ x. (is_empty required || shares_role required x.roles) ≡ true) e
          (guard-eq-ok test forbidden_operator allowed),
      subst (Stands c now h rows) e (principal_Stands c now h rows rows' q authenticated),
    )
