-- ===== src/Operators/Keys/History.antt =====
-- Any history of calls on the keys of operators.
use acr_framework.Prelude.{
  ℕ, String, ◌≡◌, refl, sym, ap, ◌∙◌, inl, inr, true, false, some, List, [], ◌∷◌, arith, ◌==◌,
  str_iff, All, All-append, Bool-cases,
}
use mathlib.Core.Path.{subst}
use acr_framework.Prelude.Table.{All-update, find, find-append_some, find-update}
use acr_framework.Errors.{Result, ok, err, unexpected, guard}
use acr_framework.Errors.Steps.{bind-eq-ok, guard-eq-ok, ok_injective}
use acr_framework.Operators.Keys.{
  OperatorCredential, KeyRequest, credential_key, unique_hash, absent, create_operator_key,
  get_operator_key, revoke, revoke_operator_key, renew, rotate_operator_key, touch,
  touch_operator_key_usage,
}
use acr_framework.Operators.Keys.Revoked.{IsRevoked, taken, quiet-IsRevoked}

pub data Call : Type 0 where
  create_key : (id api_key : String) → KeyRequest → (by : String) → Call
  revoke_key : ℕ → (id by : String) → Call
  rotate_key : (id api_key : String) → Call
  use_key : ℕ → (id : String) → Call

abbrev left_by :
    List OperatorCredential → Result (List OperatorCredential) → List OperatorCredential
left_by rows (ok rows') = rows'
left_by rows (err e) = rows

-- A call that does not rotate the key `id`.
abbrev pub Spares : String → Call → Type 0
Spares id (rotate_key id' api_key) = (id' == id) ≡ false
Spares id _ = Unit

module _ (hash : String → String) where
  pub run : Call → List OperatorCredential → List OperatorCredential
  run (create_key id api_key req by) rows =
      left_by rows (create_operator_key hash id api_key req by rows)
  run (revoke_key now id by) rows = left_by rows (revoke_operator_key now id by rows)
  run (rotate_key id api_key) rows = left_by rows (rotate_operator_key hash id api_key rows)
  run (use_key now id) rows = touch_operator_key_usage now id rows

  pub run_all : List Call → List OperatorCredential → List OperatorCredential
  unfolding run
  run_all [] rows = rows
  run_all (c ∷ cs) rows = run_all cs (run c rows)

  -- What succeeds keeps the key revoked.
  left-IsRevoked :
      (id h : String) (rows : List OperatorCredential) (o : Result (List OperatorCredential))
      → ((rows' : List OperatorCredential) → o ≡ ok rows' → IsRevoked id h rows')
      → IsRevoked id h rows
      → IsRevoked id h (left_by rows o)
  left-IsRevoked id h rows (ok rows') f v = f rows' refl
  left-IsRevoked id h rows (err e) f v = v

  different :
      (id id' api_key h : String) (rows : List OperatorCredential)
      → IsRevoked id h rows
      → (id' == id) ≡ false
      → unique_hash id' (hash api_key) rows ≡ true
      → (hash api_key == h) ≡ false
  different id id' api_key h rows v other unique = elim (Bool-cases (hash api_key == h)) [
    | inl e ↦
        let k =
          subst (λ x. unique_hash id' x rows ≡ false) (sym ((str_iff (hash api_key) h).0 e))
            (taken id id' h rows v other) in
        absurd (ground arith)
    | inr e ↦ e
  ]

  created-IsRevoked :
      (id h id' api_key by : String) (req : KeyRequest) (rows rows' : List OperatorCredential)
      → IsRevoked id h rows
      → create_operator_key hash id' api_key req by rows ≡ ok rows'
      → IsRevoked id h rows'
  unfolding create_operator_key
  created-IsRevoked id h id' api_key by req rows rows' v made =
      let fresh = absent (find credential_key id' rows) in
      let unique = unique_hash id' (hash api_key) rows in
      let (_, new, h₁) = bind-eq-ok (guard fresh unexpected) _ rows' made in
      let (_, sole, h₂) = bind-eq-ok (guard unique unexpected) _ rows' h₁ in
      let (r, found, same) = v.kept in
      let other = strange r found (guard-eq-ok fresh unexpected new) in
      let differs = different id id' api_key h rows v other (guard-eq-ok unique unexpected sole) in
      subst (IsRevoked id h) (ok_injective h₂) (record {
        dead =
            All-append (λ x. (x.key_hash == h) ≡ true → x.is_active ≡ false) rows (_ ∷ []) v.dead
              ((λ e. absurd (ground arith)), tt);
        kept = (r, find-append_some credential_key id rows _ found, same);
      })
    where
      strange :
          (r : OperatorCredential)
          → find credential_key id rows ≡ some r
          → absent (find credential_key id' rows) ≡ true
          → (id' == id) ≡ false
      strange r found new = elim (Bool-cases (id' == id)) [
        | inl e ↦
            absurd (ground (arith, ap (λ k. find credential_key k rows) ((str_iff id' id).0 e)))
        | inr e ↦ e
      ]

  rotated-IsRevoked :
      (id h id' api_key : String) (rows rows' : List OperatorCredential)
      → IsRevoked id h rows
      → (id' == id) ≡ false
      → rotate_operator_key hash id' api_key rows ≡ ok rows'
      → IsRevoked id h rows'
  unfolding rotate_operator_key
  rotated-IsRevoked id h id' api_key rows rows' v other made =
      let unique = unique_hash id' (hash api_key) rows in
      let (x, _, h₁) = bind-eq-ok (get_operator_key id' rows) _ rows' made in
      let (_, sole, h₂) = bind-eq-ok (guard unique unexpected) _ rows' h₁ in
      let (r, found, same) = v.kept in
      let differs = different id id' api_key h rows v other (guard-eq-ok unique unexpected sole) in
      subst (IsRevoked id h) (ok_injective h₂) (record {
        dead =
            All-update credential_key (λ x. (x.key_hash == h) ≡ true → x.is_active ≡ false) id'
              (renew (hash api_key)) rows (λ x d e. absurd (ground arith)) v.dead;
        kept = (
          r,
          find-update credential_key (renew (hash api_key)) (λ x. refl) id' id rows
              ∙ rw (other, found) refl,
          same,
        );
      })

  run-IsRevoked :
      (id h : String) (c : Call) (rows : List OperatorCredential)
      → Spares id c
      → IsRevoked id h rows
      → IsRevoked id h (run c rows)
  unfolding run revoke_operator_key touch_operator_key_usage
  run-IsRevoked id h (create_key id' api_key req by) rows s v =
      left-IsRevoked id h rows (create_operator_key hash id' api_key req by rows)
        (λ rows' e. created-IsRevoked id h id' api_key by req rows rows' v e) v
  run-IsRevoked id h (revoke_key now id' by) rows s v =
      left-IsRevoked id h rows (revoke_operator_key now id' by rows)
        (λ rows' e.
          let (x, _, same) = bind-eq-ok (get_operator_key id' rows) _ rows' e in
          subst (IsRevoked id h) (ok_injective same)
            (quiet-IsRevoked id h id' (revoke now by) rows (λ x. refl) (λ x. refl) (λ x e. refl) v))
        v
  run-IsRevoked id h (rotate_key id' api_key) rows s v =
      left-IsRevoked id h rows (rotate_operator_key hash id' api_key rows)
        (λ rows' e. rotated-IsRevoked id h id' api_key rows rows' v s e) v
  run-IsRevoked id h (use_key now id') rows s v =
      quiet-IsRevoked id h id' (touch now) rows (λ x. refl) (λ x. refl) (λ x e. e) v

  pub run_all-IsRevoked :
      (id h : String) (cs : List Call) (rows : List OperatorCredential)
      → All (Spares id) cs
      → IsRevoked id h rows
      → IsRevoked id h (run_all cs rows)
  unfolding run_all
  run_all-IsRevoked id h [] rows s v = v
  run_all-IsRevoked id h (c ∷ cs) rows s v =
      run_all-IsRevoked id h cs (run c rows) s.1 (run-IsRevoked id h c rows s.0 v)
