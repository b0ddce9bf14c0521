-- ===== src/Operators/Keys/Revocation.antt =====
-- The revocation of a key, where no two rows have one hash.
use acr_framework.Prelude.{
  ℕ, String, ◌≡◌, refl, ap, ◌∙◌, inl, inr, true, false, some, List, [], ◌∷◌, arith, ◌==◌, str_iff,
  str_refl, if◌then◌else◌, All, Distinct, Bool-cases, contains,
}
use mathlib.Core.Path.{subst}
use acr_framework.Prelude.Table.{find, update, key-find, find-update}
use acr_framework.Prelude.Keys.{keys}
use acr_framework.Errors.{ok}
use acr_framework.Errors.Steps.{bind-eq-ok, ok_injective}
use acr_framework.Operators.Keys.{
  OperatorCredential, credential_key, get_operator_key, revoke, revoke_operator_key,
}
use acr_framework.Operators.Keys.Revoked.{IsRevoked}

abbrev pub hash_of : OperatorCredential → String
hash_of r = r.key_hash

dead_after :
    (now : ℕ) (id by : String) (rows : List OperatorCredential) (r : OperatorCredential)
    → All (λ x. (x.key_hash == r.key_hash) ≡ true → x ≡ r) rows
    → (r.key_id == id) ≡ true
    → All
        (λ x. (x.key_hash == r.key_hash) ≡ true → x.is_active ≡ false)
        (update credential_key id (revoke now by) rows)
unfolding update
dead_after now id by [] r sole named = tt
dead_after now id by (x ∷ rows) r sole named = elim (Bool-cases (x.key_id == id)) [
  | inl here ↦ rw (here, if◌then◌else◌) ((λ e. refl), dead_after now id by rows r sole.1 named)
  | inr there ↦
      rw (there, if◌then◌else◌)
        (
          (λ e. absurd (ground (arith, ap (λ y. y.key_id == id) (sole.0 e)))),
          dead_after now id by rows r sole.1 named,
        )
]

hash_listed :
    (id : String) (rows : List OperatorCredential) (r : OperatorCredential)
    → find credential_key id rows ≡ some r
    → contains r.key_hash (keys hash_of rows) ≡ true
unfolding find contains
hash_listed id [] r h = absurd (ground arith)
hash_listed id (x ∷ rows) r h = elim (Bool-cases (x.key_id == id)) [
  | inl here ↦
      let same : x ≡ r = ground arith in
      subst (λ y. contains y.key_hash (keys hash_of (x ∷ rows)) ≡ true) same
        (ground (arith, str_refl x.key_hash))
  | inr there ↦ ground (arith, hash_listed id rows r)
]

unlisted :
    (h : String) (rows : List OperatorCredential) (r : OperatorCredential)
    → contains h (keys hash_of rows) ≡ false
    → All (λ x. (x.key_hash == h) ≡ true → x ≡ r) rows
unfolding contains
unlisted h [] r off = tt
unlisted h (x ∷ rows) r off = ((λ e. absurd (ground arith)), unlisted h rows r (ground arith))

-- The row with a hash is the one that is found by its identifier.
sole_hash :
    (id : String) (rows : List OperatorCredential) (r : OperatorCredential)
    → Distinct (keys hash_of rows)
    → find credential_key id rows ≡ some r
    → All (λ x. (x.key_hash == r.key_hash) ≡ true → x ≡ r) rows
unfolding find
sole_hash id [] r d h = tt
sole_hash id (x ∷ rows) r d h = elim (Bool-cases (x.key_id == id)) [
  | inl here ↦
      let same : x ≡ r = ground arith in
      (
        (λ e. same),
        unlisted r.key_hash rows r
            (subst (λ y. contains y.key_hash (keys hash_of rows) ≡ false) same d.0),
      )
  | inr there ↦
      let found : find credential_key id rows ≡ some r = ground arith in
      (
        (λ e. absurd (
            ground (
              arith,
              hash_listed id rows r found,
              ap (λ k. contains k (keys hash_of rows)) ((str_iff x.key_hash r.key_hash).0 e),
              d.0,
            ))),
        sole_hash id rows r d.1 found,
      )
]

pub revoke_operator_key-IsRevoked :
    (now : ℕ) (id by : String) (rows rows' : List OperatorCredential) (r : OperatorCredential)
    → Distinct (keys hash_of rows)
    → find credential_key id rows ≡ some r
    → revoke_operator_key now id by rows ≡ ok rows'
    → IsRevoked id r.key_hash rows'
unfolding revoke_operator_key
revoke_operator_key-IsRevoked now id by rows rows' r d found h =
    let (x, _, same) = bind-eq-ok (get_operator_key id rows) _ rows' h in
    let named = (str_iff r.key_id id).1 (key-find credential_key id rows found) in
    subst (IsRevoked id r.key_hash) (ok_injective same) (record {
      dead = dead_after now id by rows r (sole_hash id rows r d found) named;
      kept = (
        revoke now by r,
        find-update credential_key (revoke now by) (λ y. refl) id id rows
            ∙ rw (str_refl id, found) refl,
        refl,
      );
    })
