-- ===== src/Drift/Governance/Activation.antt =====
-- What an activation leaves: the version in force, and the live baseline.
use mathlib.Core.Path.{subst}
use acr_framework.Prelude.{
  ℕ, String, ◌≡◌, refl, ap, ◌∙◌, true, Option, some, List, [], ◌∷◌, map, arith, where_rows,
}
use acr_framework.Prelude.Table.{find}
use acr_framework.Prelude.Select.{where_rows-map, where_rows_same, where_rows_first}
use acr_framework.Prelude.Change.{change_where, changed}
use acr_framework.Errors.Steps.{bind-eq-ok, guard-eq-ok, ok_injective}
use acr_framework.Errors.{one_or_none, guard, baseline_not_found, ok}
use acr_framework.Drift.Baseline.{Baseline, baseline_key, get_or_create_baseline}
use acr_framework.Drift.Baseline.Live.{write_baseline_lem}
use acr_framework.Drift.Governance.{
  BaselineVersion, DriftState, is_active_of, is_version, is_rival, activate_row, activated_rows,
  take_data, may_activate, get_baseline_version, get_active_baseline_version,
  activate_baseline_version,
}
use acr_framework.Drift.Governance.Sole.{supersede}

-- One row after an activation.
abbrev settled : ℕ → String → String → String → Option String → BaselineVersion → BaselineVersion
settled now a v actor notes r =
    changed (is_version a v) (activate_row now actor notes) (changed (is_rival a v) supersede r)

active_exactly :
    (now : ℕ) (a v actor : String) (notes : Option String) (r : BaselineVersion)
    → is_active_of a (settled now a v actor notes r) ≡ is_version a v r
active_exactly now a v actor notes r = ground arith

settled_version :
    (now : ℕ) (a v actor : String) (notes : Option String) (r : BaselineVersion)
    → is_version a v r ≡ true
    → settled now a v actor notes r ≡ activate_row now actor notes r
settled_version now a v actor notes r h = ground arith

map-map :
    (now : ℕ) (a v actor : String) (notes : Option String) (rows : List BaselineVersion)
    → map
        (changed (is_version a v) (activate_row now actor notes))
        (map (changed (is_rival a v) supersede) rows)
      ≡ map (settled now a v actor notes) rows
map-map now a v actor notes [] = refl
map-map now a v actor notes (r ∷ rows) =
    ap (λ rest. settled now a v actor notes r ∷ rest) (map-map now a v actor notes rows)

-- Exactly the rows of the version are active for the agent.
active_rows :
    (now : ℕ) (a v actor : String) (notes : Option String) (rows : List BaselineVersion)
    → where_rows (is_active_of a) (activated_rows now a v actor notes rows)
      ≡ map (settled now a v actor notes) (where_rows (is_version a v) rows)
unfolding activated_rows change_where
active_rows now a v actor notes rows =
    ap (where_rows (is_active_of a)) (map-map now a v actor notes rows)
    ∙ where_rows-map (is_active_of a) (settled now a v actor notes) rows
    ∙ ap (map (settled now a v actor notes)) (
        where_rows_same (λ r. is_active_of a (settled now a v actor notes r)) (is_version a v) rows
          (active_exactly now a v actor notes))

found_version :
    (a v : String) (rows : List BaselineVersion) (r : BaselineVersion)
    → get_baseline_version a v rows ≡ ok r
    → where_rows (is_version a v) rows ≡ r ∷ []
unfolding get_baseline_version
found_version a v rows r h = go (where_rows (is_version a v) rows) refl
  where
    go : (xs : List BaselineVersion) → where_rows (is_version a v) rows ≡ xs → xs ≡ r ∷ []
    go [] e = absurd (ground arith)
    go (x ∷ []) e = ground arith
    go (x ∷ y ∷ xs) e = absurd (ground arith)

in_force :
    (now : ℕ) (a v actor : String) (notes : Option String) (rows : List BaselineVersion)
    (r : BaselineVersion)
    → get_baseline_version a v rows ≡ ok r
    → get_active_baseline_version a (activated_rows now a v actor notes rows)
      ≡ ok (some (activate_row now actor notes r))
unfolding get_active_baseline_version
in_force now a v actor notes rows r h =
    let only = found_version a v rows r h in
    ap one_or_none
      (active_rows now a v actor notes rows ∙ ap (map (settled now a v actor notes)) only)
    ∙ ap (λ x. ok (some x))
        (settled_version now a v actor notes r (where_rows_first (is_version a v) rows [] r only))

-- When an activation succeeds, the version was approved or active before. After it the lookup of the
-- agent's active version finds this version, whatever other versions were active, and the live
-- baseline of the agent has its data and its sample count.
pub activate_lem :
    (now : ℕ) (a v actor : String) (notes : Option String) (s s' : DriftState)
    → activate_baseline_version now a v actor notes s ≡ ok s'
    → (r : BaselineVersion) × (get_baseline_version a v s.versions ≡ ok r)
      × (may_activate r.status ≡ true)
      × (get_active_baseline_version a s'.versions ≡ ok (some (activate_row now actor notes r)))
      × ((b : Baseline) × (find baseline_key a s'.baselines ≡ some b)
          × (b.baseline_data ≡ r.baseline_data)
          × (b.sample_count ≡ r.sample_count))
unfolding activate_baseline_version
activate_lem now a v actor notes s s' h =
    let (r, found, rest) = bind-eq-ok (get_baseline_version a v s.versions) _ s' h in
    let (u, allowed, last) =
      bind-eq-ok (guard (may_activate r.status) baseline_not_found) _ s' rest in
    (
      r,
      found,
      guard-eq-ok (may_activate r.status) baseline_not_found allowed,
      subst
          (λ t.
            get_active_baseline_version a t.versions ≡ ok (some (activate_row now actor notes r)))
          (ok_injective last) (in_force now a v actor notes s.versions r found),
      (
        take_data now r (get_or_create_baseline now a s.baselines).0,
        subst
            (λ t.
              find baseline_key a t.baselines
              ≡ some (take_data now r (get_or_create_baseline now a s.baselines).0))
            (ok_injective last)
            (write_baseline_lem now a (take_data now r) s.baselines (λ b. refl)),
        refl,
        refl,
      ),
    )
