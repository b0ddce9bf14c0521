-- ===== src/Studio/Releases/Sole.antt =====
-- Of the releases of an agent at most one is active and at most one is published, and their versions
-- differ.
use acr_framework.Prelude.{
  ℕ, ◌+◌, String, ◌≡◌, ◌≤◌, ◌<◌, refl, inl, inr, Bool, true, false, ◌&&◌, none, List, [], ◌∷◌, ◌++◌,
  arith, ◌==◌, str_iff, eqb, count_if, Distinct, Bool-cases,
}
use acr_framework.Prelude.Table.{find}
use acr_framework.Prelude.Keys.{keys, Distinct-snoc, count-append, find_absent}
use acr_framework.Prelude.Change.{
  change_where, count-change_where_le, count-change_where_none, keys-change_where,
  change_where-Distinct,
}
use acr_framework.Studio.Releases.{
  PolicyRelease, release_key, is_live_of, is_published_of, current_version, supersede,
}

abbrev pub is_numbered : String → ℕ → PolicyRelease → Bool
is_numbered a v r = r.agent_id == a && eqb r.version v

pub record IsReleased (rows : List PolicyRelease) : Type 0 where
  pub unique : Distinct (keys release_key rows)
  pub live : (a : String) → count_if (is_live_of a) rows ≤ 1
  pub sole : (a : String) → count_if (is_published_of a) rows ≤ 1
  pub numbered : (a : String) (v : ℕ) → count_if (is_numbered a v) rows ≤ 1

-- A change of the status that publishes no release.
pub unpublished-IsReleased :
    (p : PolicyRelease → Bool) (f : PolicyRelease → PolicyRelease) (rows : List PolicyRelease)
    → ((r : PolicyRelease) → release_key (f r) ≡ release_key r)
    → ((a : String) (r : PolicyRelease) → is_live_of a (f r) ≡ is_live_of a r)
    → ((a : String) (r : PolicyRelease) → is_published_of a (f r) ≡ false)
    → ((a : String) (v : ℕ) (r : PolicyRelease) → is_numbered a v (f r) ≡ is_numbered a v r)
    → IsReleased rows
    → IsReleased (change_where p f rows)
unpublished-IsReleased p f rows key live off number g = record {
  unique = change_where-Distinct release_key p f rows key g.unique;
  live = λ a. omega (
    arith,
    count-change_where_le p (is_live_of a) f rows (λ r e h. ground (arith, live a r)),
    g.live a,
  );
  sole = λ a. omega (
    arith,
    count-change_where_le p (is_published_of a) f rows (λ r e h. absurd (ground (arith, off a r))),
    g.sole a,
  );
  numbered = λ a v. omega (
    arith,
    count-change_where_le p (is_numbered a v) f rows (λ r e h. ground (arith, number a v r)),
    g.numbered a v,
  );
}

-- No release of the agent has a version above the current one.
unused_version :
    (a : String) (v : ℕ) (rows : List PolicyRelease)
    → current_version a rows < v
    → count_if (is_numbered a v) rows ≡ 0
unfolding current_version count_if
unused_version a v [] h = refl
unused_version a v (r ∷ rows) h = ground (arith, unused_version a v rows)

-- A new release, which is published and not active, with a fresh identifier and the next version,
-- after the published releases of its agent were superseded.
module _ (rows : List PolicyRelease) (r : PolicyRelease) where
  abbrev pub succeeded : List PolicyRelease
  succeeded = change_where (is_published_of r.agent_id) supersede rows ++ r ∷ []

  earlier : IsReleased rows → IsReleased (change_where (is_published_of r.agent_id) supersede rows)
  earlier g =
      unpublished-IsReleased (is_published_of r.agent_id) supersede rows (λ x. refl) (λ a x. refl)
        (λ a x. ground arith) (λ a v x. refl) g

  none_published :
      (a : String)
      → (r.agent_id == a) ≡ true
      → count_if (is_published_of a) (change_where (is_published_of r.agent_id) supersede rows) ≡ 0
  none_published a h =
      count-change_where_none (is_published_of r.agent_id) (is_published_of a) supersede rows (λ x.
        ground (arith, str_iff r.agent_id a, str_iff x.agent_id a, str_iff x.agent_id r.agent_id))

  pub succeeded-IsReleased :
      r.is_live ≡ false
      → find release_key r.release_id rows ≡ none
      → r.version ≡ current_version r.agent_id rows + 1
      → IsReleased rows
      → IsReleased succeeded
  succeeded-IsReleased off fresh next g = record {
    unique =
        Distinct-snoc release_key (change_where (is_published_of r.agent_id) supersede rows) r
          (earlier g).unique
          (find_absent release_key r.release_id rows
            (change_where (is_published_of r.agent_id) supersede rows)
            (keys-change_where release_key (is_published_of r.agent_id) supersede rows (λ x. refl))
            fresh);
    live = λ a. ground (
      arith,
      count-append (is_live_of a) (change_where (is_published_of r.agent_id) supersede rows) r,
      (earlier g).live a,
    );
    sole = λ a. elim (Bool-cases (r.agent_id == a)) [
      | inl e ↦ ground (
        arith,
        count-append (is_published_of a) (change_where (is_published_of r.agent_id) supersede rows)
            r,
        none_published a e,
      )
      | inr e ↦ ground (
        arith,
        count-append (is_published_of a) (change_where (is_published_of r.agent_id) supersede rows)
            r,
        (earlier g).sole a,
      )
    ];
    numbered = λ a v. elim (Bool-cases (is_numbered a v r)) [
      | inl e ↦ ground (
        arith,
        count-append (is_numbered a v) (change_where (is_published_of r.agent_id) supersede rows) r,
        str_iff r.agent_id a,
        count-change_where_le (is_published_of r.agent_id) (is_numbered a v) supersede rows
            (λ x p q. q),
        unused_version r.agent_id v rows,
      )
      | inr e ↦ ground (
        arith,
        count-append (is_numbered a v) (change_where (is_published_of r.agent_id) supersede rows) r,
        (earlier g).numbered a v,
      )
    ];
  }
