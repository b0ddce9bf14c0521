-- ===== src/Gateway/Spend/Ledger.antt =====
-- What charges and refunds do to the hourly ledger.
use mathlib.Core.Path.{subst}
use acr_framework.Prelude.{
  ap, ℕ, String, ◌≡◌, ◌≤◌, ◌<◌, ◌+◌, ◌∙◌, sym, true, false, ◌&&◌, Option, arith, ◌==◌, eqb, get_or,
  if◌then◌else◌, str_iff,
}
use acr_framework.Prelude.Int.{ℤ, pos, ◌+ℤ◌, ◌-ℤ◌, zero_+ℤ, undo}
use acr_framework.Errors.{ok}
use acr_framework.Redis.{Redis, Entry, live}
use acr_framework.Gateway.Outside.{
  Settings, Outside, Site, spend_charge, spend_refund, works, hour_of,
}
use acr_framework.Gateway.Spend.{adjust_spend, adjust_at, ledger, incr_by, is_zero}

-- The ledger of an agent and an hour, some time after an adjustment that worked.
abbrev pub after : Settings → ℕ → String → ℤ → Redis → Redis
after c now a delta r = (adjust_at c works now a delta r).1

incr_by_value :
    (now : ℕ) (delta : ℤ) (e : Option (Entry ℤ))
    → (incr_by now delta e).value ≡ get_or (live now e) (pos 0) +ℤ delta
unfolding incr_by
incr_by_value now delta e = ground (arith, zero_+ℤ delta)

-- An adjustment that works reads back as a sum, in the bucket of its hour and nowhere else, for the
-- two hours of its TTL.
adjust_at_lem :
    (c : Settings) (now later : ℕ) (a j : String) (hour : ℕ) (delta : ℤ) (r : Redis)
    → now ≤ later
    → later < now + 7200
    → ledger later j hour (after c now a delta r) ≡ (
        if a == j && eqb (hour_of now) hour
        then ledger now j hour r +ℤ delta
        else ledger later j hour r)
unfolding adjust_at ledger
adjust_at_lem c now later a j hour delta r h k =
    ground (arith, str_iff a j, incr_by_value now delta (r.spend a (hour_of now)))

pub is_zero_negated : (cost : ℤ) → is_zero cost ≡ false → is_zero (pos 0 -ℤ cost) ≡ false
unfolding ◌-ℤ◌
is_zero_negated cost h = ground arith

pub adjust_spend_works :
    (c : Settings) (env : Outside) (site : Site) (a : String) (delta : ℤ) (r : Redis)
    → env.connected ≡ true
    → env.fault site ≡ works
    → is_zero delta ≡ false
    → adjust_spend c env site a delta r ≡ (ok tt, after c (env.clock site) a delta r)
unfolding adjust_spend
adjust_spend_works c env site a delta r h f z = ground arith

-- The ledger of the hour of the charge, and that of the hour of the refund if it is a later one.
abbrev pub Nets : ℕ → ℕ → String → ℤ → Redis → Redis → Type 0
Nets now later a cost r r' =
    (ledger later a (hour_of now) r' ≡ (
      if eqb (hour_of later) (hour_of now)
      then ledger now a (hour_of now) r
      else ledger now a (hour_of now) r +ℤ cost))
    × (eqb (hour_of now) (hour_of later) ≡ false
        → ledger later a (hour_of later) r' ≡ ledger later a (hour_of later) r +ℤ (pos 0 -ℤ cost))

after-after-Nets :
    (c : Settings) (now later : ℕ) (a : String) (cost : ℤ) (r : Redis)
    → now ≤ later
    → later < now + 7200
    → Nets now later a cost r (after c later a (pos 0 -ℤ cost) (after c now a cost r))
after-after-Nets c now later a cost r t k = (
  ground (
    arith,
    str_iff a a,
    adjust_at_lem c later later a a (hour_of now) (pos 0 -ℤ cost) (after c now a cost r)
        (omega arith) (omega arith),
    adjust_at_lem c now later a a (hour_of now) cost r t k,
    undo (ledger now a (hour_of now) r) cost,
  ),
  λ d. ground (
    arith,
    str_iff a a,
    adjust_at_lem c later later a a (hour_of later) (pos 0 -ℤ cost) (after c now a cost r)
        (omega arith) (omega arith),
    adjust_at_lem c now later a a (hour_of later) cost r t k,
  ),
)

-- The charge of an action and its refund, both of which work.
abbrev pub charge_refund : Settings → Outside → String → ℤ → Redis → Redis
charge_refund c env a cost r =
    (adjust_spend c env spend_refund a (pos 0 -ℤ cost)
      (adjust_spend c env spend_charge a cost r).1).1

pub charge_refund_lem :
    (c : Settings) (env : Outside) (a : String) (cost : ℤ) (r : Redis)
    → env.connected ≡ true
    → env.fault spend_charge ≡ works
    → env.fault spend_refund ≡ works
    → env.clock spend_charge ≤ env.clock spend_refund
    → env.clock spend_refund < env.clock spend_charge + 7200
    → is_zero cost ≡ false
    → Nets (env.clock spend_charge) (env.clock spend_refund) a cost r (charge_refund c env a cost r)
charge_refund_lem c env a cost r h f g t k z =
    subst (Nets (env.clock spend_charge) (env.clock spend_refund) a cost r) (sym both)
      (after-after-Nets c (env.clock spend_charge) (env.clock spend_refund) a cost r t k)
  where
    both :
        charge_refund c env a cost r
        ≡ after c
            (env.clock spend_refund)
            a
            (pos 0 -ℤ cost)
            (after c (env.clock spend_charge) a cost r)
    both =
        ap (λ o. (adjust_spend c env spend_refund a (pos 0 -ℤ cost) o.1).1)
          (adjust_spend_works c env spend_charge a cost r h f z)
        ∙ ap (λ o. o.1)
            (adjust_spend_works c env spend_refund a (pos 0 -ℤ cost)
              (after c (env.clock spend_charge) a cost r) h g (is_zero_negated cost z))
