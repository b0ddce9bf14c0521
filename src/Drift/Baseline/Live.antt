-- ===== src/Drift/Baseline/Live.antt =====
-- The live baseline of an agent after a write.
use acr_framework.Prelude.{
  ℕ, String, ◌≡◌, refl, ◌∙◌, inl, inr, some, List, arith, str_refl, Option-cases,
}
use acr_framework.Prelude.Table.{find, find-update, find-append_none}
use acr_framework.Drift.Baseline.{
  Baseline, baseline_key, fresh_baseline, get_or_create_baseline, write_baseline,
}

-- After it the row of the agent is in the table.
created :
    (now : ℕ) (a : String) (rows : List Baseline)
    → find baseline_key a (get_or_create_baseline now a rows).1
      ≡ some (get_or_create_baseline now a rows).0
unfolding get_or_create_baseline
created now a rows = elim (Option-cases (find baseline_key a rows)) [
  | inl absent ↦
      ground (arith, str_refl a, find-append_none baseline_key a rows (fresh_baseline now a) absent)
  | inr (b, found) ↦ ground arith
]

pub write_baseline_lem :
    (now : ℕ) (a : String) (f : Baseline → Baseline) (rows : List Baseline)
    → ((b : Baseline) → baseline_key (f b) ≡ baseline_key b)
    → find baseline_key a (write_baseline now a f rows).1
      ≡ some (f (get_or_create_baseline now a rows).0)
unfolding write_baseline
write_baseline_lem now a f rows same =
    find-update baseline_key f same a a (get_or_create_baseline now a rows).1
    ∙ rw (str_refl a, created now a rows) refl
