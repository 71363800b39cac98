-- ===== src/Examples/Migrations.antt =====
-- Three shipped steps on a database of one number; a run of a build with two of them crashes on the
-- second.
use neokit.Base.{
  List, String, none, ℕ, ◌+◌, some, suc, take, ◌∷◌, ◌≡◌, ◌≤◌, ◌*◌, [], length, zero, ◌<◌, arith,
  ◌⊎◌, refl,
}
use neokit.Sqlitex.Migrate.{
  Migration, Trouble, smooth, crash_before_commit, done, from_the_future, migrate,
}
use neokit.Sqlitex.Migrate.Versions.{at_version, Upgraded, migrate-at_version}
use neokit.Sqlitex.Migrate.History.{Run, history, history-at_version, migrate-history}

abbrev step : (ℕ → ℕ) → Migration ℕ
step f = record { name = "step"; up = some f }

abbrev shipped : List (Migration ℕ)
shipped = step (λ n. n + 1) ∷ step (λ n. n * 10) ∷ step (λ n. n + 7) ∷ []

abbrev second_crashes : ℕ → Trouble ℕ String
second_crashes zero = smooth
second_crashes (suc n) = crash_before_commit

abbrev runs : List (Run ℕ String)
runs =
    record { build = 2; reads = none; troubles = second_crashes }
    ∷ record { build = 3; reads = some "locked"; troubles = λ i. smooth }
    ∷ []

migrate-at_version_example :
    let out = migrate none second_crashes (take 2 shipped) (at_version shipped 4 1) in
    (length (take 2 shipped) < 1) × (out ≡ (at_version shipped 4 1, from_the_future))
    ⊎ (1 ≤ length (take 2 shipped)) × Upgraded shipped 4 (length (take 2 shipped)) 1 out
migrate-at_version_example = migrate-at_version second_crashes shipped 4 2 1

history-at_version_example :
    (j : ℕ) × (j ≤ length shipped)
    × (history shipped runs (at_version shipped 4 0) ≡ at_version shipped 4 j)
history-at_version_example = history-at_version shipped 4 runs 0 (omega arith)

migrate-history_example :
    migrate {E = String} none (λ i. smooth) shipped (history shipped runs (at_version shipped 4 0))
    ≡ (at_version shipped 4 (length shipped), done)
migrate-history_example = migrate-history shipped 4 runs ((_, refl), ((_, refl), ((_, refl), tt)))
