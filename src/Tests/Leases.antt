-- ===== src/Tests/Leases.antt =====
-- Leases, transactions on them and the approval gate.
use sky_claw_gravity.Prelude.{
  ==-refl, All, List, String, [], arith, false, inr, none, refl, some, string_eq, suc, true, zero,
  ℕ, ◌==◌, ◌∷◌, ◌≡◌, ◌≢◌, nat_eq,
}
use sky_claw_gravity.Prelude.{
  ==-refl, All, List, String, [], arith, false, inr, none, refl, some, string_eq, suc, true, zero,
  ℕ, ◌==◌, ◌∷◌, ◌≡◌, ◌≢◌, nat_eq,
}
use sky_claw_gravity.Locks.Transaction.{create_all, exit, returned}
use sky_claw_gravity.Locks.Transaction.Files.{Kept, file_snapshots}
use sky_claw_gravity.Locks.Transaction.Restoring.{NoBackup, exit-create_all}
use sky_claw_gravity.Locks.Transaction.Rollback.{HasLease}
use sky_claw_gravity.Dict.{Dict}
use sky_claw_gravity.Locks.Transaction.Restoring.{NoBackup, exit-create_all}
use sky_claw_gravity.Snapshots.{Disk, SnapshotInfo, backup_path, total_size}
use sky_claw_gravity.Tests.Disks.{simple}
use sky_claw_gravity.Prelude.{
  ==-refl, All, List, String, [], arith, false, inr, none, refl, some, string_eq, suc, true, zero,
  ℕ, ◌==◌, ◌∷◌, ◌≡◌, ◌≢◌, nat_eq,
}
use sky_claw_gravity.Dict
use sky_claw_gravity.Dict.{Dict}
use sky_claw_gravity.Result.{err}
use sky_claw_gravity.Locks.{
  Attempt, LockInfo, Manager, Table, acquire_lock, acquisition_error, lease,
}
use sky_claw_gravity.Locks.Leases.{Op, acquire, acquired, cleanup, lease_excludes, release, run}
use sky_claw_gravity.Locks.Retries.{acquire_lock-Blocked}
use sky_claw_gravity.Locks.Transaction.{create_all, exit, returned}
use sky_claw_gravity.HitlGate.{
  Gate, close_gate, event_set, interrupted, is_destructive, new_gate, next_called, open_gate,
  timed_out, waits,
}
use sky_claw_gravity.HitlGate.Approval.{
  GateStep, closes, gate_decides, last_decision, opens, resolves, run_gate,
}

abbrev esm_lease : LockInfo
esm_lease = lease "Skyrim.esm" "loot" 10 20

abbrev esm_table : Table
esm_table = ("Skyrim.esm", esm_lease) ∷ []

abbrev others_work : List Op
others_work =
    acquire (lease "Skyrim.esm" "xedit" 15 20)
    ∷ release "Skyrim.esm" "xedit"
    ∷ acquire (lease "Update.esm" "xedit" 16 20)
    ∷ cleanup 30
    ∷ []

lease_excludes_example :
    (Dict.get (run esm_table others_work) "Skyrim.esm" ≡ some esm_lease)
    × (acquired "Skyrim.esm" esm_table others_work ≡ false)
unfolding Dict.get
lease_excludes_example = lease_excludes esm_table others_work esm_lease refl (
  omega arith,
  (inr (ground (arith, string_eq.beq_iff "xedit" "loot")), (omega arith, (omega arith, tt))),
)

abbrev manager : Manager
manager = record { default_ttl = 20; max_retries = 3; backoff_base = 1; backoff_max = 8 }

-- three attempts, at the times 12, 17 and 32, that nobody disturbs
abbrev later_attempts : ℕ → Attempt
later_attempts zero = record { others = λ t. t; now = 12; db_error = false }
later_attempts (suc zero) = record { others = λ t. t; now = 17; db_error = false }
later_attempts _ = record { others = λ t. t; now = 32; db_error = false }

abbrev early_attempts : ℕ → Attempt
early_attempts _ = record { others = λ t. t; now = 12; db_error = false }

acquire_lock-Blocked_example :
    let (t', answer) = acquire_lock manager esm_table early_attempts "Skyrim.esm" "xedit" none in
    (answer ≡ err (acquisition_error "Skyrim.esm" "xedit"))
    × (Dict.get t' "Skyrim.esm" ≡ some esm_lease)
unfolding Dict.get
acquire_lock-Blocked_example =
    acquire_lock-Blocked manager esm_table esm_lease early_attempts "xedit" none refl
      (λ j. (λ t e. e, omega arith))

abbrev mod_disk : Disk
mod_disk = record { files = ("a.esp", "old a") ∷ ("b.esp", "old b") ∷ []; dirs = [] }

-- the body changes one file and deletes the other
abbrev broken_files : Dict String String → Dict String String
broken_files files = ("a.esp", "new a") ∷ []

abbrev targets : List String
targets = "a.esp" ∷ "c.esp" ∷ "b.esp" ∷ []

unlike : (a b : String) → (a == b) ≡ false → a ≢ b
unlike a b h e = cc (h, e, ==-refl a)

targets-NoBackup : NoBackup simple 100 3 (λ p. p) targets
unfolding sky_claw_gravity.Snapshots.backup_path sky_claw_gravity.TokenBudget.Text.concat
targets-NoBackup = (
  (unlike (backup_path "a.esp") "c.esp" refl, (unlike (backup_path "a.esp") "b.esp" refl, tt)),
  ((unlike (backup_path "c.esp") "b.esp" refl, tt), (tt, tt)),
)

exit-create_all_example :
    let sm = file_snapshots simple 100 3 (λ p. p) in
    let (disk1, made) = create_all sm mod_disk targets [] in
    (ss : List SnapshotInfo) × (made ≡ returned ss)
    × (let (t', disk2) =
          exit sm esm_table
            (record disk1 { files = broken_files disk1.files })
            ss
            true
            false
            "Skyrim.esm"
            "loot" in
        All
          (λ p. Kept simple 100 3 (λ p. p) (Dict.get mod_disk.files p) (Dict.get disk2.files p))
          targets
        × ¬ (HasLease t' "Skyrim.esm" "loot"))
unfolding Dict.get Dict.put total_size sky_claw_gravity.Snapshots.dir_size
    sky_claw_gravity.Snapshots.store_saved
exit-create_all_example =
    exit-create_all simple 100 3 (λ p. p) esm_table mod_disk targets broken_files "Skyrim.esm"
      "loot" (λ p q e. e) (omega arith, (omega arith, (omega arith, tt))) targets-NoBackup

abbrev gate : Gate
gate = new_gate true none

-- the operator first denies and then approves, while another call opens the gate
abbrev operator_steps : List GateStep
operator_steps =
    resolves "r1" false
    ∷ opens "generate_lods" "r2" true
    ∷ resolves "r1" true
    ∷ closes "r2" timed_out
    ∷ []

gate_decides_example :
    let g' = run_gate (open_gate gate "generate_lods" "r1" true).0 operator_steps in
    ((open_gate gate "generate_lods" "r1" true).1 ≡ waits)
    × (Dict.get g'.pending "r1" ≡ some true)
    × ((close_gate g' "r1" event_set).1 ≡ next_called)
    × ((close_gate g' "r1" timed_out).1 ≢ next_called)
    × ((close_gate g' "r1" interrupted).1 ≢ next_called)
unfolding is_destructive Dict.get last_decision
gate_decides_example = gate_decides gate "generate_lods" "r1" operator_steps refl refl refl (
  tt,
  (
    ground (arith, string_eq.beq_iff "r2" "r1"),
    (tt, (ground (arith, string_eq.beq_iff "r2" "r1"), tt)),
  ),
)
