-- ===== src/Tests/LoadOrders.antt =====
-- The conflicts of a load order.
use sky_claw_gravity.Prelude.{List, String, [], length, ◌∷◌, ◌≡◌}
use sky_claw_gravity.Conflicts.{
  PairKey, RecordConflict, analyze, classify_all, default_critical_types, default_warning_types,
  info,
}
use sky_claw_gravity.Conflicts.Pairs.{HeavyFirst, analyze_lem, conflicts_of, shared}

abbrev conflict : String → List String → RecordConflict
conflict form_id losers = record {
  form_id = form_id;
  editor_id = "";
  record_type = "NPC_";
  winner = "B.esp";
  losers = losers;
  severity = info;
}

abbrev raw_conflicts : List RecordConflict
raw_conflicts =
    conflict "00000001" ("A.esp" ∷ "C.esp" ∷ []) ∷ conflict "00000002" ("C.esp" ∷ []) ∷ []

analyze_lem_example :
    let report = analyze (λ s. s) default_critical_types default_warning_types raw_conflicts in
    ((key : PairKey)
      → conflicts_of report.plugin_pairs key
        ≡ shared key
            (classify_all (λ s. s) default_critical_types default_warning_types raw_conflicts))
    × HeavyFirst report.plugin_pairs
    × (report.total_conflicts ≡ length raw_conflicts)
analyze_lem_example =
    analyze_lem (λ s. s) default_critical_types default_warning_types raw_conflicts
