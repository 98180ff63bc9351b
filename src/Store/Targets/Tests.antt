-- ===== src/Store/Targets/Tests.antt =====
-- Two targets, one of them without an address.
use cqu_netprobe_gateway.Prelude.{String, true, false, some, List, [], ◌∷◌, ◌≡◌, refl, All}
use cqu_netprobe_gateway.Prelude.Sort.{sort_by, HasDistinctKeys}
use cqu_netprobe_gateway.Prelude.GoMap.{insert, lookup}
use cqu_netprobe_gateway.Prelude.Text.{text_ne}
use cqu_netprobe_gateway.Prelude.Text.Split.{sql_trim}
use cqu_netprobe_gateway.Prelude.Time.{unix_epoch}
use cqu_netprobe_gateway.Protocol.Types.{Allowlist}
use cqu_netprobe_gateway.Store.{StoredTarget, duplicate, ran, Transaction}
use cqu_netprobe_gateway.Store.Targets.{
  Target, TargetTables, target_id_of, create_target, update_target, targets_run_statements,
}
use cqu_netprobe_gateway.Store.Targets.Queries.{queries_run, allowlist, dispatch_targets}
use cqu_netprobe_gateway.Store.Targets.Replaced.{Replaced, update_target-Replaced}
use cqu_netprobe_gateway.Store.Targets.Dispatch.{entries, dispatch_targets-entries}
use cqu_netprobe_gateway.Store.Targets.Allowed.{AllowsEntry, dispatch_targets-allowed}

abbrev healthy : Transaction
healthy = record {
  begin_fails = false;
  statement = ran;
  clear_fails = false;
  type_fails = λ pt. false;
  commit_fails = false;
}

abbrev target : String → String → List String → Target
target id address types = record {
  id = 0;
  target_id = id;
  display_name = id;
  address = address;
  description = "";
  enabled = true;
  probe_types = types;
  created_at = 0;
  updated_at = 0;
}

abbrev empty : TargetTables
empty = record { targets = []; types = []; next_id = 1 }

abbrev mirror : Target
mirror = target "mirror" "https://mirrors.cqu.edu.cn/" ("icmp" ∷ "http" ∷ "icmp" ∷ [])

abbrev two_targets : TargetTables
two_targets =
    (create_target healthy unix_epoch (create_target healthy unix_epoch empty mirror).0
      (target "campus" "  " ("dns" ∷ []))).0

abbrev mirror_entry : StoredTarget
mirror_entry = record {
  target_id = "mirror";
  address = "https://mirrors.cqu.edu.cn/";
  probe_types = "http" ∷ "icmp" ∷ [];
}

dispatched_test : dispatch_targets false two_targets ≡ some (mirror_entry ∷ [])
unfolding targets_run_statements queries_run sql_trim
dispatched_test = refl

created_twice : (create_target healthy unix_epoch two_targets mirror).1 ≡ duplicate
unfolding targets_run_statements queries_run
created_twice = refl

abbrev allowed : Allowlist
allowed = ("campus", ("dns", true) ∷ []) ∷ ("mirror", ("http", true) ∷ ("icmp", true) ∷ []) ∷ []

allowed_test : allowlist false two_targets ≡ some allowed
unfolding targets_run_statements queries_run insert lookup
allowed_test = refl

dispatch_targets-allowed_example : All (AllowsEntry allowed) (mirror_entry ∷ [])
dispatch_targets-allowed_example =
    dispatch_targets-allowed two_targets allowed (mirror_entry ∷ []) allowed_test dispatched_test

two_targets-distinct : HasDistinctKeys target_id_of two_targets.targets
unfolding targets_run_statements queries_run
two_targets-distinct = ((text_ne "mirror" "campus" refl, tt), (tt, tt))

dispatch_targets-entries_example :
    dispatch_targets false two_targets
    ≡ some (entries two_targets (sort_by target_id_of two_targets.targets))
dispatch_targets-entries_example = dispatch_targets-entries two_targets two_targets-distinct

abbrev edited : Target
edited = target "mirror" "https://mirror" ("dns" ∷ "dns" ∷ [])

update_target-Replaced_example :
    Replaced unix_epoch two_targets edited (update_target healthy unix_epoch two_targets edited)
unfolding targets_run_statements queries_run
update_target-Replaced_example =
    update_target-Replaced healthy unix_epoch two_targets edited
      (record { begins = refl; runs = refl; clears = refl; inserts = λ pt. refl; commits = refl })
      refl
