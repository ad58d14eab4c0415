-- ===== src/Audit/Examples.antt =====
-- A log of three entries, and the page of its two newest ones of an actor.
use sai_aurosy.Prelude.{◌-◌, ◌^◌, some, ◌≡◌, refl, none, some, [], ◌∷◌, String}
use sai_aurosy.Prelude.Int.{pos}
use sai_aurosy.Audit.{
  Entry, ListFilters, Log, effective_limit, list_entries, page, slice_to, add_int, signed64, gather,
  admits, too_early, too_late, newest_first, cut,
}

abbrev entry : String → String → Entry
entry id actor = record {
  id = id;
  actor = actor;
  action = "command";
  resource = "robot";
  resource_id = "r1";
  timestamp = 7;
  tenant_id = "t1";
  details = "";
}

abbrev log : Log
log = entry "1" "ann" ∷ entry "2" "bob" ∷ entry "3" "ann" ∷ []

abbrev filters : ListFilters
filters = record {
  robot_id = "r1";
  actor = "ann";
  action = "";
  tenant_id = "t2";
  from_time = none;
  to_time = some 9;
  limit = pos 2;
  offset = pos 0;
}

-- The largest limit: the sum with an offset of 1 wraps around, and the slice panics.
abbrev unlimited : ListFilters
unlimited = record filters { limit = pos (2 ^ 63 - 1); offset = pos 1 }

panics : list_entries unlimited log ≡ none
unfolding list_entries page slice_to add_int signed64 effective_limit gather admits too_early
    too_late newest_first
panics = refl

-- The filter of the tenant is not applied.
two_newest : list_entries filters log ≡ some (entry "3" "ann" ∷ entry "1" "ann" ∷ [])
unfolding list_entries page slice_to add_int signed64 effective_limit gather admits too_early
    too_late newest_first cut
two_newest = refl
