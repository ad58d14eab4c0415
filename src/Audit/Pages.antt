-- ===== src/Audit/Pages.antt =====
-- A page of the audit log is a slice of the matching entries, the newest first.
use sai_aurosy.Prelude.{List, take}
use sai_aurosy.Prelude.Lists.{select}
use sai_aurosy.Audit.{Entry, ListFilters, Log, admits, newest_first}

-- The entries that a query may get.
abbrev pub answers : ListFilters → Log → List Entry
answers f log = take 1000 (select (admits f) (newest_first log))
