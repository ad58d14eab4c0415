-- ===== src/Audit.antt =====
-- pkg/control-plane/audit/memorystore.go: the audit log in memory. Its methods run under the mutex and
-- return no error. The entries of the log are in the order in which they were added; the fresh
-- identifier and the time that `Append` may need are arguments. `none` is a panic of the slice, whose offset is below 0 or above its end.
pub mod Pages
mod Examples
use sai_aurosy.Prelude.{
  ℕ, zero, suc, ◌+◌, ◌-◌, ◌^◌, Bool, true, false, not, ◌&&◌, ◌||◌, Option, none, some, List, [],
  ◌∷◌, ◌++◌, String, ◌==◌, nat_eq, ltb, leb, length, if◌then◌else◌,
}
use Prim.Native.Nat.{◌%◌}
use sai_aurosy.Prelude.Int.{ℤ, pos, negsuc, is_positive, to_ℕ}
use sai_aurosy.Hal.{Time}

pub record Entry : Type 0 where
  pub id : String
  pub actor : String
  pub action : String
  pub resource : String
  pub resource_id : String
  pub timestamp : Time
  pub tenant_id : String
  pub details : String

-- An empty text, and `none` for a time, stand for no filter.
pub record ListFilters : Type 0 where
  pub robot_id : String
  pub actor : String
  pub action : String
  pub tenant_id : String
  pub from_time : Option Time
  pub to_time : Option Time
  pub limit : ℤ
  pub offset : ℤ

abbrev pub Log : Type 0
Log = List Entry

unfoldable pub append : String → Time → Entry → Log → Log
append fresh_id now e log =
    log
    ++ record e {
      id = if e.id == "" then fresh_id else e.id;
      timestamp = if nat_eq e.timestamp 0 then now else e.timestamp;
    }
      ∷ []

unfoldable pub too_early : Option Time → Time → Bool
too_early none t = false
too_early (some b) t = ltb t b

unfoldable pub too_late : Option Time → Time → Bool
too_late none t = false
too_late (some b) t = ltb b t

-- The `continue` tests of the loop.
unfoldable pub admits : ListFilters → Entry → Bool
unfolding too_early too_late
admits f e =
    if not (f.robot_id == "") && (not (e.resource == "robot") || not (e.resource_id == f.robot_id))
    then false
    else if not (f.actor == "") && not (e.actor == f.actor)
    then false
    else if not (f.action == "") && not (e.action == f.action)
    then false
    else if too_early f.from_time e.timestamp
    then false
    else if too_late f.to_time e.timestamp
    then false
    else true

-- The loop over the entries, the newest first, with the number of results that may still come.
unfoldable pub gather : ListFilters → ℕ → List Entry → List Entry
unfolding admits
gather f zero es = []
gather f (suc n) [] = []
gather f (suc n) (e ∷ es) =
    let ok = admits f e in
    let rest = gather f (if ok then n else suc n) es in if ok then e ∷ rest else rest

unfoldable pub newest_first : List Entry → List Entry
newest_first [] = []
newest_first (e ∷ es) = newest_first es ++ e ∷ []

-- result[offset:end]
unfoldable pub cut : ℕ → ℕ → List Entry → List Entry
cut offset zero es = []
cut offset (suc n) [] = []
cut zero (suc n) (e ∷ es) = e ∷ cut zero n es
cut (suc k) (suc n) (e ∷ es) = cut k n es

unfoldable pub effective_limit : ListFilters → ℕ
effective_limit f = if is_positive f.limit then to_ℕ f.limit else 100

-- The bit pattern of a Go `int` of 64 bits, as the number that it stands for.
unfoldable pub signed64 : ℕ → ℤ
signed64 w = if ltb w (2 ^ 63) then pos w else negsuc (2 ^ 64 - w - 1)

-- offset + limit, which wraps around
unfoldable pub add_int : ℕ → ℕ → ℤ
unfolding signed64
add_int a b = signed64 ((a + b) % 2 ^ 64)

-- `if end > len(result) { end = len(result) }`, and result[offset:end]; an end below the offset
-- panics.
unfoldable pub slice_to : ℕ → ℤ → List Entry → Option (List Entry)
unfolding cut
slice_to offset (negsuc n) result = none
slice_to offset (pos e) result =
    let end_index = if ltb (length result) e then length result else e in
    if ltb end_index offset then none else some (cut offset end_index result)

unfoldable pub page : ListFilters → ℤ → List Entry → Option (List Entry)
unfolding effective_limit
page f (negsuc n) result = none
page f (pos offset) result =
    let sliced = slice_to offset (add_int offset (effective_limit f)) result in
    if leb (length result) offset then some [] else sliced

unfoldable pub list_entries : ListFilters → Log → Option (List Entry)
unfolding gather newest_first page
list_entries f log = page f f.offset (gather f 1000 (newest_first log))
