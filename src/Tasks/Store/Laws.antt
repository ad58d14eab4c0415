-- ===== src/Tasks/Store/Laws.antt =====
-- Reads of the task store after writes, and what its loops find.
use sai_aurosy.Prelude.{
  ◌≡◌, ◌≢◌, refl, ap, sym, subst, ◌∙◌, ◌↔◌, ◌⊎◌, inl, inr, true, false, Option, none, some, List,
  [], ◌∷◌, Memᴰ, String, ◌==◌, eq_iff, arith, if◌then◌else◌, Bool-cases, Option-cases,
}
use mathlib.Core.Option
use sai_aurosy.Dict
use sai_aurosy.Dict.Laws.{get-put, put-IsUnique}
use sai_aurosy.Dict.Views.{values-of-get, Stored-of-values, any-of-Memᴰ, Memᴰ-of-any}
use sai_aurosy.Hal.{Time}
use sai_aurosy.Tasks.Types.{Task, Status, running, same_status}
use sai_aurosy.Tasks.Store.{
  Store, ListFilters, create, get_task, list_tasks, select, matches, update_status,
  update_status_and_completed_at, has_running_for_robot, runs_on, differs, with_found,
}

-- Each task stands under its own identifier, and each identifier once.
pub record IsKeyed (s : Store) : Type 0 where
  pub one_entry : Dict.IsUnique s
  pub own_key : (k : String) (t : Task) → Dict.get s k ≡ some t → t.id ≡ k

put-IsKeyed : (s : Store) (k : String) (t : Task) → t.id ≡ k → IsKeyed s → IsKeyed (Dict.put s k t)
put-IsKeyed s k t e v = record {
  one_entry = put-IsUnique s k t v.one_entry;
  own_key = λ j u g. ground (arith, get-put s k j t, eq_iff k j, v.own_key j u);
}

pub create-IsKeyed : (t : Task) (now : Time) (s : Store) → IsKeyed s → IsKeyed (create t now s)
unfolding create
create-IsKeyed t now s v = put-IsKeyed s t.id _ refl v

pub with_found-IsKeyed :
    (f : Task → Task)
    → ((t : Task) → (f t).id ≡ t.id)
    → (id : String) (s : Store) → IsKeyed s
    → IsKeyed (with_found (Dict.get s id) f id s)
unfolding with_found
with_found-IsKeyed f keep id s v = elim (Option-cases (Dict.get s id)) [
  | inl e ↦ rw e v
  | inr (t, e) ↦ rw e (put-IsKeyed s id (f t) (keep t ∙ v.own_key id t e) v)
]

pub update_status-IsKeyed :
    (id : String) (st : Status) (now : Time) (s : Store)
    → IsKeyed s
    → IsKeyed (update_status id st now s)
unfolding update_status
update_status-IsKeyed id st now s v = with_found-IsKeyed _ (λ t. refl) id s v

pub update_status_and_completed_at-IsKeyed :
    (id : String) (st : Status) (completed now : Time) (s : Store)
    → IsKeyed s
    → IsKeyed (update_status_and_completed_at id st completed now s)
unfolding update_status_and_completed_at
update_status_and_completed_at-IsKeyed id st completed now s v =
    with_found-IsKeyed _ (λ t. refl) id s v

pub get-with_found :
    (f : Task → Task) (id k : String) (s : Store)
    → Dict.get (with_found (Dict.get s id) f id s) k
      ≡ (if id == k then Option.map f (Dict.get s id) else Dict.get s k)
unfolding with_found
get-with_found f id k s = elim (Option-cases (Dict.get s id)) [
  | inl e ↦ ground (arith, e, eq_iff id k)
  | inr (t, e) ↦ ground (arith, e, get-put s id k (f t))
]

-- A task meets a filter: it has the robot, the tenant and the status that the filter names, if any.
pub record Meets (f : ListFilters) (t : Task) : Type 0 where
  pub robot : f.robot_id ≢ "" → t.robot_id ≡ f.robot_id
  pub tenant : f.tenant_id ≢ "" → t.tenant_id ≡ f.tenant_id
  pub state : (st : Status) → f.status ≡ some st → t.status ≡ st

same_status_sound : (a b : Status) → same_status a b ≡ true → a ≡ b
same_status_sound a b h = ground arith

same_status_refl : (a : Status) → same_status a a ≡ true
same_status_refl a = ground arith

differs_sound :
    (o : Option Status) (t : Task)
    → differs o t ≡ false
    → (st : Status) → o ≡ some st
    → t.status ≡ st
unfolding differs
differs_sound none t h st e = cc
differs_sound (some x) t h st e = ground (arith, same_status_sound t.status x)

differs_complete :
    (o : Option Status) (t : Task)
    → ((st : Status) → o ≡ some st → t.status ≡ st)
    → differs o t ≡ false
unfolding differs
differs_complete none t h = refl
differs_complete (some x) t h = ground (arith, h x refl, same_status_refl x)

matches-Meets : (f : ListFilters) (t : Task) → matches f t ≡ true → Meets f t
unfolding matches
matches-Meets f t h = record {
  robot = λ n. ground (arith, eq_iff f.robot_id "", eq_iff t.robot_id f.robot_id);
  tenant = λ n. ground (arith, eq_iff f.tenant_id "", eq_iff t.tenant_id f.tenant_id);
  state = differs_sound f.status t (ground arith);
}

Meets-matches : (f : ListFilters) (t : Task) → Meets f t → matches f t ≡ true
unfolding matches differs
Meets-matches f t m = ground (
  arith,
  differs_complete f.status t m.state,
  eq_iff f.robot_id "",
  eq_iff t.robot_id f.robot_id,
  eq_iff f.tenant_id "",
  eq_iff t.tenant_id f.tenant_id,
  m.robot,
  m.tenant,
)

mem_uncons : (t x : Task) (ts : List Task) → Memᴰ t (x ∷ ts) → (t ≡ x) ⊎ Memᴰ t ts
mem_uncons t x ts (Memᴰ.head e) = inl e
mem_uncons t x ts (Memᴰ.tail m) = inr m

mem-select :
    (f : ListFilters) (t : Task) (ts : List Task)
    → Memᴰ t (select f ts)
    → Memᴰ t ts × (matches f t ≡ true)
unfolding select
mem-select f t [] h = elim h [ ]
mem-select f t (x ∷ ts) h = elim (Bool-cases (matches f x)) [
  | inl e ↦ elim (mem_uncons t x (select f ts) (rw e at h)) [
    | inl p ↦ (Memᴰ.head p, ap (matches f) p ∙ e)
    | inr m ↦ let (m', p) = mem-select f t ts m in (Memᴰ.tail m', p)
  ]
  | inr e ↦ let (m, p) = mem-select f t ts (rw e at h) in (Memᴰ.tail m, p)
]

select-mem :
    (f : ListFilters) (t : Task) (ts : List Task)
    → Memᴰ t ts
    → matches f t ≡ true
    → Memᴰ t (select f ts)
unfolding select
select-mem f t [] m p = elim m [ ]
select-mem f t (x ∷ ts) (Memᴰ.head e) p = rw (ap (matches f) (sym e) ∙ p) (Memᴰ.head e)
select-mem f t (x ∷ ts) (Memᴰ.tail m) p = elim (Bool-cases (matches f x)) [
  | inl e ↦ rw e (Memᴰ.tail (select-mem f t ts m p))
  | inr e ↦ rw e (select-mem f t ts m p)
]

-- `List` returns exactly the stored tasks that meet the filters.
pub list_iff :
    (f : ListFilters) (s : Store) (t : Task)
    → IsKeyed s
    → Memᴰ t (list_tasks f s) ↔ ((get_task t.id s ≡ some t) × Meets f t)
unfolding list_tasks get_task
list_iff f s t v = (
  λ h.
      let (m, p) = mem-select f t (Dict.values s) h in
      let (k, g) = Stored-of-values s t v.one_entry m in
      (subst (λ x. Dict.get s x ≡ some t) (sym (v.own_key k t g)) g, matches-Meets f t p),
  λ (g, m). select-mem f t (Dict.values s) (values-of-get s t.id t g) (Meets-matches f t m),
)

-- The in-memory store says that a robot has a running task exactly when a task in it is for that
-- robot and has the status `running`.
pub has_running_iff :
    (s : Store) (robot_id : String)
    → IsKeyed s
    → (has_running_for_robot robot_id s ≡ true)
      ↔ ((t : Task) × (get_task t.id s ≡ some t) × (t.robot_id ≡ robot_id) × (t.status ≡ running))
unfolding has_running_for_robot get_task runs_on
has_running_iff s robot_id v = (
  λ h.
      let (t, m, p) = Memᴰ-of-any (runs_on robot_id) (Dict.values s) h in
      let (k, g) = Stored-of-values s t v.one_entry m in
      (
        t,
        subst (λ x. Dict.get s x ≡ some t) (sym (v.own_key k t g)) g,
        ground (arith, eq_iff t.robot_id robot_id),
        ground arith,
      ),
  λ (t, g, r, st).
      any-of-Memᴰ (runs_on robot_id) (Dict.values s) t (values-of-get s t.id t g)
        (ground (arith, eq_iff t.robot_id robot_id)),
)
