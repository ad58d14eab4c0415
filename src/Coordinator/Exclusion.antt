-- ===== src/Coordinator/Exclusion.antt =====
-- Sequences of the store's operations: a refinement of an ownership table, and exclusion.
use mathlib.Core.Path.{fun_ext}
use sai_aurosy.Prelude.{
  ◌≡◌, ◌≢◌, refl, sym, ◌∙◌, ◌⊎◌, inl, inr, Option, none, some, List, [], ◌∷◌, Memᴰ, String, ◌==◌,
  eq_iff, arith, if◌then◌else◌, is_some, ap, Bool-cases,
}
use sai_aurosy.Hal.{Time}
use sai_aurosy.Coordinator.{
  Zone, Store, register_zone, acquire_zone, release_zone, release_all_for_robot,
}
use sai_aurosy.Coordinator.Locks.{
  IsValid, holder, holds, register_zone-IsValid, acquire_zone-IsValid, release_zone-IsValid,
  release_all_for_robot-IsValid, holder-register, holder-acquire, holder-release,
  holder-release_all,
}

pub data Op : Type 0 where
  register : Zone → Op
  acquire : String → String → Time → Op
  release : String → String → Op
  release_all : String → Op

pub step : Op → Store → Store
step (register z) s = register_zone z s
step (acquire r z now) s = (acquire_zone r z now s).0
step (release r z) s = (release_zone r z s).0
step (release_all r) s = release_all_for_robot r s

unfoldable pub run : List Op → Store → Store
unfolding step
run [] s = s
run (op ∷ ops) s = run ops (step op s)

-- The abstract specification: a table of owners, and what each operation does to it.
abbrev pub Owners : Type 0
Owners = String → Option String

unfoldable pub own : Op → Owners → Owners
own (register z) o y = o y
own (acquire r z now) o y = if z == y then (if is_some (o z) then o z else some r) else o y
own (release r z) o y = if z == y then (if holds r (o z) then none else o z) else o y
own (release_all r) o y = if holds r (o y) then none else o y

pub own_all : List Op → Owners → Owners
own_all [] o = o
own_all (op ∷ ops) o = own_all ops (own op o)

step-IsValid : (op : Op) (s : Store) → IsValid s → IsValid (step op s)
unfolding step
step-IsValid (register z) s v = register_zone-IsValid s v z
step-IsValid (acquire r z now) s v = acquire_zone-IsValid s v r z now
step-IsValid (release r z) s v = release_zone-IsValid s v r z
step-IsValid (release_all r) s v = release_all_for_robot-IsValid s v r

holder-step :
    (op : Op) (s : Store) (y : String) → IsValid s → holder (step op s) y ≡ own op (holder s) y
unfolding step own
holder-step (register z) s y v = holder-register s v z y
holder-step (acquire r z now) s y v = holder-acquire s v r z y now
holder-step (release r z) s y v = holder-release s v r z y
holder-step (release_all r) s y v = holder-release_all s v r y

-- For every sequence of operations on a valid store, the robots that hold the zones afterwards are
-- those that the table of owners gives, and the store is valid.
pub run_refines :
    (ops : List Op) (s : Store)
    → IsValid s
    → IsValid (run ops s) × ((y : String) → holder (run ops s) y ≡ own_all ops (holder s) y)
unfolding run own_all
run_refines [] s v = (v, λ y. refl)
run_refines (op ∷ ops) s v =
    let (v', h) = run_refines ops (step op s) (step-IsValid op s v) in
    (v', λ y. h y ∙ ap (λ o. own_all ops o y) (fun_ext (λ x. holder-step op s x v)))

keeps_or_releases :
    (op : Op) (o : Owners) (z r : String)
    → o z ≡ some r
    → (own op o z ≡ some r) ⊎ ((op ≡ release r z) ⊎ (op ≡ release_all r))
unfolding own holds
keeps_or_releases (register x) o z r h = inl h
keeps_or_releases (acquire q x now) o z r h = inl (ground (arith, eq_iff x z))
keeps_or_releases (release q x) o z r h = elim (Bool-cases (x == z)) [
  | inl e ↦ elim (Bool-cases (q == r)) [
    | inl f ↦ inr (inl (cc ((eq_iff x z).0 e, (eq_iff q r).0 f)))
    | inr f ↦ inl (ground (arith, eq_iff x z, eq_iff q r, eq_iff r q))
  ]
  | inr e ↦ inl (ground arith)
]
keeps_or_releases (release_all q) o z r h = elim (Bool-cases (q == r)) [
  | inl f ↦ inr (inr (cc ((eq_iff q r).0 f)))
  | inr f ↦ inl (ground (arith, eq_iff q r, eq_iff r q))
]

handover :
    (ops : List Op) (o : Owners) (z r q : String)
    → o z ≡ some r
    → own_all ops o z ≡ some q
    → r ≢ q
    → Memᴰ (release r z) ops ⊎ Memᴰ (release_all r) ops
unfolding own_all
handover [] o z r q h k n = absurd (n (ground arith))
handover (op ∷ ops) o z r q h k n = elim (keeps_or_releases op o z r h) [
  | inl stays ↦ elim (handover ops (own op o) z r q stays k n) [
    | inl m ↦ inl (Memᴰ.tail m)
    | inr m ↦ inr (Memᴰ.tail m)
  ]
  | inr (inl e) ↦ inl (Memᴰ.head (sym e))
  | inr (inr e) ↦ inr (Memᴰ.head (sym e))
]

-- A zone changes hands only by a release: if robot `r` holds a zone of a valid store and, after some
-- sequence of operations, another robot holds it, then the sequence has a release of that zone by
-- `r` or a release of all zones of `r`.
pub exclusive :
    (ops : List Op) (s : Store) (z r q : String)
    → IsValid s
    → holder s z ≡ some r
    → holder (run ops s) z ≡ some q
    → r ≢ q
    → Memᴰ (release r z) ops ⊎ Memᴰ (release_all r) ops
exclusive ops s z r q v h k n =
    handover ops (holder s) z r q h (sym ((run_refines ops s v).1 z) ∙ k) n
