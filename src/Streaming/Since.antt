-- ===== src/Streaming/Since.antt =====
-- What `GetSince` returns: the events after the given identifier, sorted, and never more than the
-- ring has slots.
use mathlib.Core.List.{Permᴰ}
use mathlib.Core.List.Permᴰ
use sai_aurosy.Prelude.{
  ℕ, zero, suc, ◌<◌, ◌≡◌, refl, ap, ◌∙◌, inl, inr, Bool, true, false, Option, some, List, [], ◌∷◌,
  ◌++◌, map, String, arith, All, Bool-cases,
}
use sai_aurosy.Prelude.Lists.{select}
use sai_aurosy.Prelude.Int.{ℤ}
use sai_aurosy.Hal.{Time}
use sai_aurosy.Streaming.{
  BufferedEvent, RingBuffer, empty_slots, effective_capacity, new_ring_buffer, collect, insert,
  sort_by_id, get_since,
}
use sai_aurosy.Streaming.Recent.{last_n, new_ring_buffer-Holds, add_all, events_of, add_all-Holds}

-- What Go's comparison of texts satisfies.
pub record IsOrder (less : String → String → Bool) : Type 0 where
  pub asymmetric : (a b : String) → less a b ≡ true → less b a ≡ false
  pub transitive : (a b c : String) → less b a ≡ false → less c b ≡ false → less c a ≡ false

effective_capacity-positive : (capacity : ℤ) → 0 < effective_capacity capacity
unfolding effective_capacity
effective_capacity-positive capacity = ground arith

module _ {T : Type 0} where
  module _ (less : String → String → Bool) where
    -- No later event has a smaller identifier.
    abbrev pub IsSorted : List (BufferedEvent T) → Type 0
    IsSorted [] = Unit
    IsSorted (e ∷ es) = All (λ f. less f.id e.id ≡ false) es × IsSorted es

    collect-empty :
        (last_id : String) (n : ℕ) (rest : List (Option (BufferedEvent T)))
        → collect less last_id (empty_slots T n ++ rest) ≡ collect less last_id rest
    unfolding collect
    collect-empty last_id zero rest = refl
    collect-empty last_id (suc n) rest = collect-empty last_id n rest

    collect-some :
        (last_id : String) (es : List (BufferedEvent T))
        → collect less last_id (map (λ e. some e) es) ≡ select (λ e. less last_id e.id) es
    unfolding collect select
    collect-some last_id [] = refl
    collect-some last_id (e ∷ es) = rw (collect-some last_id es) refl

    insert-Permᴰ :
        (e : BufferedEvent T) (es : List (BufferedEvent T)) → Permᴰ (insert less e es) (e ∷ es)
    unfolding insert
    insert-Permᴰ e [] = Permᴰ.refl (e ∷ [])
    insert-Permᴰ e (x ∷ xs) = elim (Bool-cases (less x.id e.id)) [
      | inl l ↦ simp l (Permᴰ.trans (Permᴰ.cons refl (insert-Permᴰ e xs)) (Permᴰ.swap refl refl))
      | inr l ↦ simp l (Permᴰ.refl (e ∷ x ∷ xs))
    ]

    sort_by_id-Permᴰ : (es : List (BufferedEvent T)) → Permᴰ (sort_by_id less es) es
    unfolding sort_by_id
    sort_by_id-Permᴰ [] = Permᴰ.refl []
    sort_by_id-Permᴰ (e ∷ es) =
        Permᴰ.trans (insert-Permᴰ e (sort_by_id less es)) (Permᴰ.cons refl (sort_by_id-Permᴰ es))

    module _ (order : IsOrder less) where
      All-weaker :
          (x e : BufferedEvent T) (es : List (BufferedEvent T))
          → less x.id e.id ≡ false
          → All (λ f. less f.id x.id ≡ false) es
          → All (λ f. less f.id e.id ≡ false) es
      All-weaker x e [] h a = tt
      All-weaker x e (y ∷ ys) h a = (order.transitive e.id x.id y.id h a.0, All-weaker x e ys h a.1)

      All-insert :
          (x e : BufferedEvent T) (es : List (BufferedEvent T))
          → less e.id x.id ≡ false
          → All (λ f. less f.id x.id ≡ false) es
          → All (λ f. less f.id x.id ≡ false) (insert less e es)
      unfolding insert
      All-insert x e [] h a = (h, tt)
      All-insert x e (y ∷ ys) h a = elim (Bool-cases (less y.id e.id)) [
        | inl l ↦ simp l (a.0, All-insert x e ys h a.1)
        | inr l ↦ simp l (h, a)
      ]

      insert-IsSorted :
          (e : BufferedEvent T) (es : List (BufferedEvent T))
          → IsSorted es
          → IsSorted (insert less e es)
      unfolding insert
      insert-IsSorted e [] s = (tt, tt)
      insert-IsSorted e (x ∷ xs) s = elim (Bool-cases (less x.id e.id)) [
        | inl l ↦
            simp l (All-insert x e xs (order.asymmetric x.id e.id l) s.0, insert-IsSorted e xs s.1)
        | inr l ↦ simp l ((refl, All-weaker x e xs l s.0), s)
      ]

      sort_by_id-IsSorted : (es : List (BufferedEvent T)) → IsSorted (sort_by_id less es)
      unfolding sort_by_id
      sort_by_id-IsSorted [] = tt
      sort_by_id-IsSorted (e ∷ es) = insert-IsSorted e _ (sort_by_id-IsSorted es)

    module _ (event_id : Time → String) where
      -- A buffer to which these events were added, in order.
      abbrev pub buffer : ℤ → List (Time × T) → RingBuffer T
      buffer capacity es = add_all event_id es (new_ring_buffer T capacity)

      collect-buffer :
          (capacity : ℤ) (es : List (Time × T)) (last_id : String)
          → collect less last_id (buffer capacity es).ring
            ≡ select
                (λ e. less last_id e.id)
                (last_n (effective_capacity capacity) (events_of event_id es))
      collect-buffer capacity es last_id =
          let held =
            add_all-Holds event_id (effective_capacity capacity) es [] (new_ring_buffer T capacity)
              (effective_capacity-positive capacity) (new_ring_buffer-Holds capacity) in
          ap (collect less last_id) held.content
          ∙ collect-empty last_id _ _
          ∙ collect-some last_id _

      pub get_since-last :
          (capacity : ℤ) (es : List (Time × T)) (last_id : String)
          → IsOrder less
          → Permᴰ (get_since less last_id (buffer capacity es)) (
              select
                (λ e. less last_id e.id)
                (last_n (effective_capacity capacity) (events_of event_id es)))
            × IsSorted (get_since less last_id (buffer capacity es))
      unfolding get_since
      get_since-last capacity es last_id order = (
        rw (collect-buffer capacity es last_id) (sort_by_id-Permᴰ _),
        sort_by_id-IsSorted order (collect less last_id (buffer capacity es).ring),
      )
