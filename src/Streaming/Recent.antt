-- ===== src/Streaming/Recent.antt =====
-- The ring holds the last events that were added, as many as it has slots, and a reconnecting
-- client gets those of them that it has not seen.
use mathlib.Core.List.{append_assoc, append-nil}
use sai_aurosy.Prelude.{
  ℕ, zero, suc, ◌-◌, ◌≤◌, ◌<◌, ◌≡◌, refl, sym, ap, ◌∙◌, inl, inr, Option, some, List, [], ◌∷◌, ◌++◌,
  map, String, arith, length, length-append, drop, length-drop, Bool-cases, ltb, ltb→lt,
}
use sai_aurosy.Prelude.Int.{ℤ}
use sai_aurosy.Hal.{Time}
use sai_aurosy.Streaming.{
  BufferedEvent, RingBuffer, empty_slots, effective_capacity, new_ring_buffer, write_slot,
  make_event, add,
}

-- The last n items.
abbrev pub last_n {ℓ} : {A : Type ℓ} → ℕ → List A → List A
last_n n xs = drop (length xs - n) xs

module _ {ℓ} {A : Type ℓ} where
  drop-append : (n : ℕ) (xs ys : List A) → n ≤ length xs → drop n (xs ++ ys) ≡ drop n xs ++ ys
  drop-append zero xs ys h = refl
  drop-append (suc n) [] ys h = absurd (omega arith)
  drop-append (suc n) (x ∷ xs) ys h = drop-append n xs ys (omega arith)

  drop-uncons : (n : ℕ) (xs : List A) → n < length xs → (x : A) × (drop n xs ≡ x ∷ drop (suc n) xs)
  drop-uncons n [] h = absurd (omega arith)
  drop-uncons zero (x ∷ xs) h = (x, refl)
  drop-uncons (suc n) (x ∷ xs) h = drop-uncons n xs (omega arith)

  map-some-append :
      (xs ys : List A) → map (λ x. some x) (xs ++ ys) ≡ map (λ x. some x) xs ++ map (λ x. some x) ys
  map-some-append [] ys = refl
  map-some-append (x ∷ xs) ys = ap (λ r. some x ∷ r) (map-some-append xs ys)

module _ {T : Type 0} where
  -- A ring of c slots that holds these events, oldest first.
  abbrev pub slots : ℕ → List (BufferedEvent T) → List (Option (BufferedEvent T))
  slots c es = empty_slots T (c - length es) ++ map (λ e. some e) es

  -- Below its capacity the ring has a free slot in front; a full one gives up its oldest event.
  write_slot-room :
      (k : ℕ) (es : List (BufferedEvent T)) (ev : BufferedEvent T)
      → write_slot ev (empty_slots T (suc k) ++ map (λ e. some e) es)
        ≡ empty_slots T k ++ map (λ e. some e) (es ++ ev ∷ [])
  write_slot-room k es ev =
      append_assoc (empty_slots T k) _ _
      ∙ ap (λ r. empty_slots T k ++ r) (sym (map-some-append es (ev ∷ [])))

  write_slot-full :
      (c : ℕ) (x : BufferedEvent T) (es : List (BufferedEvent T)) (ev : BufferedEvent T)
      → suc (length es) ≡ c
      → write_slot ev (slots c (x ∷ es)) ≡ slots c (es ++ ev ∷ [])
  write_slot-full c x es ev h =
      let e0 : c - suc (length es) ≡ 0 = omega (arith, h) in
      let e1 : c - length (es ++ ev ∷ []) ≡ 0 = omega (arith, h, length-append {0} es (ev ∷ [])) in
      simp (e0, e1) (sym (map-some-append es (ev ∷ [])))

  write_slot-slots :
      (c : ℕ) (xs : List (BufferedEvent T)) (ev : BufferedEvent T)
      → 0 < c
      → write_slot ev (slots c (last_n c xs)) ≡ slots c (last_n c (xs ++ ev ∷ []))
  write_slot-slots c xs ev h = elim (Bool-cases (ltb (length xs) c)) [
    | inl l ↦
        let lt : length xs < c = ltb→lt (length xs) c l in
        let e0 : length xs - c ≡ 0 = omega (arith, lt) in
        let e1 : length (xs ++ ev ∷ []) - c ≡ 0 =
          omega (arith, lt, length-append {0} xs (ev ∷ [])) in
        let e2 : c - length xs ≡ suc (c - length (xs ++ ev ∷ [])) =
          omega (arith, lt, length-append {0} xs (ev ∷ [])) in
        simp (e0, e1, e2) (write_slot-room (c - length (xs ++ ev ∷ [])) xs ev)
    | inr l ↦
        let le : c ≤ length xs = ground (arith, l) in
        let n : length (xs ++ ev ∷ []) ≡ suc (length xs) =
          omega (arith, length-append {0} xs (ev ∷ [])) in
        let e : length (xs ++ ev ∷ []) - c ≡ suc (length xs - c) = omega (arith, n, le) in
        let (x, q) = drop-uncons (length xs - c) xs (omega (arith, le, h)) in
        let d : suc (length (drop (suc (length xs - c)) xs)) ≡ c =
          omega (arith, length-drop (suc (length xs - c)) xs, le, h) in
        ap (λ es. write_slot ev (slots c es)) q
        ∙ write_slot-full c x (drop (suc (length xs - c)) xs) ev d
        ∙ ap (slots c) (
            sym (drop-append (suc (length xs - c)) xs (ev ∷ []) (omega (arith, le, h)))
            ∙ ap (λ k. drop k (xs ++ ev ∷ [])) (sym e))
  ]

  -- The ring has the last events of this history.
  pub record Holds (c : ℕ) (history : List (BufferedEvent T)) (b : RingBuffer T) : Type 0 where
    pub size : b.capacity ≡ c
    pub content : b.ring ≡ slots c (last_n c history)

  empty_slots-start : (c : ℕ) → empty_slots T c ≡ slots c (last_n c [])
  empty_slots-start c =
      let e : 0 - c ≡ 0 = omega arith in
      let e' : c - 0 ≡ c = omega arith in sym (simp (e, e') (append-nil (empty_slots T c)))

  pub new_ring_buffer-Holds :
      (capacity : ℤ) → Holds (effective_capacity capacity) [] (new_ring_buffer T capacity)
  unfolding new_ring_buffer
  new_ring_buffer-Holds capacity = record {
    size = refl;
    content = empty_slots-start (effective_capacity capacity);
  }

  module _ (event_id : Time → String) where
    unfoldable pub add_all : List (Time × T) → RingBuffer T → RingBuffer T
    add_all [] b = b
    add_all ((timestamp, t) ∷ rest) b = add_all rest (add event_id timestamp t b)

    unfoldable pub events_of : List (Time × T) → List (BufferedEvent T)
    events_of [] = []
    events_of ((timestamp, t) ∷ rest) = make_event event_id timestamp t ∷ events_of rest

    add-Holds :
        (c : ℕ) (history : List (BufferedEvent T)) (timestamp : Time) (t : T) (b : RingBuffer T)
        → 0 < c
        → Holds c history b
        → Holds c (history ++ make_event event_id timestamp t ∷ []) (add event_id timestamp t b)
    unfolding add
    add-Holds c history timestamp t b h v = record {
      size = v.size;
      content =
          ap (write_slot (make_event event_id timestamp t)) v.content
          ∙ write_slot-slots c history _ h;
    }

    pub add_all-Holds :
        (c : ℕ) (es : List (Time × T)) (history : List (BufferedEvent T)) (b : RingBuffer T)
        → 0 < c
        → Holds c history b
        → Holds c (history ++ events_of es) (add_all es b)
    unfolding add_all events_of
    add_all-Holds c [] history b h v = rw (append-nil history) v
    add_all-Holds c ((timestamp, t) ∷ es) history b h v =
        rw (append_assoc history (make_event event_id timestamp t ∷ []) (events_of es)) at
          (add_all-Holds c es _ _ h (add-Holds c history timestamp t b h v))
