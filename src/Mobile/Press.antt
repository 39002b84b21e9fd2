-- ===== src/Mobile/Press.antt =====
-- A press of a key in the bar: `key` of site/mobile.mjs. Points are the pointer's coordinates, and
-- `far` is the test of the travel against `SLOP`, which is on floating-point numbers.
use wosh.Prelude.{
  ℕ, ◌==◌, ==_iff, ◌≡◌, ◌↔◌, refl, sym, ap, Bool, true, false, ◌&&◌, List, [], ◌∷◌, ◌++◌, Option,
  none, some, if◌then◌else◌, arith, ◌⊎◌, inl, inr,
}

module _ {Point : Type 0} (far : Point → Point → Bool) where
  -- The pointer events that reach the key, each with its `pointerId`.
  pub data Pointer : Type 0 where
    down move up : ℕ → Point → Pointer
    cancel : ℕ → Pointer

  -- `held` with `x0` and `y0`
  abbrev pub Held : Type 0
  Held = Option (ℕ × Point)

  unfoldable pub is_held_by : ℕ → Held → Bool
  is_held_by id none = false
  is_held_by id (some (i, p)) = id == i

  unfoldable pub moved : ℕ → Point → Held → Held
  moved id q none = none
  moved id q (some (i, p)) = if id == i && far p q then none else some (i, p)

  unfoldable pub on_pointer : Held → Pointer → Held
  unfolding is_held_by moved
  on_pointer h (down id p) = some (id, p)
  on_pointer h (move id q) = moved id q h
  on_pointer h (up id q) = if is_held_by id h then none else h
  on_pointer h (cancel id) = if is_held_by id h then none else h

  unfoldable pub pointers : Held → List Pointer → Held
  unfolding on_pointer
  pointers h [] = h
  pointers h (e ∷ es) = pointers (on_pointer h e) es

  -- Whether a `pointerup` presses the key.
  unfoldable pub presses : Held → ℕ → Bool
  unfolding is_held_by
  presses h id = is_held_by id h

  -- Nothing ends the press of `id` that began at `p`: no other press begins, the finger does not
  -- travel, and it is neither lifted nor taken by the browser.
  pub IsQuiet : ℕ → Point → Pointer → Type 0
  IsQuiet id p (down i q) = ⊥
  IsQuiet id p (move i q) = (i == id && far p q) ≡ false
  IsQuiet id p (up i q) = (i == id) ≡ false
  IsQuiet id p (cancel i) = (i == id) ≡ false

  abbrev pub AreQuiet : ℕ → Point → List Pointer → Type 0
  AreQuiet id p [] = Unit
  AreQuiet id p (e ∷ es) = IsQuiet id p e × AreQuiet id p es

  -- The events end in a press of `id` that is still on.
  pub IsPressed : ℕ → List Pointer → Type 0
  IsPressed id es =
      (before : List Pointer) × (p : Point) × (after : List Pointer) × (es
        ≡ before ++ down id p ∷ after)
      × AreQuiet id p after

  pointers-quiet :
      (id : ℕ) (p : Point) (es : List Pointer)
      → AreQuiet id p es
      → pointers (some (id, p)) es ≡ some (id, p)
  unfolding pointers IsQuiet
  pointers-quiet id p [] h = refl
  pointers-quiet id p (down i q ∷ es) h = elim h.0 [ ]
  pointers-quiet id p (move i q ∷ es) h = rw h.0 (pointers-quiet id p es h.1)
  pointers-quiet id p (up i q ∷ es) h = rw h.0 (pointers-quiet id p es h.1)
  pointers-quiet id p (cancel i ∷ es) h = rw h.0 (pointers-quiet id p es h.1)

  pointers-append :
      (h : Held) (es fs : List Pointer) → pointers h (es ++ fs) ≡ pointers (pointers h es) fs
  unfolding pointers
  pointers-append h [] fs = refl
  pointers-append h (e ∷ es) fs = pointers-append (on_pointer h e) es fs

  presses_of_pressed :
      (id : ℕ) (es : List Pointer) → IsPressed id es → presses (pointers none es) id ≡ true
  unfolding presses IsPressed pointers
  presses_of_pressed id es (before, p, after, e, h) =
      rw (e, pointers-append none before (down id p ∷ after), pointers-quiet id p after h)
        ((==_iff id id).1 refl)

  unless : (ℕ × Point → Bool) → ℕ × Point → Held
  unless f h = if f h then none else some h

  unless_kept :
      (f : ℕ × Point → Bool) (h : ℕ × Point) (id : ℕ) (p : Point)
      → unless f h ≡ some (id, p)
      → (some h ≡ some (id, p)) × (f (id, p) ≡ false)
  unfolding unless
  unless_kept f h id p e = go (f h) refl e
    where
      go :
          (b : Bool)
          → f h ≡ b
          → (if◌then◌else◌ {A = Held} b none (some h) ≡ some (id, p))
          → (some h ≡ some (id, p)) × (f (id, p) ≡ false)
      go true t e = cc
      go false t e = (e, cc)

  -- A press that is held after an event was held before it, or began with it.
  kept_or_began :
      (x : Pointer) (h : Held) (id : ℕ) (p : Point)
      → on_pointer h x ≡ some (id, p)
      → ((h ≡ some (id, p)) × IsQuiet id p x) ⊎ (x ≡ down id p)
  unfolding on_pointer IsQuiet unless
  kept_or_began (down i q) h id p e = inr (ground arith)
  kept_or_began (move i q) none id p e = ground arith
  kept_or_began (move i q) (some (j, r)) id p e =
      inl (unless_kept (λ h. i == h.0 && far h.1 q) (j, r) id p e)
  kept_or_began (up i q) none id p e = ground arith
  kept_or_began (up i q) (some (j, r)) id p e = inl (unless_kept (λ h. i == h.0) (j, r) id p e)
  kept_or_began (cancel i) none id p e = ground arith
  kept_or_began (cancel i) (some (j, r)) id p e = inl (unless_kept (λ h. i == h.0) (j, r) id p e)

  -- Where a press that is still held came from: it was held before, or it is in the events.
  held_from :
      (es : List Pointer) (h : Held) (id : ℕ) (p : Point)
      → pointers h es ≡ some (id, p)
      → ((h ≡ some (id, p)) × AreQuiet id p es) ⊎ IsPressed id es
  unfolding pointers IsPressed IsQuiet
  held_from [] h id p e = inl (e, tt)
  held_from (x ∷ es) h id p e = elim (held_from es (on_pointer h x) id p e) [
    | inr (before, q, after, eq, quiet) ↦ inr (x ∷ before, q, after, ap (x ∷◌) eq, quiet)
    | inl (now, quiet) ↦ elim (kept_or_began x h id p now) [
      | inl (before, still) ↦ inl (before, (still, quiet))
      | inr began ↦ inr ([], p, es, ap (λ y. y ∷ es) began, quiet)
    ]
  ]

  held_by : (h : Held) (id : ℕ) → is_held_by id h ≡ true → (p : Point) × (h ≡ some (id, p))
  unfolding is_held_by
  held_by none id e = absurd (ground arith)
  held_by (some (i, p)) id e = (p, ap (λ j. some (j, p)) (sym ((==_iff id i).0 e)))

  IsPressed-of_presses :
      (id : ℕ) (es : List Pointer) → presses (pointers none es) id ≡ true → IsPressed id es
  unfolding presses
  IsPressed-of_presses id es e =
      let (p, h) = held_by (pointers none es) id e in
      elim (held_from es none id p h) [
        | inl (none_held, quiet) ↦ absurd (ground arith)
        | inr pressed ↦ pressed
      ]

  -- A pointer that is lifted presses the key exactly when it was put down on it and since then
  -- nothing ended the press: no other pointer came down, the finger did not travel, and the browser
  -- did not take the gesture.
  presses-pointers_iff :
      (es : List Pointer) (id : ℕ) → (presses (pointers none es) id ≡ true) ↔ IsPressed id es
  unfolding presses
  presses-pointers_iff es id = (IsPressed-of_presses id es, presses_of_pressed id es)
