-- ===== src/TouchSelect/Refit.antt =====
-- Refits under a held selection: `guardRefit`, `flushRefits`, `setFrozen`, and what the listeners of
-- `selectionchange` and of the terminal's resize do with them.
use wosh.Prelude.{
  ℕ, zero, suc, ◌+◌, ◌==◌, ◌≡◌, refl, ◌∙◌, ap, subst, ==_iff, Bool, true, false, ◌&&◌, ◌||◌, not,
  List, [], ◌∷◌, ◌++◌, Option, none, some, if◌then◌else◌, Bool-cases, inl, inr, arith, get_elem?,
}

-- A guarded callback: its `deferred`, and how often the callback itself ran.
pub record Guard : Type 0 where
  pub deferred : Bool
  pub runs : ℕ

pub record Overlay : Type 0 where
  pub frozen : Bool
  pub guards : List Guard

abbrev pub fit : Guard → Guard
fit g = record g { runs = g.runs + 1 }

unfoldable pub flush_one : Guard → Guard
flush_one g = if g.deferred then fit (record g { deferred = false }) else g

unfoldable pub flush_refits : List Guard → List Guard
unfolding flush_one
flush_refits [] = []
flush_refits (g ∷ gs) = flush_one g ∷ flush_refits gs

unfoldable pub guarded : Bool → Guard → Guard
guarded frozen g = if frozen then record g { deferred = true } else fit g

unfoldable pub call_guard : Bool → ℕ → List Guard → List Guard
unfolding guarded
call_guard frozen i [] = []
call_guard frozen zero (g ∷ gs) = guarded frozen g ∷ gs
call_guard frozen (suc i) (g ∷ gs) = g ∷ call_guard frozen i gs

-- The page wraps a callback, calls the wrapper of one, the selection changes to being held over the
-- mirror or not, and the terminal is resized.
pub data Event : Type 0 where
  wrapped resized : Event
  refit : ℕ → Event
  selection : Bool → Event

unfoldable pub step : Overlay → Event → Overlay
unfolding flush_refits call_guard
step o wrapped = record o { guards = o.guards ++ record { deferred = false; runs = 0 } ∷ [] }
step o (refit i) = record o { guards = call_guard o.frozen i o.guards }
step o (selection holding) =
    if o.frozen && not holding
    then record { frozen = false; guards = flush_refits o.guards }
    else record o { frozen = holding }
step o resized = record { frozen = false; guards = flush_refits o.guards }

unfoldable pub run : Overlay → List Event → Overlay
unfolding step
run o [] = o
run o (e ∷ es) = run (step o e) es

-- The end of a hold: the selection is no longer held over the mirror, or the terminal is resized.
abbrev pub hold_end : Bool → Event
hold_end true = resized
hold_end false = selection false

-- The calls of guarded callbacks during a hold, and its end
abbrev pub calls : Bool → List ℕ → List Event
calls by_resize [] = hold_end by_resize ∷ []
calls by_resize (i ∷ is) = refit i ∷ calls by_resize is

abbrev pub has : ℕ → List ℕ → Bool
has i [] = false
has i (j ∷ js) = i == j || has i js

call_guard_here :
    (i : ℕ) (gs : List Guard) (g : Guard)
    → get_elem? gs i ≡ some g
    → get_elem? (call_guard true i gs) i ≡ some (record { deferred = true; runs = g.runs })
unfolding call_guard
call_guard_here i [] g h = absurd (cc)
call_guard_here zero (x ∷ gs) g h = ground arith
call_guard_here (suc i) (x ∷ gs) g h = call_guard_here i gs g h

call_guard_elsewhere :
    (i j : ℕ) (gs : List Guard)
    → (i == j) ≡ false
    → get_elem? (call_guard true j gs) i ≡ get_elem? gs i
unfolding call_guard
call_guard_elsewhere i j [] h = refl
call_guard_elsewhere zero zero (x ∷ gs) h = absurd (ground arith)
call_guard_elsewhere zero (suc j) (x ∷ gs) h = refl
call_guard_elsewhere (suc i) zero (x ∷ gs) h = refl
call_guard_elsewhere (suc i) (suc j) (x ∷ gs) h = call_guard_elsewhere i j gs (ground arith)

flush_refits_at :
    (i : ℕ) (gs : List Guard) (g : Guard)
    → get_elem? gs i ≡ some g
    → get_elem? (flush_refits gs) i ≡ some (flush_one g)
unfolding flush_refits
flush_refits_at i [] g h = absurd (cc)
flush_refits_at zero (x ∷ gs) g h =
    ap (λ o. elim o as (λ p. Option Guard) [ none ↦ none | some y ↦ some (flush_one y) ]) h
flush_refits_at (suc i) (x ∷ gs) g h = flush_refits_at i gs g h

-- What a callback looks like after a hold in which it was called or not.
abbrev pub after_hold : Bool → Guard → Guard
after_hold called g = record {
  deferred = false;
  runs = g.runs + (if g.deferred || called then 1 else 0);
}

-- When a hold in which nothing happens but calls of guarded callbacks ends, by the selection or by a
-- resize, each callback that was called during it, however often, or that was deferred before, has run
-- exactly once more, and the others have not; and none is deferred.
pub runs-run_of_hold :
    (by_resize : Bool) (is : List ℕ) (i : ℕ) (gs : List Guard) (g : Guard)
    → get_elem? gs i ≡ some g
    → get_elem? (run (record { frozen = true; guards = gs }) (calls by_resize is)).guards i
      ≡ some (after_hold (has i is) g)
unfolding run step
runs-run_of_hold false [] i gs g h =
    flush_refits_at i gs g h ∙ ap some (unfold flush_one in ground arith)
runs-run_of_hold true [] i gs g h =
    flush_refits_at i gs g h ∙ ap some (unfold flush_one in ground arith)
runs-run_of_hold by_resize (j ∷ is) i gs g h = elim (Bool-cases (i == j)) [
  | inl e ↦
      let now : Guard = record { deferred = true; runs = g.runs } in
      let set_now =
        subst (λ k. get_elem? (call_guard true k gs) i ≡ some now) ((==_iff i j).0 e)
          (call_guard_here i gs g h) in
      runs-run_of_hold by_resize is i (call_guard true j gs) now set_now ∙ ap some (ground arith)
  | inr e ↦
      rw e (
        runs-run_of_hold by_resize is i (call_guard true j gs) g
          (call_guard_elsewhere i j gs e ∙ h))
]
