-- ===== src/App/Painter/Order.antt =====
-- Nothing that was painted is lost, repeated or reordered, and what is queued will be flushed.
use wosh.Prelude.{
  ◌≤◌, ◌≡◌, refl, sym, ◌∙◌, ap, Bool, true, false, ◌||◌, List, [], ◌∷◌, ◌++◌, none, some, is_nil,
  length, append_assoc, append-nil, arith, Bool-cases, inl, inr,
}
use wosh.App.Painter.{
  Chunk, Painter, Event, output, frame, timeout, hidden, flush, paint, step, run, initial,
}

-- The chunks that the pump handed to `paint`, without the empty ones.
abbrev pub painted : List Event → List Chunk
painted [] = []
painted (output (some (b ∷ bs)) ∷ es) = (b ∷ bs) ∷ painted es
painted (e ∷ es) = painted es

abbrev pub all_chunks : Painter → List Chunk
all_chunks p = p.written ++ p.chunks

all_chunks-flush : (b : Bool) (p : Painter) → all_chunks (flush b p) ≡ all_chunks p
unfolding flush
all_chunks-flush b p = append-nil (p.written ++ p.chunks)

all_chunks-step :
    (p : Painter) (e : Event) → all_chunks (step p e) ≡ all_chunks p ++ painted (e ∷ [])
unfolding step flush
all_chunks-step p (output none) = sym (append-nil _)
all_chunks-step p (output (some [])) = sym (append-nil _)
all_chunks-step p (output (some (b ∷ bs))) = sym (append_assoc p.written p.chunks _)
all_chunks-step p frame = elim (Bool-cases p.raf) [
  | inl e ↦ rw e refl
  | inr e ↦ rw e (sym (append-nil _))
]
all_chunks-step p timeout = elim (Bool-cases p.timer) [
  | inl e ↦ rw e refl
  | inr e ↦ rw e (sym (append-nil _))
]
all_chunks-step p hidden = elim (Bool-cases (is_nil p.chunks)) [
  | inl e ↦ rw e (sym (append-nil _))
  | inr e ↦ rw e refl
]

painted-cons : (e : Event) (es : List Event) → painted (e ∷ es) ≡ painted (e ∷ []) ++ painted es
painted-cons (output none) es = refl
painted-cons (output (some [])) es = refl
painted-cons (output (some (b ∷ bs))) es = refl
painted-cons frame es = refl
painted-cons timeout es = refl
painted-cons hidden es = refl

-- What was written and what is still queued are, together and in order, all that was painted.
all_chunks-run_from :
    (es : List Event) (p : Painter) → all_chunks (run p es) ≡ all_chunks p ++ painted es
unfolding run
all_chunks-run_from [] p = sym (append-nil _)
all_chunks-run_from (e ∷ es) p =
    all_chunks-run_from es (step p e)
    ∙ rw (all_chunks-step p e, painted-cons e es)
        (append_assoc (all_chunks p) (painted (e ∷ [])) (painted es))

-- A queue that is not empty has a frame and a timer pending, and the counter of its peak is right.
pub record IsScheduled (p : Painter) : Type 0 where
  pub framed : (is_nil p.chunks || p.raf) ≡ true
  pub timed : (is_nil p.chunks || p.timer) ≡ true
  pub paired : p.raf ≡ p.timer
  pub peaked : length p.chunks ≤ p.peak
  pub counted : p.timer_flushes ≤ p.flushes

step-IsScheduled : (p : Painter) (e : Event) → IsScheduled p → IsScheduled (step p e)
unfolding step flush paint
step-IsScheduled p (output none) h = h
step-IsScheduled p (output (some [])) h = h
step-IsScheduled p (output (some (b ∷ bs))) h = ground arith
step-IsScheduled p frame h = ground arith
step-IsScheduled p timeout h = ground arith
step-IsScheduled p hidden h = ground arith

run-IsScheduled_from : (es : List Event) (p : Painter) → IsScheduled p → IsScheduled (run p es)
unfolding run
run-IsScheduled_from [] p h = h
run-IsScheduled_from (e ∷ es) p h = run-IsScheduled_from es (step p e) (step-IsScheduled p e h)

untimed-nil : (p : Painter) → IsScheduled p → p.timer ≡ false → is_nil p.chunks ≡ true
untimed-nil p h e = elim (Bool-cases (is_nil p.chunks)) [
  | inl n ↦ n
  | inr n ↦ absurd (ground (arith, h.timed))
]

unframed-nil : (p : Painter) → IsScheduled p → p.raf ≡ false → is_nil p.chunks ≡ true
unframed-nil p h e = elim (Bool-cases (is_nil p.chunks)) [
  | inl n ↦ n
  | inr n ↦ absurd (ground (arith, h.framed))
]

-- From page load on: the bytes written and still queued are exactly those painted, in order; while
-- something is queued both a frame and the timer are pending; and when the timer or a frame that is
-- pending comes round, everything painted has been written.
pub painted-run :
    (es : List Event)
    → (all_chunks (run initial es) ≡ painted es)
      × IsScheduled (run initial es)
      × ((step (run initial es) timeout).written ≡ painted es)
      × ((step (run initial es) frame).written ≡ painted es)
unfolding step flush
painted-run es = (all, scheduled, on_timer, on_frame)
  where
    end : Painter
    end = run initial es

    all : all_chunks end ≡ painted es
    all = all_chunks-run_from es initial

    scheduled : IsScheduled end
    scheduled = run-IsScheduled_from es initial (ground arith)

    all_of_nil : is_nil end.chunks ≡ true → end.written ≡ painted es
    all_of_nil h = sym (append-nil _) ∙ (ap (end.written ++◌) (sym (nil_of end.chunks h)) ∙ all)
      where
        nil_of : (xs : List Chunk) → is_nil xs ≡ true → xs ≡ []
        nil_of [] e = refl
        nil_of (x ∷ xs) e = cc

    on_timer : (step end timeout).written ≡ painted es
    on_timer = elim (Bool-cases end.timer) [
      | inl e ↦ rw e all
      | inr e ↦ rw e (all_of_nil (untimed-nil end scheduled e))
    ]

    on_frame : (step end frame).written ≡ painted es
    on_frame = elim (Bool-cases end.raf) [
      | inl e ↦ rw e all
      | inr e ↦ rw e (all_of_nil (unframed-nil end scheduled e))
    ]
