-- ===== src/App/Input/Silence.antt =====
-- Nothing that is typed reaches a session once an attempt has failed.
use wosh.Prelude.{
  ℕ, ◌%◌, ◌≡◌, refl, ◌∙◌, true, List, [], ◌∷◌, map, Option, none, some, arith, Bool-cases, inl, inr,
}
use wosh.App.Input.{
  Input, Event, dialed, ready, ended, fatal, typed, binary, resized, Sent, encoded, bytes,
  is_current, write_input, on_data, on_binary, on_resize, step, run,
}

-- A step that leaves the failure set and writes nothing.
IsSilent : Input → Input → Type 0
IsSilent p q = (q.failure ≡ true) × (q.writes ≡ p.writes)

write_input-IsSilent :
    (p : Input) (s : Sent) (w : Option ℕ) → p.failure ≡ true → IsSilent p (write_input p s w)
unfolding write_input IsSilent
write_input-IsSilent p s none h = (h, refl)
write_input-IsSilent p s (some n) h = elim (Bool-cases (is_current n p.current)) [
  | inl e ↦ ground (arith, h, e)
  | inr e ↦ ground (arith, h, e)
]

on_resize-IsSilent :
    (p : Input) (cols rows : ℕ) (w : Option ℕ)
    → p.failure ≡ true
    → IsSilent p (on_resize p cols rows w)
unfolding on_resize IsSilent
on_resize-IsSilent p cols rows none h = (h, refl)
on_resize-IsSilent p cols rows (some n) h = elim (Bool-cases (is_current n p.current)) [
  | inl e ↦ rw e (h, refl)
  | inr e ↦ rw e (h, refl)
]

step-IsSilent : (p : Input) (e : Event) → p.failure ≡ true → IsSilent p (step p e)
unfolding step on_data on_binary IsSilent
step-IsSilent p (dialed n) h = (h, refl)
step-IsSilent p (ready n) h = (h, refl)
step-IsSilent p (ended n) h = elim (Bool-cases (is_current n p.current)) [
  | inl e ↦ ground (arith, h, e)
  | inr e ↦ ground (arith, h, e)
]
step-IsSilent p fatal h = (refl, refl)
step-IsSilent p (typed s) h = write_input-IsSilent p (encoded s) p.wired h
step-IsSilent p (binary s) h = write_input-IsSilent p (bytes (map (λ c. c % 256) s)) p.wired h
step-IsSilent p (resized cols rows) h = on_resize-IsSilent p cols rows p.wired h

writes-run_of_failure :
    (es : List Event) (p : Input) → p.failure ≡ true → (run p es).writes ≡ p.writes
unfolding run IsSilent
writes-run_of_failure [] p h = refl
writes-run_of_failure (e ∷ es) p h =
    let quiet = step-IsSilent p e h in writes-run_of_failure es (step p e) quiet.0 ∙ quiet.1

-- After an attempt has ended in `fatal`, nothing that is typed or that the terminal reports is written to any
-- session for the rest of the page load, whatever sessions are dialed and become ready later.
pub writes-run_of_fatal : (p : Input) (es : List Event) → (run p (fatal ∷ es)).writes ≡ p.writes
unfolding run step
writes-run_of_fatal p es = writes-run_of_failure es (record p { failure = true }) refl
