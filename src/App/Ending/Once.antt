-- ===== src/App/Ending/Once.antt =====
-- However many reports there are, an end is announced once.
use wosh.Prelude.{
  ℕ, zero, suc, ◌+◌, ◌≤◌, ◌==◌, ◌≡◌, refl, sym, ◌∙◌, ap, true, List, [], ◌∷◌, ◌++◌, Option, none,
  some, if◌then◌else◌, Bool-cases, ==_iff, codes, inl, inr, arith, Text,
}
use wosh.App.Input.{is_current}
use wosh.App.Ending.{
  Tail, Call, flushed, saved, status_set, detached, marked, dispatched, Terminal, session_ended,
  finish, finish_taken, take_tail, with_head, final_kind, what_ended, detach, Event, dialed,
  reported, answered, left, step, run, fresh,
}

abbrev one : ℕ → ℕ → ℕ
one n m = if m == n then 1 else 0

abbrev announces : ℕ → Call → ℕ
announces n (flushed m) = 0
announces n (saved m key) = 0
announces n (status_set m why) = 0
announces n (detached m) = 0
announces n (marked m what) = 0
announces n (dispatched m why kind code uptime) = one n m

-- How often the end of a session was announced
abbrev pub announced : ℕ → List Call → ℕ
announced n [] = 0
announced n (c ∷ cs) = announces n c + announced n cs

-- How often a session was dialed
abbrev pub dials : ℕ → List Event → ℕ
dials n [] = 0
dials n (dialed m key ∷ es) = one n m + dials n es
dials n (reported m why code uptime ∷ es) = dials n es
dials n (answered i kind ∷ es) = dials n es
dials n (left ∷ es) = dials n es

announced-append :
    (n : ℕ) (cs ds : List Call) → announced n (cs ++ ds) ≡ announced n cs + announced n ds
announced-append n [] ds = omega arith
announced-append n (c ∷ cs) ds = omega (arith, announced-append n cs ds)

abbrev waiting : ℕ → List Tail → ℕ
waiting n [] = 0
waiting n (t ∷ ts) = one n t.session + waiting n ts

waiting-append : (n : ℕ) (ts us : List Tail) → waiting n (ts ++ us) ≡ waiting n ts + waiting n us
waiting-append n [] us = omega arith
waiting-append n (t ∷ ts) us = omega (arith, waiting-append n ts us)

same_split : (p q : Tail × List Tail) → some p ≡ some q → (p.0 ≡ q.0) × (p.1 ≡ q.1)
same_split p q h = (
  ap (λ (r : Tail × List Tail). r.0) (same p q h),
  ap (λ (r : Tail × List Tail). r.1) (same p q h),
)
  where
    same : (p q : Tail × List Tail) → some p ≡ some q → p ≡ q
    same p q h = cc

behind_head :
    (y : Tail) (o : Option (Tail × List Tail)) (x : Tail) (us : List Tail)
    → with_head y o ≡ some (x, us)
    → (vs : List Tail) × ((o ≡ some (x, vs)) × (us ≡ y ∷ vs))
behind_head y none x us h = absurd (cc)
behind_head y (some (z, vs)) x us h =
    let (head, tail) = same_split (z, y ∷ vs) (x, us) h in
    (vs, (ap (λ k. some (k, vs)) head, sym tail))

waiting-take_tail :
    (n i : ℕ) (ts : List Tail) (x : Tail) (us : List Tail)
    → take_tail i ts ≡ some (x, us)
    → waiting n ts ≡ one n x.session + waiting n us
unfolding take_tail
waiting-take_tail n i [] x us h = absurd (cc)
waiting-take_tail n zero (y ∷ ts) x us h =
    let (head, tail) = same_split (y, ts) (x, us) h in
    ap (λ (z : Tail). one n z.session + waiting n ts) head
    ∙ ap (λ zs. one n x.session + waiting n zs) tail
waiting-take_tail n (suc i) (y ∷ ts) x us h =
    let (vs, (found, rest)) = behind_head y (take_tail i ts) x us h in
    let inner = waiting-take_tail n i ts x vs found in
    let whole : waiting n us ≡ one n y.session + waiting n vs = ap (waiting n) rest in
    omega (arith, inner, whole)

abbrev now_open : ℕ → Option ℕ → ℕ
now_open n none = 0
now_open n (some m) = one n m

-- The ends of a session that are announced, wait, or may still come
abbrev due : ℕ → Terminal → ℕ
due n t = announced n t.calls + (waiting n t.tails + now_open n t.current)

now_open-current : (n m : ℕ) (o : Option ℕ) → is_current m o ≡ true → now_open n o ≡ one n m
unfolding is_current
now_open-current n m none h = absurd (cc)
now_open-current n m (some k) h = ap (one n) ((==_iff k m).0 h)

session_ended-due :
    (n m : ℕ) (why : Text) (code uptime : Option ℕ) (t : Terminal)
    → due n (session_ended m why code uptime t) ≤ due n t
unfolding session_ended
session_ended-due n m why code uptime t = elim (Bool-cases (is_current m t.current)) [
  | inl e ↦
      let calls =
        announced-append n t.calls (flushed m ∷ saved m t.persist_key ∷ status_set m why ∷ []) in
      let tails =
        waiting-append n t.tails
          (record { session = m; why = why; code = code; uptime = uptime } ∷ []) in
      rw e (omega (arith, calls, tails, now_open-current n m t.current e))
  | inr e ↦ rw e (omega arith)
]

finish_taken-due :
    (n i : ℕ) (kind : Option Text) (t : Terminal) (o : Option (Tail × List Tail))
    → take_tail i t.tails ≡ o
    → due n (finish_taken o kind t) ≤ due n t
unfolding finish
finish_taken-due n i kind t none h = omega arith
finish_taken-due n i kind t (some (x, xs)) h =
    let kind_now = final_kind kind x.why in
    let calls = announced-append n t.calls (
      marked x.session (what_ended kind_now)
      ∷ dispatched x.session x.why kind_now x.code x.uptime
      ∷ []) in
    omega (arith, calls, waiting-take_tail n i t.tails x xs h)

detach-due : (n : ℕ) (o : Option ℕ) (t : Terminal) → due n (detach o t) ≤ due n t
unfolding detach
detach-due n none t = omega arith
detach-due n (some m) t =
    let calls =
      announced-append n t.calls
        (detached m ∷ status_set m (codes "disconnected") ∷ marked m (codes "disconnected") ∷ []) in
    omega (arith, calls)

run-due : (n : ℕ) (es : List Event) (t : Terminal) → due n (run t es) ≤ due n t + dials n es
unfolding run step
run-due n [] t = omega arith
run-due n (dialed m key ∷ es) t = omega (arith, run-due n es (step t (dialed m key)))
run-due n (reported m why code uptime ∷ es) t = omega (
  arith,
  session_ended-due n m why code uptime t,
  run-due n es (session_ended m why code uptime t),
)
run-due n (answered i kind ∷ es) t = omega (
  arith,
  finish_taken-due n i kind t (take_tail i t.tails) refl,
  run-due n es (finish_taken (take_tail i t.tails) kind t),
)
run-due n (left ∷ es) t = omega (arith, detach-due n t.current t, run-due n es (detach t.current t))

-- However many of the pump, the input and the resizes report the end of a session, in whatever order
-- with dials, detaching and the answers about how it ended, the page announces its end at most once
-- for each time that it was dialed.
announced-le-dials : (n : ℕ) (es : List Event) → announced n (run fresh es).calls ≤ dials n es
announced-le-dials n es = omega (arith, run-due n es fresh)
