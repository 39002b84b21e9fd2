-- ===== src/App/Gate/Patience.antt =====
-- A call retries while the component is busy, and not for long.
use wosh.Prelude.{
  ℕ, ◌+◌, ◌*◌, ◌≤◌, ◌<◌, ◌≡◌, ◌≢◌, refl, List, [], ◌∷◌, ◌++◌, if◌then◌else◌, ltb, leb, min, length,
  arith, Bool-cases, inl, inr,
}
use wosh.App.Gate.{
  Answer, value, failure, busy, returned, waiting, budget_ms, retry, enter_patiently,
}

-- The clock after refusals, each with its wait.
abbrev pub clock : ℕ → ℕ → List ℕ → ℕ
clock now delay [] = now
clock now delay (took ∷ ts) = clock (now + took + delay) (min (delay * 2) 50) ts

abbrev pub refusals : List ℕ → List (Answer × ℕ)
refusals [] = []
refusals (took ∷ ts) = (busy, took) ∷ refusals ts

-- Each of the refusals came before the deadline.
abbrev pub InTime : ℕ → ℕ → ℕ → List ℕ → Type 0
InTime deadline now delay [] = Unit
InTime deadline now delay (took ∷ ts) =
    (now + took ≤ deadline) × InTime deadline (now + took + delay) (min (delay * 2) 50) ts

retry_past :
    (deadline now delay : ℕ) (ts : List ℕ) (a : Answer) (took : ℕ) (es : List (Answer × ℕ))
    → a ≢ busy
    → InTime deadline now delay ts
    → retry deadline now delay (refusals ts ++ (a, took) ∷ es) ≡ returned a
unfolding retry
retry_past deadline now delay [] (value v) took es h hs = refl
retry_past deadline now delay [] (failure m) took es h hs = refl
retry_past deadline now delay [] busy took es h hs = absurd (h refl)
retry_past deadline now delay (t ∷ ts) a took es h hs =
    ground
      (arith, retry_past deadline (now + t + delay) (min (delay * 2) 50) ts a took es h hs.1, hs.0)

-- A call whose refusals all come within its budget returns what the first entry gives that is not
-- refused, whatever would follow.
enter_patiently_past :
    (now : ℕ) (ts : List ℕ) (a : Answer) (took : ℕ) (es : List (Answer × ℕ))
    → a ≢ busy
    → InTime (now + budget_ms) now 5 ts
    → enter_patiently now (refusals ts ++ (a, took) ∷ es) ≡ returned a
unfolding enter_patiently
enter_patiently_past now ts a took es h hs = retry_past (now + budget_ms) now 5 ts a took es h hs

-- What the waits fall short of fifty milliseconds from a delay on, in all.
lost : ℕ → ℕ
lost d =
    if leb 50 d
    then 0
    else if leb 40 d
    then 10
    else if leb 20 d
    then 40
    else if leb 10 d
    then 80
    else 125

lost-min : (d : ℕ) → 5 ≤ d → d ≤ 50 → 50 + lost (min (d * 2) 50) ≤ lost d + d
unfolding lost
lost-min d h hu = ground arith

retry_ends :
    (deadline now delay : ℕ) (es : List (Answer × ℕ))
    → 5 ≤ delay
    → delay ≤ 50
    → now ≤ deadline + 50
    → deadline + 50 + lost delay < now + 50 * length es
    → retry deadline now delay es ≢ waiting
unfolding retry
retry_ends deadline now delay [] hd hu hn h = absurd (omega arith)
retry_ends deadline now delay ((value v, took) ∷ es) hd hu hn h = ground arith
retry_ends deadline now delay ((failure m, took) ∷ es) hd hu hn h = ground arith
retry_ends deadline now delay ((busy, took) ∷ es) hd hu hn h =
    elim (Bool-cases (ltb deadline (now + took))) [
      | inl e ↦ rw e (ground arith)
      | inr e ↦ rw e (
          retry_ends deadline (now + took + delay) (min (delay * 2) 50) es (omega arith)
            (omega arith) (ground arith) (ground (arith, lost-min delay hd hu)))
    ]

-- However long the component stays busy, a call enters it at most 304 times: with that many
-- answers it has returned.
pub enter_patiently_ends :
    (now : ℕ) (es : List (Answer × ℕ)) → 304 ≤ length es → enter_patiently now es ≢ waiting
unfolding enter_patiently lost
enter_patiently_ends now es h =
    retry_ends (now + budget_ms) now 5 es (omega arith) (omega arith) (omega arith) (omega arith)
