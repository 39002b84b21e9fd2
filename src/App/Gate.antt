-- ===== src/App/Gate.antt =====
-- The gate before the component: `serializeSession` and `enterPatiently` of site/app.mjs.
pub mod Queue
pub mod Patience
use wosh.Prelude.{
  ℕ, ◌+◌, ◌*◌, Bool, true, false, List, [], ◌∷◌, ◌++◌, Option, none, some, if◌then◌else◌, ltb, min,
}

-- What one entry into the component gives: a value, the refusal because the instance is busy
-- ("reentrance forbidden"), or another error. A number stands for the value or the message.
pub data Answer : Type 0 where
  value failure : ℕ → Answer
  busy : Answer

-- How `enterPatiently` ends; `waiting` is a call whose next entry has not happened.
pub data Result : Type 0 where
  returned : Answer → Result
  waiting : Result

-- `budgetMs`
abbrev pub budget_ms : ℕ
budget_ms = 15000

-- The loop: each entry comes with its answer and how long it takes, `now` is the clock and `delay`
-- the next wait.
unfoldable pub retry : ℕ → ℕ → ℕ → List (Answer × ℕ) → Result
retry deadline now delay [] = waiting
retry deadline now delay ((value v, took) ∷ es) = returned (value v)
retry deadline now delay ((failure m, took) ∷ es) = returned (failure m)
retry deadline now delay ((busy, took) ∷ es) =
    let rest = retry deadline (now + took + delay) (min (delay * 2) 50) es in
    if ltb deadline (now + took) then returned busy else rest

unfoldable pub enter_patiently : ℕ → List (Answer × ℕ) → Result
unfolding retry
enter_patiently now es = retry (now + budget_ms) now 5 es
