-- ===== src/App/Gate/Queue.antt =====
-- The promise chain of `serializeSession`: at most one call has its turn, in the order of the calls,
-- and a failed call does not jam those behind it.
use wosh.Prelude.{
  ℕ, ◌+◌, ◌≤◌, ◌==◌, ==_iff, ◌≡◌, ◌≢◌, ◌⊎◌, inl, inr, refl, Bool, true, List, [], ◌∷◌, ◌++◌,
  Bool-cases, arith,
}

-- A call of a wrapped method: it waits for its predecessor, it has its turn in `enterPatiently`, or
-- it has ended, well or not.
pub data Phase : Type 0 where
  queued inside : Phase
  settled : Bool → Phase

-- The calls of a session in the order in which they were made. A call's turn begins when the call
-- before it, which was the `chain` at that moment, has ended either way.
pub data Step : List Phase → List Phase → Type 0 where
  called : {q : List Phase} → Step q (q ++ queued ∷ [])
  began_first : {q : List Phase} → Step (queued ∷ q) (inside ∷ q)
  began :
      (before after : List Phase) (ok : Bool)
      → Step (before ++ settled ok ∷ queued ∷ after) (before ++ settled ok ∷ inside ∷ after)
  ended :
      (before after : List Phase) (ok : Bool)
      → Step (before ++ inside ∷ after) (before ++ settled ok ∷ after)

pub data Reached : List Phase → Type 0 where
  start : Reached []
  also : {q r : List Phase} → Reached q → Step q r → Reached r

abbrev pub AreQueued : List Phase → Type 0
AreQueued [] = Unit
AreQueued (queued ∷ q) = AreQueued q
AreQueued (inside ∷ q) = ⊥
AreQueued (settled ok ∷ q) = ⊥

-- The calls that have ended, then at most one that has its turn, then those that wait.
abbrev pub IsInFile : List Phase → Type 0
IsInFile [] = Unit
IsInFile (settled ok ∷ q) = IsInFile q
IsInFile (inside ∷ q) = AreQueued q
IsInFile (queued ∷ q) = AreQueued q

AreQueued-append : (q : List Phase) → AreQueued q → AreQueued (q ++ queued ∷ [])
AreQueued-append [] h = tt
AreQueued-append (queued ∷ q) h = AreQueued-append q h
AreQueued-append (inside ∷ q) h = elim h [ ]
AreQueued-append (settled ok ∷ q) h = elim h [ ]

called-IsInFile : (q : List Phase) → IsInFile q → IsInFile (q ++ queued ∷ [])
called-IsInFile [] h = tt
called-IsInFile (settled ok ∷ q) h = called-IsInFile q h
called-IsInFile (inside ∷ q) h = AreQueued-append q h
called-IsInFile (queued ∷ q) h = AreQueued-append q h

-- A call that has begun stands behind no call that waits.
not_queued_past :
    (before after : List Phase) (x : Phase) → x ≢ queued → AreQueued (before ++ x ∷ after) → ⊥
not_queued_past [] after queued h hq = h refl
not_queued_past [] after inside h hq = hq
not_queued_past [] after (settled ok) h hq = hq
not_queued_past (queued ∷ before) after x h hq = not_queued_past before after x h hq
not_queued_past (inside ∷ before) after x h hq = hq
not_queued_past (settled ok ∷ before) after x h hq = hq

began-IsInFile :
    (before after : List Phase) (ok : Bool)
    → IsInFile (before ++ settled ok ∷ queued ∷ after)
    → IsInFile (before ++ settled ok ∷ inside ∷ after)
began-IsInFile [] after ok h = h
began-IsInFile (settled b ∷ before) after ok h = began-IsInFile before after ok h
began-IsInFile (inside ∷ before) after ok h =
    absurd (not_queued_past before (queued ∷ after) (settled ok) (ground arith) h)
began-IsInFile (queued ∷ before) after ok h =
    absurd (not_queued_past before (queued ∷ after) (settled ok) (ground arith) h)

AreQueued-IsInFile : (q : List Phase) → AreQueued q → IsInFile q
AreQueued-IsInFile [] h = tt
AreQueued-IsInFile (queued ∷ q) h = h
AreQueued-IsInFile (inside ∷ q) h = elim h [ ]
AreQueued-IsInFile (settled ok ∷ q) h = elim h [ ]

ended-IsInFile :
    (before after : List Phase) (ok : Bool)
    → IsInFile (before ++ inside ∷ after)
    → IsInFile (before ++ settled ok ∷ after)
ended-IsInFile [] after ok h = AreQueued-IsInFile after h
ended-IsInFile (settled b ∷ before) after ok h = ended-IsInFile before after ok h
ended-IsInFile (inside ∷ before) after ok h =
    absurd (not_queued_past before after inside (ground arith) h)
ended-IsInFile (queued ∷ before) after ok h =
    absurd (not_queued_past before after inside (ground arith) h)

Reached-IsInFile : (q : List Phase) → Reached q → IsInFile q
Reached-IsInFile q start = tt
Reached-IsInFile q (also r (called {q = p})) = called-IsInFile p (Reached-IsInFile p r)
Reached-IsInFile q (also r began_first) = Reached-IsInFile _ r
Reached-IsInFile q (also r (began before after ok)) =
    began-IsInFile before after ok (Reached-IsInFile _ r)
Reached-IsInFile q (also r (ended before after ok)) =
    ended-IsInFile before after ok (Reached-IsInFile _ r)

-- What is left to do: two steps for a call that waits, one for a call that has its turn.
abbrev pub work : List Phase → ℕ
work [] = 0
work (queued ∷ q) = 2 + work q
work (inside ∷ q) = 1 + work q
work (settled ok ∷ q) = work q

-- A step that is not a new call.
pub Progress : List Phase → Type 0
Progress q = (r : List Phase) × Step q r × (work q ≡ 1 + work r)

work-append : (q : List Phase) → work (q ++ queued ∷ []) ≡ 2 + work q
work-append [] = refl
work-append (settled ok ∷ q) = work-append q
work-append (inside ∷ q) = ground (arith, work-append q)
work-append (queued ∷ q) = ground (arith, work-append q)

-- What can go on can go on behind a call that has ended, well or not.
Step-behind :
    (ok : Bool) {q r : List Phase}
    → Step q r
    → (work q ≡ 1 + work r)
    → Step (settled ok ∷ q) (settled ok ∷ r)
Step-behind ok (called {q}) e = called
Step-behind ok (began_first {q}) e = began [] q ok
Step-behind ok (began before after b) e = began (settled ok ∷ before) after b
Step-behind ok (ended before after b) e = ended (settled ok ∷ before) after b

progress : (q : List Phase) → IsInFile q → (work q ≡ 0 → ⊥) → Progress q
unfolding Progress
progress [] h n = absurd (n refl)
progress (queued ∷ q) h n = (inside ∷ q, began_first, omega arith)
progress (inside ∷ q) h n = (settled true ∷ q, ended [] q true, omega arith)
progress (settled ok ∷ q) h n =
    let (r, s, e) = progress q h n in (settled ok ∷ r, Step-behind ok s e, e)

abbrev pub inside_count : List Phase → ℕ
inside_count [] = 0
inside_count (inside ∷ q) = 1 + inside_count q
inside_count (queued ∷ q) = inside_count q
inside_count (settled ok ∷ q) = inside_count q

AreQueued-inside_count : (q : List Phase) → AreQueued q → inside_count q ≡ 0
AreQueued-inside_count [] h = refl
AreQueued-inside_count (queued ∷ q) h = AreQueued-inside_count q h
AreQueued-inside_count (inside ∷ q) h = elim h [ ]
AreQueued-inside_count (settled ok ∷ q) h = elim h [ ]

inside_count-le_one : (q : List Phase) → IsInFile q → inside_count q ≤ 1
inside_count-le_one [] h = omega arith
inside_count-le_one (queued ∷ q) h = ground (arith, AreQueued-inside_count q h)
inside_count-le_one (inside ∷ q) h = ground (arith, AreQueued-inside_count q h)
inside_count-le_one (settled ok ∷ q) h = inside_count-le_one q h

-- At any moment the calls stand in file, in the order in which they were made: those that have
-- ended, at most one that has its turn, and those that wait; and as long as a call has not ended,
-- one more can begin or end, whatever the calls before it came to.
pub Reached-single_file :
    (q : List Phase) → Reached q → IsInFile q × (inside_count q ≤ 1) × ((work q ≡ 0) ⊎ Progress q)
Reached-single_file q r =
    let h = Reached-IsInFile q r in
    (
      h,
      inside_count-le_one q h,
      (elim (Bool-cases (work q == 0)) [
        | inl e ↦ inl ((==_iff (work q) 0).0 e)
        | inr e ↦ inr (progress q h (ground arith))
      ]),
    )
