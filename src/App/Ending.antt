-- ===== src/App/Ending.antt =====
-- The end of a session: `sessionEnded` and `detach` of site/app.mjs. A number stands for a session;
-- the pump, the input and a resize may each report the end of one. The closing rule and the event that
-- follow the answer about the kind are one step.
pub mod Once
pub mod Announced
mod Tests
use wosh.Prelude.{
  ℕ, zero, suc, ◌==◌, Bool, true, false, ◌&&◌, List, [], ◌∷◌, ◌++◌, Option, none, some,
  if◌then◌else◌, Text, codes, text_eq, includes,
}
use wosh.App.Input.{is_current}

-- What waits for `closeKindRaw`
pub record Tail : Type 0 where
  pub session : ℕ
  pub why : Text
  pub code : Option ℕ
  pub uptime : Option ℕ

-- The calls that are made, with the session that they are about.
pub data Call : Type 0 where
  flushed : ℕ → Call
  saved : ℕ → Option Text → Call
  status_set : ℕ → Text → Call
  detached : ℕ → Call
  marked : ℕ → Text → Call
  dispatched : ℕ → Text → Option Text → Option ℕ → Option ℕ → Call

-- `currentSession`, `currentPersistKey`, whether `clientLoad` holds an instance, the tails that wait,
-- and the calls so far.
pub record Terminal : Type 0 where
  pub current : Option ℕ
  pub persist_key : Option Text
  pub client_load : Bool
  pub tails : List Tail
  pub calls : List Call

-- `sessionEnded` up to its tail
unfoldable pub session_ended : ℕ → Text → Option ℕ → Option ℕ → Terminal → Terminal
unfolding is_current
session_ended n why code uptime t =
    if is_current n t.current
    then record t {
      current = none;
      persist_key = none;
      tails = t.tails ++ record { session = n; why = why; code = code; uptime = uptime } ∷ [];
      calls = t.calls ++ (flushed n ∷ saved n t.persist_key ∷ status_set n why ∷ []);
    }
    else t

-- `/reentrance forbidden/` where the kind is not known
unfoldable pub is_poisoned : Option Text → Text → Bool
unfolding includes
is_poisoned none why = includes (codes "reentrance forbidden") why
is_poisoned (some kind) why = false

abbrev pub final_kind : Option Text → Text → Option Text
final_kind kind why = if is_poisoned kind why then some (codes "lost") else kind

unfoldable pub what_ended : Option Text → Text
unfolding text_eq
what_ended none = codes "session ended"
what_ended (some kind) =
    if text_eq kind (codes "lost")
    then codes "session lost"
    else if text_eq kind (codes "failed")
    then codes "session failed"
    else codes "session ended"

-- The tail, once the kind is known; `none` is a call that threw or is not there.
unfoldable pub finish : Tail → Option Text → Terminal → Terminal
unfolding is_poisoned what_ended
finish tail kind t = record t {
  client_load = if is_poisoned kind tail.why then false else t.client_load;
  calls =
      t.calls
      ++ (marked tail.session (what_ended (final_kind kind tail.why))
          ∷ dispatched tail.session tail.why (final_kind kind tail.why) tail.code tail.uptime
          ∷ []);
}

abbrev pub with_head : Tail → Option (Tail × List Tail) → Option (Tail × List Tail)
with_head x none = none
with_head x (some (y, ys)) = some (y, x ∷ ys)

-- The tail at a position, and the others
unfoldable pub take_tail : ℕ → List Tail → Option (Tail × List Tail)
take_tail i [] = none
take_tail zero (x ∷ xs) = some (x, xs)
take_tail (suc i) (x ∷ xs) = with_head x (take_tail i xs)

abbrev finish_taken : Option (Tail × List Tail) → Option Text → Terminal → Terminal
finish_taken none kind t = t
finish_taken (some (x, xs)) kind t = finish x kind (record t { tails = xs })

-- `detach`, whether or not the component's call throws
unfoldable pub detach : Option ℕ → Terminal → Terminal
detach none t = t
detach (some n) t = record t {
  current = none;
  calls =
      t.calls
      ++ (detached n ∷ status_set n (codes "disconnected") ∷ marked n (codes "disconnected") ∷ []);
}

-- A dial gives a session, with a key and the instance loaded; an end is reported; the kind of one of
-- the waiting tails is answered, in any order; the user detaches.
pub data Event : Type 0 where
  dialed : ℕ → Option Text → Event
  reported : ℕ → Text → Option ℕ → Option ℕ → Event
  answered : ℕ → Option Text → Event
  left : Event

unfoldable pub step : Terminal → Event → Terminal
unfolding session_ended finish take_tail detach
step t (dialed n key) = record t { current = some n; persist_key = key; client_load = true }
step t (reported n why code uptime) = session_ended n why code uptime t
step t (answered i kind) = finish_taken (take_tail i t.tails) kind t
step t left = detach t.current t

unfoldable pub run : Terminal → List Event → Terminal
unfolding step
run t [] = t
run t (e ∷ es) = run (step t e) es

abbrev pub fresh : Terminal
fresh = record { current = none; persist_key = none; client_load = false; tails = []; calls = [] }
