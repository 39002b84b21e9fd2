-- ===== src/TransferIo/Rpc.antt =====
-- Calls of the worker, and its replies.
use wosh.Prelude.{ℕ, ◌+◌, ◌==◌, Bool, false, ◌||◌, List, [], ◌∷◌, ◌++◌, if◌then◌else◌}
use wosh.Prelude.Results.{Result}

module _ (V : Type 0) where
  -- `nextReqId`, the keys of `pending`, what was posted, and the promises that were settled, in
  -- order, by the id of their call.
  pub record Rpc : Type 0 where
    pub next_req_id : ℕ
    pub pending : List ℕ
    pub posted : List ℕ
    pub settled : List (ℕ × Result V)

  abbrev pub fresh : Rpc
  fresh = record { next_req_id = 0; pending = []; posted = []; settled = [] }

  -- `Map.has`
  abbrev pub has : ℕ → List ℕ → Bool
  has i [] = false
  has i (j ∷ js) = i == j || has i js

  -- `Map.delete`
  abbrev pub delete : ℕ → List ℕ → List ℕ
  delete i [] = []
  delete i (j ∷ js) = let rest = delete i js in if i == j then js else j ∷ rest

  -- `call`
  unfoldable pub call : Rpc → Rpc
  call s =
      let id : ℕ = s.next_req_id + 1 in
      record {
        next_req_id = id;
        pending = s.pending ++ id ∷ [];
        posted = s.posted ++ id ∷ [];
        settled = s.settled;
      }

  -- A reply to a pending call.
  abbrev pub settle_call : ℕ → Result V → Rpc → Rpc
  settle_call id r s = record s {
    pending = delete id s.pending;
    settled = s.settled ++ (id, r) ∷ [];
  }

  -- The handler of `onmessage`. What `ok`, `result` and `error` say is one result.
  unfoldable pub on_reply : ℕ → Result V → Rpc → Rpc
  on_reply id r s = if has id s.pending then settle_call id r s else s

  pub data Event : Type 0 where
    called : Event
    replied : ℕ → Result V → Event

  unfoldable pub step : Event → Rpc → Rpc
  unfolding call on_reply
  step called s = call s
  step (replied id r) s = on_reply id r s

  unfoldable pub run : List Event → Rpc → Rpc
  unfolding step
  run [] s = s
  run (e ∷ es) s = run es (step e s)
