-- ===== src/TransferIo/Sink.antt =====
-- `Source` and `Sink`. A call of the worker is one exchange with it here: each reply settles its own
-- call. A number stands for a staging id. What the browser answers to a write and a flush of the
-- worker's handle comes with the call.
use wosh.Prelude.{ℕ, Bool, List, Option, none, some, Text, codes, take, drop}
use wosh.Prelude.Results.{Result, ok, err, err_arm, ◌>>=◌}
use wosh.TransferWorker.{
  Opfs, Message, opening, writing, flushing, committing, closing, Reply, not_open, unknown_op,
  browser_error, Worker, on_message,
}
use wosh.TransferWorker as Staged

-- `slice(start, start + len)` of the picked file, which stops at its end.
unfoldable pub source_read : List ℕ → ℕ → ℕ → List ℕ
source_read file offset len = take len (drop offset file)

-- The worker's files, and the text that an error reply carries.
module _ (fs : Opfs) (text : Reply → Text) where
  -- What a promise is settled with by a reply
  abbrev pub settled_with : Reply → Result (Option ℕ)
  settled_with (Staged.ok r) = ok r
  settled_with not_open = err (text not_open)
  settled_with unknown_op = err (text unknown_op)
  settled_with browser_error = err (text browser_error)

  -- `await call(..)`
  unfoldable pub exchange : ℕ → Message → Worker fs → Result (Option ℕ) × Worker fs
  exchange id m w = let (w', r) = on_message fs id m w in (settled_with r, w')

  -- `new Sink`: what `#opened` comes to
  unfoldable pub new_sink : ℕ → Bool → Bool → Worker fs → Result (Unit {0}) × Worker fs
  unfolding exchange
  new_sink id create granted w =
      let (r, w') = exchange id (opening create granted) w in ((r >>= λ _. ok tt), w')

  -- A method: it waits for `#opened`, and throws what that throws.
  abbrev pub after_opened :
      {A : Type 0}
      → Text
      → (Option ℕ → Result A)
      → ℕ
      → Message
      → Result (Unit {0})
      → Worker fs
      → Result A × Worker fs
  after_opened what finish id m (err e) w = (err e, w)
  after_opened what finish id m (ok _) w =
      let (r, w') = exchange id m w in (err_arm what (r >>= finish), w')

  unfoldable pub sink_write :
      ℕ → List ℕ → Option ℕ → Result (Unit {0}) → Worker fs → Result (Unit {0}) × Worker fs
  unfolding exchange
  sink_write id bytes took opened w =
      after_opened (codes "transfer sink write") (λ _. ok tt) id (writing bytes took) opened w

  -- `BigInt` of what came back
  abbrev pub big_int : Option ℕ → Result ℕ
  big_int (some n) = ok n
  big_int none = err (codes "Cannot convert undefined to a BigInt")

  unfoldable pub committed : ℕ → Result (Unit {0}) → Worker fs → Result ℕ × Worker fs
  unfolding exchange
  committed id opened w =
      after_opened (codes "transfer sink committed") big_int id committing opened w

  unfoldable pub sink_flush :
      ℕ → Bool → Result (Unit {0}) → Worker fs → Result (Unit {0}) × Worker fs
  unfolding exchange
  sink_flush id flushes opened w =
      after_opened (codes "transfer sink flush") (λ _. ok tt) id (flushing flushes) opened w

  -- `[Symbol.dispose]`
  unfoldable pub dispose : ℕ → Worker fs → Worker fs
  unfolding exchange
  dispose id w = (exchange id closing w).1
