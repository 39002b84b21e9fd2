-- ===== src/App/Painter.antt =====
-- Painting: `flush` and `paint` of site/app.mjs, with the callbacks that they schedule. A chunk is
-- the list of its bytes.
pub mod Order
use wosh.Prelude.{
  ℕ, ◌+◌, Bool, true, false, List, [], ◌∷◌, ◌++◌, Option, none, some, if◌then◌else◌, ltb, is_nil,
  length,
}

abbrev pub Chunk : Type 0
Chunk = List ℕ

-- The module's variables. `raf` and `timer` say whether `rafId` and `flushTimer` are set; `written`
-- is what `term.write` was given, in order.
pub record Painter : Type 0 where
  pub chunks : List Chunk
  pub raf : Bool
  pub timer : Bool
  pub peak : ℕ
  pub flushes : ℕ
  pub timer_flushes : ℕ
  pub ever_painted : Bool
  pub dirty : Bool
  pub written : List Chunk

unfoldable pub flush : Bool → Painter → Painter
flush via_timer p = record p {
  raf = false;
  timer = false;
  flushes = p.flushes + 1;
  timer_flushes = if via_timer then p.timer_flushes + 1 else p.timer_flushes;
  written = p.written ++ p.chunks;
  chunks = [];
}

abbrev max_of : ℕ → ℕ → ℕ
max_of peak n = if ltb peak n then n else peak

-- Output that is missing or empty paints nothing.
unfoldable pub paint : Option Chunk → Painter → Painter
paint none p = p
paint (some []) p = p
paint (some (b ∷ bs)) p =
    let queued = p.chunks ++ (b ∷ bs) ∷ [] in
    record p {
      ever_painted = true;
      dirty = true;
      chunks = queued;
      peak = max_of p.peak (length queued);
      raf = true;
      timer = if p.raf then p.timer else true;
    }

-- What happens to the painter: the pump paints, a frame or the timer comes round if it is pending,
-- and the page goes into the background, which flushes what is queued.
pub data Event : Type 0 where
  output : Option Chunk → Event
  frame timeout hidden : Event

unfoldable pub step : Painter → Event → Painter
unfolding flush paint
step p (output out) = paint out p
step p frame = if p.raf then flush false p else p
step p timeout = if p.timer then flush true p else p
step p hidden = if is_nil p.chunks then p else flush true p

unfoldable pub run : Painter → List Event → Painter
unfolding step
run p [] = p
run p (e ∷ es) = run (step p e) es

abbrev pub initial : Painter
initial = record {
  chunks = [];
  raf = false;
  timer = false;
  peak = 0;
  flushes = 0;
  timer_flushes = 0;
  ever_painted = false;
  dirty = false;
  written = [];
}
