-- ===== src/TransferIo/Staging.antt =====
-- What a sink leaves in its file, and what it says of it.
use wosh.Prelude.{
  ℕ, Bool, true, false, ◌+◌, ◌≡◌, refl, sym, ap, ◌∙◌, subst, List, [], ◌∷◌, ◌++◌, Option, none,
  some, length, Text, codes, append_assoc, append-nil, length-append, ==_refl, arith,
}
use wosh.Prelude.Results.{Result, ok, err, ◌>>=◌}
use wosh.TransferWorker.{
  not_open, closing, Opfs, Message, opening, writing, flushing, committing, Reply, Worker,
  on_message,
}
use wosh.TransferWorker as Staging_worker
use wosh.TransferWorker.Refinement.{
  Staged, missing, closed, opened, IsWhole, Promise, set_staged, promised, IsShown, run-IsShown,
}
use wosh.TransferIo.Sink.{
  dispose, after_opened, big_int, settled_with, exchange, new_sink, sink_write, committed,
  sink_flush,
}

-- The calls that the transfer engine makes of a sink, with how many bytes of a write the browser takes
-- if it does not throw, and whether it flushes.
pub data Op : Type 0 where
  write_of : List ℕ → Option ℕ → Op
  flush_of : Bool → Op
  committed_of : Op

-- The browser takes every write whole and flushes each time.
abbrev pub Succeeds : List Op → Type 0
Succeeds [] = Unit
Succeeds (write_of bytes took ∷ ops) = (took ≡ some (length bytes)) × Succeeds ops
Succeeds (flush_of flushes ∷ ops) = (flushes ≡ true) × Succeeds ops
Succeeds (committed_of ∷ ops) = Succeeds ops

-- The bytes written
abbrev pub written : List Op → List ℕ
written [] = []
written (write_of bytes took ∷ ops) = bytes ++ written ops
written (flush_of flushes ∷ ops) = written ops
written (committed_of ∷ ops) = written ops

-- What `committed` is to say each time, of so many durable bytes and so many in all.
abbrev pub reports : ℕ → ℕ → List Op → List ℕ
reports durable size [] = []
reports durable size (write_of bytes took ∷ ops) = reports durable (size + length bytes) ops
reports durable size (flush_of flushes ∷ ops) = reports size size ops
reports durable size (committed_of ∷ ops) = durable ∷ reports durable size ops

-- A staging file that is not open, if there is one, and its bytes.
abbrev pub unopened : Option (List ℕ) → Staged
unopened none = missing
unopened (some bytes) = closed bytes

abbrev pub found : Option (List ℕ) → List ℕ
found none = []
found (some bytes) = bytes

-- One call after another, until one throws.
abbrev pub and_then : {W A B : Type 0} → Result A × W → (A → W → Result B × W) → Result B × W
and_then (ok a, w) k = k a w
and_then (err e, w) k = (err e, w)

abbrev pub said : {W : Type 0} → ℕ → Result (List ℕ) × W → Result (List ℕ) × W
said n (r, w) = ((r >>= λ ns. ok (n ∷ ns)), w)

abbrev first_of : List Reply → Reply
first_of [] = not_open
first_of (r ∷ rs) = r

module _ (fs : Opfs) (text : Reply → Text) where
  -- A transfer: what `committed` said, if nothing throws.
  unfoldable pub transfer :
      ℕ → Result (Unit {0}) → List Op → Worker fs → Result (List ℕ) × Worker fs
  unfolding sink_write sink_flush committed
  transfer id sink [] w = (ok [], w)
  transfer id sink (write_of bytes took ∷ ops) w =
      and_then (sink_write fs text id bytes took sink w) (λ _ w'. transfer id sink ops w')
  transfer id sink (flush_of flushes ∷ ops) w =
      and_then (sink_flush fs text id flushes sink w) (λ _ w'. transfer id sink ops w')
  transfer id sink (committed_of ∷ ops) w =
      and_then (committed fs text id sink w) (λ n w'. said n (transfer id sink ops w'))

  -- One exchange with a worker that shows what it promises.
  exchange-IsShown :
      (id : ℕ) (m : Message) (w : Worker fs) (p : Promise)
      → IsWhole m
      → IsShown fs w p
      → IsShown fs (exchange fs text id m w).1 (set_staged p id (promised m (p id)).0)
        × ((exchange fs text id m w).0 ≡ settled_with fs text (promised m (p id)).1)
  unfolding exchange Staging_worker.run
  exchange-IsShown id m w p a h =
      let (shown, replies) = run-IsShown fs ((id, m) ∷ []) w p (a, tt) h in
      (shown, ap (λ rs. settled_with fs text (first_of rs)) replies)

  -- The worker shows the id as it is to be.
  abbrev pub IsShownAs : ℕ → Staged → Worker fs → Type 0
  IsShownAs id s w = (p : Promise) × IsShown fs w p × (p id ≡ s)

  step-IsShownAs :
      (id : ℕ) (m : Message) (s : Staged) (w : Worker fs)
      → IsWhole m
      → IsShownAs id s w
      → IsShownAs id (promised m s).0 (exchange fs text id m w).1
        × ((exchange fs text id m w).0 ≡ settled_with fs text (promised m s).1)
  step-IsShownAs id m s w a (p, shown, e) =
      let (after, reply) = exchange-IsShown id m w p a shown in
      (
        (_, after, set_here p id (promised m (p id)).0 ∙ ap (λ s. (promised m s).0) e),
        reply ∙ ap (λ s. settled_with fs text (promised m s).1) e,
      )
    where
      set_here : (p : Promise) (id : ℕ) (s : Staged) → set_staged p id s id ≡ s
      set_here p id s = rw (==_refl id) refl

  after_opened_ok :
      {A : Type 0} (what : Text) (finish : Option ℕ → Result A) (id : ℕ) (m : Message)
      (w : Worker fs) {r : Option ℕ} {a : A}
      → (exchange fs text id m w).0 ≡ ok r
      → finish r ≡ ok a
      → after_opened fs text what finish id m (ok tt) w ≡ (ok a, (exchange fs text id m w).1)
  after_opened_ok what finish id m w e f = rw e (rw f refl)

  abbrev pub IsTransferred : ℕ → List ℕ → List ℕ → Result (List ℕ) × Worker fs → Type 0
  IsTransferred id bytes says out =
      (k : ℕ) × IsShownAs id (opened bytes k) out.1 × (out.0 ≡ ok says)

  IsTransferred-said :
      (id n : ℕ) (bytes says : List ℕ) (out : Result (List ℕ) × Worker fs)
      → IsTransferred id bytes says out
      → IsTransferred id bytes (n ∷ says) (said n out)
  IsTransferred-said id n bytes says (r, w) (k, shown, e) = (k, shown, rw e refl)

  -- A transfer that is under way, with writes and flushes that succeed, throws nothing; what it wrote is at the end of its file, and each
  -- report of `committed` is what it is to be.
  pub transfer-IsTransferred :
      (id : ℕ) (ops : List Op) (bytes : List ℕ) (n : ℕ) (w : Worker fs)
      → Succeeds ops
      → IsShownAs id (opened bytes n) w
      → IsTransferred id
          (bytes ++ written ops)
          (reports n (length bytes) ops)
          (transfer id (ok tt) ops w)
  unfolding transfer
  transfer-IsTransferred id [] bytes n w a h =
      (n, subst (λ b. IsShownAs id (opened b n) w) (sym (append-nil bytes)) h, refl)
  transfer-IsTransferred id (write_of more none ∷ ops) bytes n w (a, b) h = absurd (cc)
  transfer-IsTransferred id (write_of more (some took) ∷ ops) bytes n w (a, b) h =
      let w1 : Worker fs = (exchange fs text id (writing more (some took)) w).1 in
      let (o, e) =
        step-IsShownAs id (writing more (some took)) (opened bytes n) w (ground (arith, a)) h in
      let rest =
        subst
          (λ b.
            IsTransferred id b (reports n (length (bytes ++ more)) ops)
              (transfer id (ok tt) ops w1))
          (append_assoc bytes more (written ops))
          (transfer-IsTransferred id ops (bytes ++ more) n w1 b o) in
      subst
        (λ x.
          IsTransferred id (bytes ++ (more ++ written ops))
            (reports n (length bytes + length more) ops)
            (and_then x (λ _ w'. transfer id (ok tt) ops w')))
        (sym (
          after_opened_ok (codes "transfer sink write") (λ _. ok tt) id (writing more (some took)) w
            e refl))
        (subst
          (λ l.
            IsTransferred id (bytes ++ (more ++ written ops)) (reports n l ops)
              (transfer id (ok tt) ops w1))
          (length-append bytes more) rest)
  transfer-IsTransferred id (flush_of false ∷ ops) bytes n w (a, b) h = absurd (cc)
  transfer-IsTransferred id (flush_of true ∷ ops) bytes n w (a, b) h =
      let (o, e) = step-IsShownAs id (flushing true) (opened bytes n) w tt h in
      subst
        (λ x.
          IsTransferred id (bytes ++ written ops) (reports (length bytes) (length bytes) ops)
            (and_then x (λ _ w'. transfer id (ok tt) ops w')))
        (sym
          (after_opened_ok (codes "transfer sink flush") (λ _. ok tt) id (flushing true) w e refl))
        (transfer-IsTransferred id ops bytes (length bytes) _ b o)
  transfer-IsTransferred id (committed_of ∷ ops) bytes n w b h =
      let (o, e) = step-IsShownAs id committing (opened bytes n) w tt h in
      subst
        (λ x.
          IsTransferred id (bytes ++ written ops) (n ∷ reports n (length bytes) ops)
            (and_then x (λ k w'. said k (transfer id (ok tt) ops w'))))
        (sym (
          after_opened_ok (codes "transfer sink committed") (big_int fs text) id committing w e
            refl))
        (IsTransferred-said id n _ _ _ (transfer-IsTransferred id ops bytes n _ b o))

  new_sink_opened :
      (id : ℕ) (f : Option (List ℕ)) (w : Worker fs)
      → IsShownAs id (unopened f) w
      → (new_sink fs text id true true w).0 ≡ ok tt
        × IsShownAs id (opened (found f) (length (found f))) (new_sink fs text id true true w).1
  unfolding new_sink
  new_sink_opened id none w h =
      let (shown, e) = step-IsShownAs id (opening true true) missing w tt h in (rw e refl, shown)
  new_sink_opened id (some bytes) w h =
      let (shown, e) = step-IsShownAs id (opening true true) (closed bytes) w tt h in
      (rw e refl, shown)

  -- `new Sink`, a transfer and the drop of the sink
  abbrev pub download : ℕ → List Op → Worker fs → Result (List ℕ) × Worker fs
  download id ops w =
      let (sink, w1) = new_sink fs text id true true w in
      let (rs, w2) = transfer id sink ops w1 in (rs, dispose fs text id w2)

  download_from :
      (id : ℕ) (ops : List Op) (bytes : List ℕ) (sink : Result (Unit {0})) (w : Worker fs)
      → sink ≡ ok tt
      → Succeeds ops
      → IsShownAs id (opened bytes (length bytes)) w
      → (transfer id sink ops w).0 ≡ ok (reports (length bytes) (length bytes) ops)
        × IsShownAs id
            (closed (bytes ++ written ops))
            (dispose fs text id (transfer id sink ops w).1)
  unfolding dispose
  download_from id ops bytes sink w e a shown =
      let (k, after, said_) = transfer-IsTransferred id ops bytes (length bytes) w a shown in
      rw e (said_, (step-IsShownAs id closing (opened (bytes ++ written ops) k) _ tt after).0)

  -- A download into a staging file that is not open, where the browser grants access to it, takes every
  -- write whole and flushes each time: no call of the sink throws; each time `committed` says how many
  -- bytes there were at the last flush, or when the file was opened; and the file is left closed, with
  -- what was there and then all that was written, in order.
  pub download-IsStaged :
      (id : ℕ) (ops : List Op) (f : Option (List ℕ)) (w : Worker fs)
      → Succeeds ops
      → IsShownAs id (unopened f) w
      → (download id ops w).0 ≡ ok (reports (length (found f)) (length (found f)) ops)
        × IsShownAs id (closed (found f ++ written ops)) (download id ops w).1
  download-IsStaged id ops f w a h =
      let (e, shown) = new_sink_opened id f w h in download_from id ops (found f) _ _ e a shown
