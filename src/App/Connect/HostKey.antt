-- ===== src/App/Connect/HostKey.antt =====
-- The order of the calls of `connect`: the answer to the host key, the credentials, the pump.
use wosh.Prelude.{
  ◌≡◌, refl, Bool, true, false, ◌&&◌, not, if◌then◌else◌, List, [], ◌∷◌, Option, none, some, arith,
  Bool-cases, inl, inr, Text,
}
use wosh.App.Connect.{
  Status, connecting, host_key_check, auth_prompts, ready, closed, other, malformed, Credential,
  Pending, no_batch, unread, batch_of, auto, publickey, passkey, keyboard_interactive, password,
  Method, Round, World, Call, confirm_host_key, authenticate, answer_prompts, start_pump, Attempt,
  authenticating, answering, at_status, at_poll, typed_password, offer, credentials, by_password,
  first_answer, host_key_gate, past_gate, then_do, ending, fatal, settle, connect,
}

-- Reading a sequence of calls, with what the user answers to the host key: the component is told that
-- answer, a credential or an answer to prompts may stand only behind a confirmation, and the pump only
-- behind a credential. The flags say what has happened before.
unfoldable pub in_order : Bool → Bool → Bool → List Call → Bool
in_order user confirmed offered [] = true
in_order user confirmed offered (confirm_host_key true ∷ cs) = user && in_order user true offered cs
in_order user confirmed offered (confirm_host_key false ∷ cs) =
    not user && in_order user false offered cs
in_order user confirmed offered (authenticate m ∷ cs) = confirmed && in_order user confirmed true cs
in_order user confirmed offered (answer_prompts given ∷ cs) =
    confirmed && offered && in_order user confirmed offered cs
in_order user confirmed offered (start_pump ∷ cs) =
    confirmed && offered && in_order user confirmed offered cs
in_order user confirmed offered (c ∷ cs) = in_order user confirmed offered cs

in_order-at_status :
    (a : Bool) (s : Status) (r : Round) (rest : Attempt)
    → in_order a true true rest.calls ≡ true
    → in_order a true true (at_status s r rest).calls ≡ true
unfolding in_order at_status
in_order-at_status a ready r rest h = refl
in_order-at_status a closed r rest h = refl
in_order-at_status a malformed r rest h = refl
in_order-at_status a connecting r rest h = h
in_order-at_status a host_key_check r rest h = h
in_order-at_status a other r rest h = h
in_order-at_status a auth_prompts r rest h = answered r.batch r.answers r.taken
  where
    answered :
        (b : Pending) (o : Option (List Text)) (taken : Bool)
        → in_order a true true (answering b o taken rest).calls ≡ true
    answered no_batch o taken = h
    answered unread o taken = refl
    answered (batch_of b) none taken = refl
    answered (batch_of b) (some given) true = h
    answered (batch_of b) (some given) false = refl

in_order-authenticating :
    (a : Bool) (rs : List Round) → in_order a true true (authenticating rs).calls ≡ true
unfolding in_order authenticating
in_order-authenticating a [] = refl
in_order-authenticating a (r ∷ rs) =
    in_order-at_status a r.status r (authenticating rs) (in_order-authenticating a rs)

in_order-offer :
    (a : Bool) (m : Method) (w : World) → in_order a true false (offer m w).calls ≡ true
unfolding in_order offer
in_order-offer a m w = elim (Bool-cases w.accepted) [
  | inl e ↦ rw e (in_order-authenticating a w.rounds)
  | inr e ↦ rw e refl
]

in_order-typed_password :
    (a : Bool) (o : Option (List Text)) (w : World)
    → in_order a true false (typed_password o w).calls ≡ true
unfolding in_order typed_password
in_order-typed_password a none w = refl
in_order-typed_password a (some given) w = in_order-offer a (by_password (first_answer given)) w

in_order-credentials :
    (a : Bool) (c : Credential) (w : World) → in_order a true false (credentials c w).calls ≡ true
unfolding credentials
in_order-credentials a auto w = in_order-offer a _ w
in_order-credentials a publickey w = in_order-offer a _ w
in_order-credentials a passkey w = in_order-offer a _ w
in_order-credentials a keyboard_interactive w = in_order-offer a _ w
in_order-credentials a (password (some p)) w = in_order-offer a _ w
in_order-credentials a (password none) w = in_order-typed_password a w.password_answers w

in_order-past_gate : (w : World) → in_order w.confirmed w.confirmed false (past_gate w).calls ≡ true
unfolding in_order past_gate
in_order-past_gate w = elim (Bool-cases w.confirmed) [
  | inl e ↦ simp (e, in_order-credentials true w.credential w)
  | inr e ↦ simp e
]

in_order-host_key_gate :
    (w : World) → in_order w.confirmed false false (host_key_gate w).calls ≡ true
unfolding in_order host_key_gate
in_order-host_key_gate w = told w.fingerprint_read w.confirmed w.gate_passed (in_order-past_gate w)
  where
    told :
        (f a g : Bool)
        → in_order a a false (past_gate w).calls ≡ true
        → in_order a false false
            (if f
              then then_do (confirm_host_key a) (if g then past_gate w else ending fatal)
              else ending fatal).calls
          ≡ true
    told false a g h = refl
    told true true true h = h
    told true false true h = h
    told true true false h = refl
    told true false false h = refl

in_order-settle :
    (ps : List (Status × Bool)) (w : World)
    → in_order w.confirmed false false (settle ps w).calls ≡ true
unfolding in_order settle at_poll
in_order-settle [] w = refl
in_order-settle ((connecting, true) ∷ ps) w = refl
in_order-settle ((connecting, false) ∷ ps) w = in_order-settle ps w
in_order-settle ((host_key_check, late) ∷ ps) w = in_order-host_key_gate w
in_order-settle ((auth_prompts, late) ∷ ps) w = refl
in_order-settle ((ready, late) ∷ ps) w = refl
in_order-settle ((closed, late) ∷ ps) w = refl
in_order-settle ((other, late) ∷ ps) w = refl
in_order-settle ((malformed, late) ∷ ps) w = refl

-- In every attempt, whatever the component and the user answer, rejected calls included: the
-- component is told of the host key what the user answers, credentials and answers to prompts are
-- sent only behind a confirmation, so only where the user confirms, and output is pumped only behind
-- those.
pub in_order-connect : (w : World) → in_order w.confirmed false false (connect w).calls ≡ true
unfolding in_order connect
in_order-connect w = ground (arith, in_order-settle w.polls w)
