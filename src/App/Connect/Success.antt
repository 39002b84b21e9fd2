-- ===== src/App/Connect/Success.antt =====
-- When an attempt to connect comes to its pump.
use wosh.Prelude.{
  ◌≡◌, ◌↔◌, Bool, true, false, List, [], ◌∷◌, Option, none, some, arith, ◌⊎◌, Bool-cases, inl, inr,
  Text,
}
use wosh.App.Connect.{
  Status, connecting, host_key_check, auth_prompts, ready, closed, other, malformed, Credential,
  auto, publickey, passkey, keyboard_interactive, password, Method, Round, World, connected,
  Attempt, authenticating, answering, at_status, at_poll, typed_password, offer, credentials,
  host_key_gate, past_gate, Pending, no_batch, unread, batch_of, settle, connect, by_auto,
  by_publickey, by_passkey, by_interactive, by_password, first_answer,
}

-- The component comes to the host-key check before the deadline, and to nothing else before.
abbrev pub ReachesGate : List (Status × Bool) → Type 0
ReachesGate [] = ⊥
ReachesGate ((connecting, late) ∷ ps) = (late ≡ false) × ReachesGate ps
ReachesGate ((host_key_check, late) ∷ ps) = Unit
ReachesGate ((s, late) ∷ ps) = ⊥

-- The batch can be read, and one that is pending is answered with what the component takes.
abbrev pub IsAnswered : Pending → Option (List Text) → Bool → Type 0
IsAnswered no_batch given taken = Unit
IsAnswered unread given taken = ⊥
IsAnswered (batch_of b) none taken = ⊥
IsAnswered (batch_of b) (some given) taken = taken ≡ true

abbrev pub Continues : Status → Pending → Option (List Text) → Bool → Type 0
Continues closed batch given taken = ⊥
Continues malformed batch given taken = ⊥
Continues auth_prompts batch given taken = IsAnswered batch given taken
Continues s batch given taken = Unit

-- The component becomes ready, and until then no poll fails, it does not close, and each batch is
-- read, answered and taken.
abbrev pub ReachesReady : List Round → Type 0
ReachesReady [] = ⊥
ReachesReady (r ∷ rs) =
    (r.status ≡ ready) ⊎ (Continues r.status r.batch r.answers r.taken × ReachesReady rs)

-- A credential is at hand: only a password that was not given has to be typed.
abbrev pub HasCredential : Credential → Option (List Text) → Type 0
HasCredential (password none) none = ⊥
HasCredential c given = Unit

at_status-connected_iff :
    (s : Status) (r : Round) (rest : Attempt) (P : Type 0)
    → ((rest.outcome ≡ connected) ↔ P)
    → ((at_status s r rest).outcome ≡ connected)
      ↔ ((s ≡ ready) ⊎ (Continues s r.batch r.answers r.taken × P))
unfolding at_status answering
at_status-connected_iff ready r rest P h = ground arith
at_status-connected_iff closed r rest P h = ground arith
at_status-connected_iff malformed r rest P h = ground arith
at_status-connected_iff connecting r rest P h = ground arith
at_status-connected_iff host_key_check r rest P h = ground arith
at_status-connected_iff other r rest P h = ground arith
at_status-connected_iff auth_prompts r rest P h = answered r.batch r.answers r.taken
  where
    answered :
        (b : Pending) (o : Option (List Text)) (taken : Bool)
        → ((answering b o taken rest).outcome ≡ connected)
          ↔ ((auth_prompts ≡ ready) ⊎ (IsAnswered b o taken × P))
    answered no_batch o taken = ground arith
    answered unread o taken = ground arith
    answered (batch_of b) none taken = ground arith
    answered (batch_of b) (some given) true = ground arith
    answered (batch_of b) (some given) false = ground arith

authenticating-connected_iff :
    (rs : List Round) → ((authenticating rs).outcome ≡ connected) ↔ ReachesReady rs
unfolding authenticating
authenticating-connected_iff [] = ground arith
authenticating-connected_iff (r ∷ rs) =
    at_status-connected_iff r.status r (authenticating rs) (ReachesReady rs)
      (authenticating-connected_iff rs)

offer-connected_iff :
    (m : Method) (w : World)
    → ((offer m w).outcome ≡ connected) ↔ ((w.accepted ≡ true) × ReachesReady w.rounds)
unfolding offer
offer-connected_iff m w = elim (Bool-cases w.accepted) [
  | inl e ↦ ground (arith, authenticating-connected_iff w.rounds)
  | inr e ↦ ground arith
]

typed_password-connected_iff :
    (o : Option (List Text)) (w : World)
    → ((typed_password o w).outcome ≡ connected)
      ↔ (HasCredential (password none) o × (w.accepted ≡ true) × ReachesReady w.rounds)
unfolding typed_password
typed_password-connected_iff none w = ground arith
typed_password-connected_iff (some given) w =
    ground (arith, offer-connected_iff (by_password (first_answer given)) w)

credentials-connected_iff :
    (c : Credential) (w : World)
    → ((credentials c w).outcome ≡ connected)
      ↔ (HasCredential c w.password_answers × (w.accepted ≡ true) × ReachesReady w.rounds)
unfolding credentials
credentials-connected_iff auto w = ground (arith, offer-connected_iff by_auto w)
credentials-connected_iff publickey w = ground (arith, offer-connected_iff by_publickey w)
credentials-connected_iff passkey w = ground (arith, offer-connected_iff by_passkey w)
credentials-connected_iff keyboard_interactive w =
    ground (arith, offer-connected_iff by_interactive w)
credentials-connected_iff (password (some p)) w =
    ground (arith, offer-connected_iff (by_password p) w)
credentials-connected_iff (password none) w = typed_password-connected_iff w.password_answers w

abbrev pub Authenticates : World → Type 0
Authenticates w =
    HasCredential w.credential w.password_answers × (w.accepted ≡ true) × ReachesReady w.rounds

-- The fingerprint can be read, the user confirms it, and the component takes the answer.
abbrev pub Confirms : World → Type 0
Confirms w = (w.fingerprint_read ≡ true) × (w.confirmed ≡ true) × (w.gate_passed ≡ true)

past_gate-connected_iff :
    (w : World) → ((past_gate w).outcome ≡ connected) ↔ ((w.confirmed ≡ true) × Authenticates w)
unfolding past_gate
past_gate-connected_iff w = elim (Bool-cases w.confirmed) [
  | inl e ↦ ground (arith, credentials-connected_iff w.credential w)
  | inr e ↦ ground arith
]

host_key_gate-connected_iff :
    (w : World) → ((host_key_gate w).outcome ≡ connected) ↔ (Confirms w × Authenticates w)
unfolding host_key_gate
host_key_gate-connected_iff w = elim (Bool-cases w.fingerprint_read) [
  | inl e ↦ elim (Bool-cases w.gate_passed) [
    | inl f ↦ rw (e, f) (ground (arith, past_gate-connected_iff w))
    | inr f ↦ rw (e, f) (ground arith)
  ]
  | inr e ↦ rw e (ground arith)
]

settle-connected_iff :
    (ps : List (Status × Bool)) (w : World)
    → ((settle ps w).outcome ≡ connected) ↔ (ReachesGate ps × Confirms w × Authenticates w)
unfolding settle at_poll
settle-connected_iff [] w = ground arith
settle-connected_iff ((connecting, true) ∷ ps) w = ground arith
settle-connected_iff ((connecting, false) ∷ ps) w = ground (arith, settle-connected_iff ps w)
settle-connected_iff ((host_key_check, late) ∷ ps) w = ground (arith, host_key_gate-connected_iff w)
settle-connected_iff ((auth_prompts, late) ∷ ps) w = ground arith
settle-connected_iff ((ready, late) ∷ ps) w = ground arith
settle-connected_iff ((closed, late) ∷ ps) w = ground arith
settle-connected_iff ((other, late) ∷ ps) w = ground arith
settle-connected_iff ((malformed, late) ∷ ps) w = ground arith

-- An attempt comes to its pump exactly when the dial succeeds, the component reaches the host-key
-- check in time, the fingerprint is read, the user confirms it, the component takes that, a credential
-- is at hand and is accepted, and the component becomes ready before a poll fails, it closes, or a
-- batch of prompts cannot be read, is not answered or is answered with what it does not take.
pub connect-connected_iff :
    (w : World)
    → ((connect w).outcome ≡ connected)
      ↔ ((w.dialed ≡ true) × ReachesGate w.polls × Confirms w × Authenticates w)
unfolding connect
connect-connected_iff w = elim (Bool-cases w.dialed) [
  | inl e ↦ elim (Bool-cases w.prior) [
    | inl f ↦ rw (e, f) (ground (arith, settle-connected_iff w.polls w))
    | inr f ↦ rw (e, f) (ground (arith, settle-connected_iff w.polls w))
  ]
  | inr e ↦ ground arith
]
