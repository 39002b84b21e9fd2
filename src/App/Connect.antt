-- ===== src/App/Connect.antt =====
-- Connecting: `settle` and `connect` of site/app.mjs up to the moment when the output pump starts.
-- What the component and the user answer is an argument; the calls that the page makes, in order,
-- and how the attempt ends are the result. A call of the component that is awaited may be rejected,
-- except `detach`; the page's own sheets and its writes to the terminal are not. An answer that never
-- comes is a list that ends.
pub mod HostKey
pub mod Success
use wosh.Prelude.{
  ℕ, Bool, true, false, List, [], ◌∷◌, ◌++◌, Option, none, some, if◌then◌else◌, Text,
}

-- A poll of the status, by the kinds of `statusOf` that `connect` tells apart; `malformed` is a value
-- without a kind, or a poll that is rejected: it throws for both.
pub data Status : Type 0 where
  connecting host_key_check auth_prompts ready closed other malformed : Status

pub data Credential : Type 0 where
  auto publickey passkey keyboard_interactive : Credential
  password : Option Text → Credential

pub data Method : Type 0 where
  by_auto by_publickey by_passkey by_interactive : Method
  by_password : Text → Method

-- What `pendingPrompts` gives: nothing, a batch (a number stands for its content), or a rejection.
pub data Pending : Type 0 where
  no_batch unread : Pending
  batch_of : ℕ → Pending

-- One round of the authentication loop: the status, the pending batch, what the user answers to it,
-- and whether the component takes the answers.
pub record Round : Type 0 where
  pub status : Status
  pub batch : Pending
  pub answers : Option (List Text)
  pub taken : Bool

pub record World : Type 0 where
  -- `t.Session.connect` gives a session
  pub dialed : Bool
  pub prior : Bool
  -- the statuses that `settle` polls, each with whether the deadline has passed
  pub polls : List (Status × Bool)
  -- `hostKeyFingerprint` is not rejected
  pub fingerprint_read : Bool
  -- the user's answer at the host-key sheet
  pub confirmed : Bool
  -- the `confirmHostKey` call is not rejected
  pub gate_passed : Bool
  pub credential : Credential
  -- what `collectPrompts` answers when the password is asked for here
  pub password_answers : Option (List Text)
  -- the `authenticate` call succeeds
  pub accepted : Bool
  pub rounds : List Round

pub data Call : Type 0 where
  set_current clear_current detach_prior poll ask_fingerprint detach : Call
  confirm_host_key : Bool → Call
  authenticate : Method → Call
  pending_prompts : Call
  answer_prompts : List Text → Call
  start_pump : Call

-- `fatal` throws, `rejected` returns null, `waiting` is an attempt that has not ended.
pub data Outcome : Type 0 where
  connected rejected fatal waiting : Outcome

pub record Attempt : Type 0 where
  pub calls : List Call
  pub outcome : Outcome

abbrev pub ending : Outcome → Attempt
ending o = record { calls = []; outcome = o }

abbrev pub then_do : Call → Attempt → Attempt
then_do c r = record { calls = c ∷ r.calls; outcome = r.outcome }

-- A batch that is pending, what the user answers, and whether `answerPrompts` takes it; the loop goes
-- on with `rest`.
unfoldable pub answering : Pending → Option (List Text) → Bool → Attempt → Attempt
answering no_batch given taken rest = rest
answering unread given taken rest = ending fatal
answering (batch_of b) none taken rest = then_do detach (then_do clear_current (ending fatal))
answering (batch_of b) (some given) taken rest =
    then_do (answer_prompts given) (if taken then rest else ending fatal)

-- A round at a status.
unfoldable pub at_status : Status → Round → Attempt → Attempt
unfolding answering
at_status ready r rest = then_do start_pump (ending connected)
at_status closed r rest = ending fatal
at_status malformed r rest = ending fatal
at_status auth_prompts r rest = then_do pending_prompts (answering r.batch r.answers r.taken rest)
at_status connecting r rest = rest
at_status host_key_check r rest = rest
at_status other r rest = rest

-- The polling loop behind the `authenticate` call.
unfoldable pub authenticating : List Round → Attempt
unfolding at_status
authenticating [] = ending waiting
authenticating (r ∷ rs) = then_do poll (at_status r.status r (authenticating rs))

unfoldable pub offer : Method → World → Attempt
unfolding authenticating
offer m w = then_do (authenticate m) (if w.accepted then authenticating w.rounds else ending fatal)

-- `answers[0] ?? ""`
abbrev first_answer : List Text → Text
first_answer [] = []
first_answer (a ∷ given) = a

-- The password that was asked for.
unfoldable pub typed_password : Option (List Text) → World → Attempt
unfolding offer
typed_password none w = then_do detach (then_do clear_current (ending fatal))
typed_password (some given) w = offer (by_password (first_answer given)) w

-- The credential; a password that was not given is asked for.
unfoldable pub credentials : Credential → World → Attempt
unfolding offer typed_password
credentials auto w = offer by_auto w
credentials publickey w = offer by_publickey w
credentials passkey w = offer by_passkey w
credentials keyboard_interactive w = offer by_interactive w
credentials (password (some p)) w = offer (by_password p) w
credentials (password none) w = typed_password w.password_answers w

-- What follows on `confirmHostKey`.
unfoldable pub past_gate : World → Attempt
unfolding credentials
past_gate w =
    if w.confirmed then credentials w.credential w else then_do clear_current (ending rejected)

-- The host-key gate; a call of the component that is rejected throws.
unfoldable pub host_key_gate : World → Attempt
unfolding past_gate
host_key_gate w =
    let told =
      then_do (confirm_host_key w.confirmed)
        (if w.gate_passed then past_gate w else ending fatal) in
    then_do ask_fingerprint (if w.fingerprint_read then told else ending fatal)

-- `settle`, with what `connect` does at each status that it returns.
unfoldable pub at_poll : Status → Bool → World → Attempt → Attempt
unfolding host_key_gate
at_poll connecting late w rest = if late then ending fatal else rest
at_poll host_key_check late w rest = host_key_gate w
at_poll auth_prompts late w rest = ending fatal
at_poll ready late w rest = ending fatal
at_poll closed late w rest = ending fatal
at_poll other late w rest = ending fatal
at_poll malformed late w rest = ending fatal

unfoldable pub settle : List (Status × Bool) → World → Attempt
unfolding at_poll
settle [] w = ending waiting
settle ((s, late) ∷ ps) w = then_do poll (at_poll s late w (settle ps w))

unfoldable pub connect : World → Attempt
unfolding settle
connect w =
    if w.dialed
    then then_do set_current
        (if w.prior then then_do detach_prior (settle w.polls w) else settle w.polls w)
    else ending fatal
