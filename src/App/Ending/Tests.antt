-- ===== src/App/Ending/Tests.antt =====
-- A session whose pump and input both report an end, then another one that the user leaves.
use wosh.Prelude.{
  Option, Text, Bool, ◌≡◌, refl, true, false, List, [], ◌∷◌, none, some, Text, codes,
}
use wosh.App.Ending.{Terminal, Event, dialed, reported, answered, left, run, fresh}
use wosh.App.Ending.Once.{announced}
use wosh.App.Ending.Announced.{Verdict, IsAnnounced, reported-IsAnnounced}

abbrev events : List Event
events =
    dialed 1 (some (codes "k"))
    ∷ reported 1 (codes "exited (0)") (some 0) (some 9)
    ∷ reported 1 (codes "input: closed") none none
    ∷ dialed 2 none
    ∷ answered 0 (some (codes "ended"))
    ∷ left
    ∷ []

announced_once : announced 1 (run fresh events).calls ≡ 1
unfolding run
announced_once = refl

abbrev connected : Terminal
connected = record {
  current = some 4;
  persist_key = some (codes "k");
  client_load = true;
  tails = [];
  calls = [];
}

abbrev poison : Text
poison = codes "pump: reentrance forbidden"

reported-IsAnnounced_example :
    (what : Text) × (shown : Option Text) × (discarded : Bool) × Verdict none poison what shown
      discarded
    × IsAnnounced 4 poison none none what shown discarded connected
        (run connected (reported 4 poison none none ∷ answered 0 none ∷ []))
reported-IsAnnounced_example = reported-IsAnnounced 4 poison none none none connected refl

discarded : (run connected (reported 4 poison none none ∷ answered 0 none ∷ [])).client_load ≡ false
unfolding run
discarded = refl
