-- ===== src/App/Pump/Tests.antt =====
-- Three rounds: output and a save, nothing, an exit.
use wosh.Prelude.{◌≡◌, refl, true, false, List, [], ◌∷◌, none, some, Text, codes}
use wosh.App.Pump.{Round, claimed, painted, saved, ended, answered, pump, started}
use wosh.App.Pump.Order.{IsOrderly, pump-IsOrderly}

abbrev key : Text
key = codes "k"

abbrev output : Round
output = record {
  current = true;
  drained = answered (some (codes "hi"));
  exited = answered false;
  status = answered none;
  still_current = true;
  dirtied = false;
  now = 20000;
  link = some (answered (some (codes "attached")));
}

abbrev rounds : List Round
rounds =
    output
    ∷ record output { drained = answered none; now = 21000 }
    ∷ record output { exited = answered true; status = answered (some (3, codes "3")); now = 22000 }
    ∷ []

pump-IsOrderly_example :
    IsOrderly
      (some key)
      (started 1000 false)
      rounds
      (pump (some key) (codes "me") 1000 (started 1000 false) rounds)
pump-IsOrderly_example = pump-IsOrderly (some key) (codes "me") 1000 rounds (started 1000 false)

all_calls :
    pump (some key) (codes "me") 1000 (started 1000 false) rounds
    ≡ claimed (some key)
      ∷ painted (some (codes "hi"))
      ∷ saved key 20000
      ∷ painted none
      ∷ claimed (some key)
      ∷ painted (some (codes "hi"))
      ∷ ended (codes "exited (3)") (some 3) (some 21000)
      ∷ []
unfolding pump
all_calls = refl
