-- ===== src/Boot/History/Tests.antt =====
-- A history of two cards.
use wosh.Prelude.{◌≡◌, refl, true, false, [], ◌∷◌, Option, none, some, codes, map, Text}
use wosh.Boot.History.{
  Storage, array, StoredEntry, text, truth, number, booleans, no_tools, load_history,
}
use wosh.Boot.History.Operations.{record_connection}
use wosh.Boot.History.Recording.{IsRecorded, record_connection-IsRecorded}

abbrev named_card : StoredEntry
named_card = record {
  id = codes "aa";
  relay = codes "https://old";
  user = codes "ann";
  at = codes "2024";
  name = text (codes "desk");
  command = text [];
  method = text (codes "auto");
  auto_resume = truth false;
  tools = booleans ((codes "tmux", true) ∷ []);
  tools_at = number 5;
}

abbrev other_card : StoredEntry
other_card = record {
  id = codes "bb";
  relay = codes "https://old";
  user = codes "ann";
  at = codes "2023";
  name = number 7;
  command = text (codes "top");
  method = text (codes "passkey");
  auto_resume = truth true;
  tools = no_tools;
  tools_at = number 5;
}

abbrev stored_cards : Storage
stored_cards = array (some other_card ∷ none ∷ some named_card ∷ [])

-- The card comes to the front with its name and without its blank command.
in_front :
    map {B = Text × Option Text}
      (λ c. (c.relay, c.name))
      (load_history (
        record_connection true
          (codes "2025")
          (codes "aa")
          (codes "https://new")
          (codes "ann")
          none
          none
          none
          stored_cards))
    ≡ (codes "https://new", some (codes "desk")) ∷ (codes "https://old", none) ∷ []
unfolding load_history record_connection
in_front = refl

record_connection-IsRecorded_example :
    IsRecorded (codes "aa") (codes "https://new") (codes "ann") (load_history stored_cards) (
      load_history (
        record_connection true
          (codes "2025")
          (codes "aa")
          (codes "https://new")
          (codes "ann")
          none
          none
          none
          stored_cards))
record_connection-IsRecorded_example =
    record_connection-IsRecorded (codes "2025") (codes "aa") (codes "https://new") (codes "ann")
      none none none stored_cards
