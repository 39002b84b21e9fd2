-- ===== src/Boot/Dial/Tests.antt =====
-- A page on which one card was dialed; the connection's key is pinned.
use wosh.Prelude.{◌≡◌, refl, true, false, List, [], ◌∷◌, none, some, Text, codes, arith}
use wosh.Boot.Connstring.{endpoint_id_of, v3_connstring}
use wosh.Boot.Tests.{letter, letters, from_letters, lettered, card_id, card_relay}
use wosh.Boot.History.{unusable, array, absent, booleans, number, Connection}
use wosh.Boot.HostKeys.{pins}
use wosh.Boot.Dial.{Dial, card, silent, Last, Page, session, failed, settle_dial}
use wosh.Boot.Dial.Ended.{is_silent_method, auto_gap, lost, session_ended, tool_of, is_pinned}
use wosh.Boot.Dial.Steps.{Event, tapped, settled, ended_at, step, run}
use wosh.Boot.Dial.Silence.{
  silently, silent_dials, IsSpaced, IsWarranted, silent_dials-IsSpaced, silently-IsWarranted,
}
use wosh.Boot.Dial.Reports.{IsReported, settle_dial-IsReported}
use wosh.Boot.Dial.Regained.{IsRegained, connected, session_ended-IsRegained}
use wosh.Sessions.{dtach, command}

abbrev link : Text
link = v3_connstring lettered card_id card_relay none

abbrev user : Text
user = codes "me"

abbrev entry : Connection
entry = record {
  id = card_id;
  relay = card_relay;
  user = user;
  at = [];
  name = none;
  command = some (codes "tmux");
  method = none;
  auto_resume = false;
  tools = none;
  tools_at = none;
}

abbrev idle : Page
idle = record {
  dialing = none;
  last = none;
  last_auto_at = 0;
  sheet = none;
  resolved = [];
  notice = [];
  chrome = true;
  live = none;
  history = unusable;
  pinned = pins ((card_id, record { fp = codes "SHA256:abc"; at = [] }) ∷ []);
  remember = true;
  dialed = [];
}

-- The card is dialed; the session is lost three times, the second time too early.
abbrev losses : List Event
losses =
    tapped entry none
    ∷ settled (session true [])
    ∷ ended_at 100000 lost none none 9
    ∷ settled (session true [])
    ∷ ended_at 110000 lost none none 9
    ∷ ended_at 115000 lost none none 9
    ∷ settled (failed (codes "gone"))
    ∷ []

silent_dials-IsSpaced_example : IsSpaced 0 (silent_dials lettered idle losses)
silent_dials-IsSpaced_example = silent_dials-IsSpaced lettered losses idle

two_silent : silent_dials lettered idle losses ≡ (100000, true) ∷ (115000, true) ∷ []
unfolding silent_dials run letters from_letters letter
two_silent = refl

abbrev last : Last
last = connected link user (codes "tmux") (codes "auto")

abbrev live_page : Page
live_page = record idle { last = some last; live = some (user, []); chrome = false }

abbrev again : Dial
again = record {
  connstring = link;
  user = user;
  method = codes "auto";
  command = codes "tmux";
  origin = silent [];
}

started :
    silently none (step lettered live_page (ended_at 100000 lost none none 9)).dialing ≡ some again
unfolding step letters from_letters letter
started = refl

silently-IsWarranted_example : IsWarranted lettered live_page again
silently-IsWarranted_example =
    silently-IsWarranted lettered live_page (ended_at 100000 lost none none 9) again started

pinned_key : is_pinned (endpoint_id_of lettered link) live_page.pinned ≡ true
unfolding is_pinned endpoint_id_of letters from_letters letter v3_connstring
pinned_key = refl

session_ended-IsRegained_example :
    IsRegained lettered last (session_ended lettered 100000 lost none none 9 live_page) (
      settle_dial lettered
        (session true [])
        (session_ended lettered 100000 lost none none 9 live_page))
unfolding is_silent_method auto_gap
session_ended-IsRegained_example =
    session_ended-IsRegained lettered 100000 9 none none live_page link user (codes "tmux")
      (codes "auto") true [] refl refl pinned_key (ground arith) refl

abbrev by_card : Dial
by_card = record again { origin = card }

settle_dial-IsReported_example :
    IsReported by_card card (failed (codes "refused: pairing-required")) (
      settle_dial lettered
        (failed (codes "refused: pairing-required"))
        (record idle { dialing = some by_card }))
settle_dial-IsReported_example =
    settle_dial-IsReported lettered by_card (failed (codes "refused: pairing-required"))
      (record idle { dialing = some by_card }) refl

abbrev known_host : Page
known_host = record live_page {
  history = array (
      some (record {
        id = card_id;
        relay = card_relay;
        user = user;
        at = [];
        name = absent;
        command = absent;
        method = absent;
        auto_resume = absent;
        tools = booleans ((codes "dtach", false) ∷ (codes "tmux", true) ∷ []);
        tools_at = number 5;
      })
      ∷ []);
}

missing : tool_of (command dtach (codes "build")) ≡ codes "dtach"
unfolding tool_of command
missing = refl
