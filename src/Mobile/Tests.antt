-- ===== src/Mobile/Tests.antt =====
-- Keys and presses at concrete input.
use wosh.Prelude.{
  ℕ, ◌+◌, ◌-◌, ◌≤◌, ◌≡◌, refl, Bool, true, false, List, [], ◌∷◌, ◌++◌, none, codes, leb, ltb, ◌&&◌,
  if◌then◌else◌, arith,
}
use wosh.Mobile.{Armed, disarmed, Upper, transform_input, modified, run}
use wosh.Mobile.Modifiers.{chunks, run-chunks}
use wosh.Mobile.Press.{Pointer, down, move, up, pointers, presses}

upper_ascii : ℕ → ℕ
upper_ascii c = if leb 97 c && leb c 122 then c - 32 else c

upper_ascii_lower : (c : ℕ) → 97 ≤ c → c ≤ 122 → upper_ascii c ≡ c - 32
unfolding upper_ascii
upper_ascii_lower c hl hu = ground arith

upper_ascii_self : (c : ℕ) → 64 ≤ c → c ≤ 95 → upper_ascii c ≡ c
unfolding upper_ascii
upper_ascii_self c hl hu = ground arith

abbrev ascii : Upper
ascii = record {
  first_upper = upper_ascii;
  upper-lower = upper_ascii_lower;
  upper_self = upper_ascii_self;
}

abbrev both : Armed
both = record { ctrl = true; alt = true }

-- Ctrl-Left with the application cursor keys
control_left :
    transform_input ascii (record { ctrl = true; alt = false }) (27 ∷ codes "OD")
    ≡ (27 ∷ codes "[1;5D", disarmed)
unfolding transform_input
control_left = refl

-- A wheel report passes between the arming and the key.
run-chunks_example :
    run ascii both (chunks (((27 ∷ codes "[<64;1;1M") ∷ []) ++ codes "c" ∷ codes "c" ∷ [])) ≡ (
      ((27 ∷ codes "[<64;1;1M") ∷ []) ++ modified ascii both (codes "c") ∷ codes "c" ∷ [],
      disarmed,
    )
unfolding run transform_input
run-chunks_example =
    run-chunks ascii both ((27 ∷ codes "[<64;1;1M") ∷ []) (codes "c") (codes "c" ∷ []) refl
      (refl, tt) refl

abbrev far_apart : ℕ → ℕ → Bool
far_apart a b = ltb (a + 10) b

abbrev tap : List (Pointer far_apart)
tap = down 1 100 ∷ move 1 105 ∷ move 2 200 ∷ up 2 200 ∷ []

tapped : presses far_apart (pointers far_apart none tap) 1 ≡ true
unfolding presses pointers
tapped = refl

dragged :
    presses far_apart (pointers far_apart none (down 1 100 ∷ move 1 130 ∷ move 1 100 ∷ [])) 1
    ≡ false
unfolding presses pointers
dragged = refl
