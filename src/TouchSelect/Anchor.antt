-- ===== src/TouchSelect/Anchor.antt =====
-- The frozen mirror on its buffer lines: `makeRow` and `reAnchor`. Buffer rows are absolute; a row of
-- the mirror keeps the text that its line had when the row was made.
use wosh.Prelude.{
  ℕ, zero, suc, ◌+◌, ◌-◌, ◌≤◌, ◌≡◌, refl, sym, ◌∙◌, ap, subst, Bool, false, List, [], ◌∷◌, ◌++◌,
  append_assoc, append-nil, ◌⊎◌, Option, none, some, ltb, length, length-append, Bool-cases, inl,
  inr, arith, Text,
}

-- A line of xterm's buffer; a line that is not there reads as none.
pub record Line : Type 0 where
  pub text : Text
  pub wrapped : Bool

pub record Row : Type 0 where
  pub text : Text
  pub join_next : Bool

abbrev text_of : Option Line → Text
text_of none = []
text_of (some l) = l.text

abbrev wraps : Option Line → Bool
wraps none = false
wraps (some l) = l.wrapped

unfoldable pub make_row : (ℕ → Option Line) → ℕ → Row
make_row get_line abs = record {
  text = text_of (get_line abs);
  join_next = wraps (get_line (abs + 1));
}

pub record Mirror : Type 0 where
  pub top : ℕ
  pub rows : List Row

-- `while (top > vy)`; the argument is how far `top` is above.
unfoldable pub reveal_above : (ℕ → Option Line) → ℕ → Mirror → Mirror
unfolding make_row
reveal_above get_line zero m = m
reveal_above get_line (suc n) m =
    reveal_above get_line n
      (record { top = m.top - 1; rows = make_row get_line (m.top - 1) ∷ m.rows })

-- `while (top + rows.length < vy + term.rows)`, likewise
unfoldable pub reveal_below : (ℕ → Option Line) → ℕ → Mirror → Mirror
unfolding make_row
reveal_below get_line zero m = m
reveal_below get_line (suc n) m =
    reveal_below get_line n
      (record m { rows = m.rows ++ make_row get_line (m.top + length m.rows) ∷ [] })

unfoldable pub re_anchor : (ℕ → Option Line) → ℕ → ℕ → Mirror → Mirror
unfolding reveal_above reveal_below
re_anchor get_line vy term_rows m =
    let above = reveal_above get_line (m.top - vy) m in
    reveal_below get_line (vy + term_rows - (above.top + length above.rows)) above

-- The rows of consecutive lines
abbrev pub made : (ℕ → Option Line) → ℕ → ℕ → List Row
made get_line abs zero = []
made get_line abs (suc n) = make_row get_line abs ∷ made get_line (abs + 1) n

made_next :
    (get_line : ℕ → Option Line) (a n : ℕ) (rest : List Row)
    → made get_line a n ++ make_row get_line (a + n) ∷ rest
      ≡ make_row get_line a ∷ (made get_line (a + 1) n ++ rest)
made_next get_line a zero rest =
    let e : a + 0 ≡ a = omega arith in ap (λ k. make_row get_line k ∷ rest) e
made_next get_line a (suc n) rest =
    let e : a + suc n ≡ a + 1 + n = omega arith in
    ap (λ k. made get_line a (suc n) ++ make_row get_line k ∷ rest) e
    ∙ ap (make_row get_line a ∷◌) (made_next get_line (a + 1) n rest)

reveal_above-made :
    (get_line : ℕ → Option Line) (n : ℕ) (m : Mirror)
    → n ≤ m.top
    → reveal_above get_line n m
      ≡ record { top = m.top - n; rows = made get_line (m.top - n) n ++ m.rows }
unfolding reveal_above
reveal_above-made get_line zero m h =
    let e : m.top ≡ m.top - 0 = omega arith in ap (λ k. record m { top = k }) e
reveal_above-made get_line (suc n) m h =
    let e : m.top - 1 - n ≡ m.top - suc n = omega arith in
    let f : m.top - 1 ≡ m.top - suc n + n = omega arith in
    reveal_above-made get_line n
      (record { top = m.top - 1; rows = make_row get_line (m.top - 1) ∷ m.rows }) (omega arith)
    ∙ (ap
          (λ k.
            let r : Mirror = record {
              top = k;
              rows = made get_line k n ++ make_row get_line (m.top - 1) ∷ m.rows;
            } in
            r)
          e
        ∙ (ap
              (λ k.
                let r : Mirror = record {
                  top = m.top - suc n;
                  rows = made get_line (m.top - suc n) n ++ make_row get_line k ∷ m.rows;
                } in
                r)
              f
            ∙ ap (λ rs. let r : Mirror = record { top = m.top - suc n; rows = rs } in r)
                (made_next get_line (m.top - suc n) n m.rows)))

reveal_below-made :
    (get_line : ℕ → Option Line) (n : ℕ) (m : Mirror)
    → reveal_below get_line n m
      ≡ record { top = m.top; rows = m.rows ++ made get_line (m.top + length m.rows) n }
unfolding reveal_below
reveal_below-made get_line zero m = ap (λ rs. record m { rows = rs }) (sym (append-nil m.rows))
reveal_below-made get_line (suc n) m =
    let next = make_row get_line (m.top + length m.rows) in
    let e : m.top + length (m.rows ++ next ∷ []) ≡ m.top + length m.rows + 1 =
      omega (arith, length-append m.rows (next ∷ [])) in
    reveal_below-made get_line n (record m { rows = m.rows ++ next ∷ [] })
    ∙ (ap
          (λ k.
            let r : Mirror = record {
              top = m.top;
              rows = (m.rows ++ next ∷ []) ++ made get_line k n;
            } in
            r)
          e
        ∙ ap (λ rs. let r : Mirror = record { top = m.top; rows = rs } in r)
            (append_assoc m.rows (next ∷ []) (made get_line (m.top + length m.rows + 1) n)))

length-made : (get_line : ℕ → Option Line) (a n : ℕ) → length (made get_line a n) ≡ n
length-made get_line a zero = refl
length-made get_line a (suc n) = omega (arith, length-made get_line (a + 1) n)

-- The mirror that `re_anchor` comes to.
abbrev grown : (ℕ → Option Line) → ℕ → ℕ → Mirror → Mirror
grown get_line vy term_rows m =
    let n = m.top - vy in
    let next = m.top + length m.rows in
    record {
      top = m.top - n;
      rows = made get_line (m.top - n) n ++ (m.rows ++ made get_line next (vy + term_rows - next));
    }

re_anchor-grown :
    (get_line : ℕ → Option Line) (vy term_rows : ℕ) (m : Mirror)
    → re_anchor get_line vy term_rows m ≡ grown get_line vy term_rows m
unfolding re_anchor
re_anchor-grown get_line vy term_rows m =
    let n = m.top - vy in
    let a : Mirror = record { top = m.top - n; rows = made get_line (m.top - n) n ++ m.rows } in
    let e : a.top + length a.rows ≡ m.top + length m.rows = omega (
      arith,
      length-append (made get_line (m.top - n) n) m.rows,
      length-made get_line (m.top - n) n,
    ) in
    ap (λ (b : Mirror). reveal_below get_line (vy + term_rows - (b.top + length b.rows)) b)
      (reveal_above-made get_line n m (omega arith))
    ∙ (reveal_below-made get_line (vy + term_rows - (a.top + length a.rows)) a
        ∙ (ap
              (λ k.
                let r : Mirror = record {
                  top = a.top;
                  rows = a.rows ++ made get_line k (vy + term_rows - k);
                } in
                r)
              e
            ∙ ap (λ rs. let r : Mirror = record { top = a.top; rows = rs } in r)
                (append_assoc (made get_line (m.top - n) n) m.rows _)))

-- The mirror after following the viewport to `vy`: the old rows stand between rows made for the
-- lines around them, and the viewport is covered.
pub record IsAnchored (get_line : ℕ → Option Line) (vy term_rows : ℕ) (m after : Mirror)
    : Type 0 where
  pub above : ℕ
  pub below : ℕ
  pub placed : after.top + above ≡ m.top
  pub kept :
      after.rows
      ≡ made get_line after.top above ++ (m.rows ++ made get_line (m.top + length m.rows) below)
  pub covers_top : after.top ≤ vy
  pub covers_bottom : vy + term_rows ≤ after.top + length after.rows
  pub tight : (after.top ≡ m.top) ⊎ (after.top ≡ vy)

-- Following the viewport never rewrites a row of a frozen mirror: rows for the lines around the old
-- ones are made at the edges, contiguous with them and no more at the top than are needed, until the
-- whole viewport is covered.
pub re_anchor-IsAnchored :
    (get_line : ℕ → Option Line) (vy term_rows : ℕ) (m : Mirror)
    → IsAnchored get_line vy term_rows m (re_anchor get_line vy term_rows m)
re_anchor-IsAnchored get_line vy term_rows m =
    let n = m.top - vy in
    let next = m.top + length m.rows in
    let k = vy + term_rows - next in
    let made_above = made get_line (m.top - n) n in
    let made_below = made get_line next k in
    let long : length (grown get_line vy term_rows m).rows ≡ n + (length m.rows + k) = omega (
      arith,
      length-append made_above (m.rows ++ made_below),
      length-append m.rows made_below,
      length-made get_line (m.top - n) n,
      length-made get_line next k,
    ) in
    subst (IsAnchored get_line vy term_rows m) (sym (re_anchor-grown get_line vy term_rows m))
      (record {
        above = n;
        below = k;
        placed = omega arith;
        kept = refl;
        covers_top = omega arith;
        covers_bottom = omega (arith, long);
        tight = elim (Bool-cases (ltb m.top vy)) [
          | inl e ↦ inl (ground arith)
          | inr e ↦ inr (ground arith)
        ];
      })
