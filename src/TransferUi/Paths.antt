-- ===== src/TransferUi/Paths.antt =====
-- A joined path is split back into its segments, and equal paths are the same.
use wosh.Prelude.{
  ℕ, suc, ◌+◌, ◌==◌, ◌≡◌, ◌↔◌, refl, sym, ◌∙◌, ap, true, false, List, [], ◌∷◌, ◌++◌, length,
  length-append, append_assoc, append-nil, All, join, split_at, arith,
}
use wosh.TransferUi.{
  Segments, sep, zeros, overwrite, set_at, lengths, fill, join_segments, bytes_agree, segs_agree,
  segs_equal,
}

overwrite-zeros : (s : List ℕ) (n : ℕ) → overwrite s (zeros (length s + n)) ≡ s ++ zeros n
unfolding zeros
overwrite-zeros [] n = let e : 0 + n ≡ n = omega arith in ap zeros e
overwrite-zeros (b ∷ s) n =
    let e : length (b ∷ s) + n ≡ suc (length s + n) = omega arith in
    ap (λ k. overwrite (b ∷ s) (zeros k)) e ∙ ap (b ∷◌) (overwrite-zeros s n)

set_at-zeros :
    (before s : List ℕ) (n : ℕ)
    → set_at (length before) s (before ++ zeros (length s + n)) ≡ before ++ (s ++ zeros n)
unfolding set_at
set_at-zeros [] s n = overwrite-zeros s n
set_at-zeros (c ∷ before) s n = ap (c ∷◌) (set_at-zeros before s n)

set_at_next :
    (before s : List ℕ) (o n : ℕ)
    → o ≡ length before
    → set_at o s (before ++ zeros (length s + n)) ≡ (before ++ s) ++ zeros n
set_at_next before s o n e =
    ap (λ k. set_at k s (before ++ zeros (length s + n))) e
    ∙ (set_at-zeros before s n ∙ sym (append_assoc before s (zeros n)))

-- The loop fills what is left with the joined segments.
fill-join :
    (s : List ℕ) (ss : Segments) (o n : ℕ) (before : List ℕ)
    → o ≡ length before
    → n ≡ lengths (s ∷ ss) + length ss
    → fill o (before ++ zeros n) (s ∷ ss) ≡ before ++ join (sep ∷ []) (s ∷ ss)
unfolding fill join lengths zeros
fill-join s [] o n before eo en =
    let e : n ≡ length s + 0 = omega arith in
    ap (λ k. set_at o s (before ++ zeros k)) e
    ∙ (set_at_next before s o 0 eo ∙ append-nil (before ++ s))
fill-join s (t ∷ ss) o n before eo en =
    let m : ℕ = lengths (t ∷ ss) + length ss in
    let e : n ≡ length s + (1 + m) = omega arith in
    let eb : o + length s ≡ length (before ++ s) = omega (arith, length-append before s) in
    let ec : o + length s + 1 ≡ length ((before ++ s) ++ sep ∷ []) =
      omega (arith, length-append (before ++ s) (sep ∷ [])) in
    ap
      (λ k.
        fill (o + length s + 1) (set_at (o + length s) (sep ∷ []) (set_at o s (before ++ zeros k)))
          (t ∷ ss))
      e
    ∙ (ap (λ out. fill (o + length s + 1) (set_at (o + length s) (sep ∷ []) out) (t ∷ ss))
          (set_at_next before s o (1 + m) eo)
        ∙ (ap (λ out. fill (o + length s + 1) out (t ∷ ss))
              (set_at_next (before ++ s) (sep ∷ []) (o + length s) m eb)
            ∙ (fill-join t ss (o + length s + 1) m ((before ++ s) ++ sep ∷ []) ec refl
                ∙ (append_assoc (before ++ s) (sep ∷ []) _ ∙ append_assoc before s _))))

join_segments-join :
    (s : List ℕ) (ss : Segments) → join_segments (s ∷ ss) ≡ join (sep ∷ []) (s ∷ ss)
unfolding join_segments
join_segments-join s ss = fill-join s ss 0 (lengths (s ∷ ss) + length ss) [] refl refl

-- A segment of a path has no separator in it.
abbrev pub IsSegment : List ℕ → Type 0
IsSegment s = All (λ b. (b == sep) ≡ false) s

split_at_alone : (s : List ℕ) → IsSegment s → split_at sep s ≡ s ∷ []
unfolding split_at
split_at_alone [] h = refl
split_at_alone (b ∷ s) h = rw (h.0, split_at_alone s h.1) refl

split_at_behind :
    (s rest : List ℕ) → IsSegment s → split_at sep (s ++ sep ∷ rest) ≡ s ∷ split_at sep rest
unfolding split_at
split_at_behind [] rest h = refl
split_at_behind (b ∷ s) rest h = rw (h.0, split_at_behind s rest h.1) refl

split_at-join :
    (s : List ℕ) (ss : Segments)
    → All IsSegment (s ∷ ss)
    → split_at sep (join (sep ∷ []) (s ∷ ss)) ≡ s ∷ ss
unfolding join
split_at-join s [] h = split_at_alone s h.0
split_at-join s (t ∷ ss) h = split_at_behind s _ h.0 ∙ ap (s ∷◌) (split_at-join t ss h.1)

-- A path of one segment or more is split back from its joined bytes, when no segment has a
-- separator in it.
split_at-join_segments :
    (s : List ℕ) (ss : Segments)
    → All IsSegment (s ∷ ss)
    → split_at sep (join_segments (s ∷ ss)) ≡ s ∷ ss
split_at-join_segments s ss h = ap (split_at sep) (join_segments-join s ss) ∙ split_at-join s ss h

bytes_agree_sound : (x y : List ℕ) → length x ≡ length y → bytes_agree x y ≡ true → x ≡ y
unfolding bytes_agree
bytes_agree_sound [] [] e h = refl
bytes_agree_sound [] (b ∷ y) e h = absurd (omega arith)
bytes_agree_sound (a ∷ x) [] e h = absurd (omega arith)
bytes_agree_sound (a ∷ x) (b ∷ y) e h =
    let first : a ≡ b = ground arith in
    let later : bytes_agree x y ≡ true = ground arith in
    let tails = bytes_agree_sound x y (omega arith) later in ap (λ c. c ∷ x) first ∙ ap (b ∷◌) tails

bytes_agree_self : (x : List ℕ) → bytes_agree x x ≡ true
unfolding bytes_agree
bytes_agree_self [] = refl
bytes_agree_self (a ∷ x) = ground (arith, bytes_agree_self x)

segs_agree_sound : (a b : Segments) → length a ≡ length b → segs_agree a b ≡ true → a ≡ b
unfolding segs_agree
segs_agree_sound [] [] e h = refl
segs_agree_sound [] (y ∷ b) e h = absurd (omega arith)
segs_agree_sound (x ∷ a) [] e h = absurd (omega arith)
segs_agree_sound (x ∷ a) (y ∷ b) e h =
    let lengths_agree : length x ≡ length y = ground arith in
    let first : bytes_agree x y ≡ true = ground arith in
    let later : segs_agree a b ≡ true = ground arith in
    let tails = segs_agree_sound a b (omega arith) later in
    ap (λ c. c ∷ a) (bytes_agree_sound x y lengths_agree first) ∙ ap (y ∷◌) tails

segs_agree_self : (a : Segments) → segs_agree a a ≡ true
unfolding segs_agree
segs_agree_self [] = refl
segs_agree_self (x ∷ a) = ground (arith, bytes_agree_self x, segs_agree_self a)

segs_equal_self : (a : Segments) → segs_equal a a ≡ true
unfolding segs_equal
segs_equal_self a = ground (arith, segs_agree_self a)

segs_equal_sound : (a b : Segments) → segs_equal a b ≡ true → a ≡ b
unfolding segs_equal
segs_equal_sound a b h =
    let e : length a ≡ length b = ground arith in
    let later : segs_agree a b ≡ true = ground arith in segs_agree_sound a b e later

-- Two paths compare equal exactly when they are the same segments of the same bytes.
segs_equal_iff : (a b : Segments) → (segs_equal a b ≡ true) ↔ (a ≡ b)
segs_equal_iff a b = (segs_equal_sound a b, λ e. ap (segs_equal a) (sym e) ∙ segs_equal_self a)
