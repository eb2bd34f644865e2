-- ===== src/Nomad/Events/Lines.antt =====
-- events.rs: the lines of a buffer, by recursion on its bytes instead of the loop that drains it.
use nomad_scale_to_zero.Prelude.{
  ℕ, zero, suc, ◌<◌, true, false, none, some, List, [], ◌∷◌, ◌++◌, length, nat_eq, if◌then◌else◌,
  ◌≡◌, refl, arith, Option-cases, Bool-cases, inl, inr,
}
use nomad_scale_to_zero.Nomad.Events.{Bytes, position, drained, remaining}

-- The complete lines of a text, each with its line end, and what is left.
abbrev pub Lines : Type 0
Lines = List Bytes × Bytes

abbrev pub put_before : ℕ → Lines → Lines
put_before b ([], left) = ([], b ∷ left)
put_before b (line ∷ rest, left) = ((b ∷ line) ∷ rest, left)

unfoldable pub lines : Bytes → Lines
lines [] = ([], [])
lines (b ∷ rest) =
    let later = lines rest in
    if nat_eq b 10 then ((b ∷ []) ∷ later.0, later.1) else put_before b later

-- The first line is taken off.
abbrev pub lines_after : ℕ → Bytes → Lines
lines_after pos b = (drained pos b ∷ (lines (remaining pos b)).0, (lines (remaining pos b)).1)

pub lines-none : (b : Bytes) → position b ≡ none → lines b ≡ ([], b)
unfolding lines position
lines-none [] h = refl
lines-none (b ∷ rest) h = elim (Option-cases (position rest)) [
  | inl e ↦ ground (arith, e, lines-none rest e)
  | inr (n, e) ↦ absurd (ground (arith, e))
]

at_line_end : (b : ℕ) (rest : Bytes) → position (b ∷ rest) ≡ some zero → nat_eq b 10 ≡ true
unfolding position
at_line_end b rest h = elim (Option-cases (position rest)) [
  | inl e ↦ ground (arith, e)
  | inr (n, e) ↦ ground (arith, e)
]

past_byte :
    (b n : ℕ) (rest : Bytes)
    → position (b ∷ rest) ≡ some (suc n)
    → (nat_eq b 10 ≡ false) × (position rest ≡ some n)
unfolding position
past_byte b n rest h = elim (Option-cases (position rest)) [
  | inl e ↦ absurd (ground (arith, e))
  | inr (m, e) ↦ (ground (arith, e), ground (arith, e))
]

pub lines-some : (b : Bytes) (pos : ℕ) → position b ≡ some pos → lines b ≡ lines_after pos b
unfolding lines position
lines-some [] pos h = absurd (ground arith)
lines-some (b ∷ rest) zero h = rw (at_line_end b rest h, lines) refl
lines-some (b ∷ rest) (suc n) h =
    let later = past_byte b n rest h in rw (later.0, lines) (rw (lines-some rest n later.1) refl)

pub remaining_shorter :
    (b : Bytes) (pos : ℕ) → position b ≡ some pos → length (remaining pos b) < length b
unfolding position
remaining_shorter [] pos h = absurd (ground arith)
remaining_shorter (b ∷ rest) zero h = ground arith
remaining_shorter (b ∷ rest) (suc n) h =
    ground (arith, remaining_shorter rest n (past_byte b n rest h).1)

-- The lines of `x ++ y` by those of `x`.
abbrev pub joined : Lines → Bytes → Lines
joined l y = (l.0 ++ (lines (l.1 ++ y)).0, (lines (l.1 ++ y)).1)

put_before-joined :
    (b : ℕ) (l : Lines) (y : Bytes)
    → nat_eq b 10 ≡ false
    → put_before b (joined l y) ≡ joined (put_before b l) y
unfolding lines
put_before-joined b ([], left) y h = rw (h, lines) refl
put_before-joined b (line ∷ rest, left) y h = refl

-- A text that is taken in two parts: what the first leaves is put before the second.
pub lines-append : (x y : Bytes) → lines (x ++ y) ≡ joined (lines x) y
unfolding lines
lines-append [] y = refl
lines-append (b ∷ x) y = elim (Bool-cases (nat_eq b 10)) [
  | inl e ↦ rw (e, lines) (rw (lines-append x y) refl)
  | inr e ↦ rw (e, lines) (rw (lines-append x y) (put_before-joined b (lines x) y e))
]

left_before :
    (b : ℕ) (l : Lines)
    → nat_eq b 10 ≡ false
    → lines l.1 ≡ ([], l.1)
    → lines (put_before b l).1 ≡ ([], (put_before b l).1)
unfolding lines
left_before b ([], left) e h = rw (e, lines) (rw h refl)
left_before b (line ∷ rest, left) e h = h

-- What is left has no line end.
pub lines_left : (b : Bytes) → lines (lines b).1 ≡ ([], (lines b).1)
unfolding lines
lines_left [] = refl
lines_left (b ∷ rest) = elim (Bool-cases (nat_eq b 10)) [
  | inl e ↦ rw (e, lines) (lines_left rest)
  | inr e ↦ rw (e, lines) (left_before b (lines rest) e (lines_left rest))
]
