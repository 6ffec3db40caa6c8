-- ===== src/JsonPath/Total.antt =====
-- How much of the path each round of the loop of `parse` takes, in libs/core/src/json_path.cpp.
use lab_monitor.Base.{
  ℕ, zero, suc, ◌≤◌, ◌≡◌, refl, arith, Bool, true, false, Option, none, some, List, [], ◌∷◌, ◌++◌,
  ◌==◌, if◌then◌else◌, length, Text, empty, Bool-cases, inl, inr,
}
use lab_monitor.Base.Json.{Expected}
use lab_monitor.JsonPath.{
  PathFailure, Segment, Round, cut, push_cut, name_at, push_name, index_segment, after_dot,
  after_bracket, push_segment, close_bracket, bracket_round, after_name, named, name_round, round,
  next_round, parse_loop,
}

-- A round that goes on leaves at most `n` characters.
abbrev Leaves : ℕ → Round → Type 0
Leaves n (Expected.unexpected e) = Unit
Leaves n (Expected.value (segments, rest)) = length rest ≤ n

abbrev CutWithin : ℕ → Option (Text × Text) → Type 0
CutWithin n none = Unit
CutWithin n (some (s, t)) = length t ≤ n

cut-within : (s : Text) → CutWithin (length s) (cut s)
unfolding cut
cut-within [] = tt
cut-within (a ∷ s) = elim (Bool-cases (a == b']')) [
  | inl e ↦ rw e (omega arith)
  | inr e ↦ rw e (push (cut s) (cut-within s))
]
  where
    push :
        (o : Option (Text × Text))
        → CutWithin (length s) o
        → CutWithin (suc (length s)) (push_cut a o)
    push none h = tt
    push (some (x, y)) h = omega arith

after_dot-Leaves :
    (segments : List Segment) (n : ℕ) (rest : Text)
    → length rest ≤ n
    → Leaves n (after_dot segments rest)
after_dot-Leaves segments n rest h = elim (Bool-cases (empty rest)) [
  | inl e ↦ rw e tt
  | inr e ↦ rw (e) h
]

after_bracket-Leaves :
    (segments : List Segment) (n : ℕ) (rest : Text)
    → length rest ≤ n
    → Leaves n (after_bracket segments rest)
unfolding after_bracket
after_bracket-Leaves segments n [] h = h
after_bracket-Leaves segments n (c ∷ rest) h = elim (Bool-cases (c == b'.')) [
  | inl e ↦ rw e (after_dot-Leaves segments n rest (omega arith))
  | inr e ↦ rw e (elim (Bool-cases (c == b'[')) [ inl f ↦ rw f h | inr f ↦ rw (f) tt ])
]

push_segment-Leaves :
    (segments : List Segment) (n : ℕ) (rest : Text) (s : Expected Segment PathFailure)
    → length rest ≤ n
    → Leaves n (push_segment segments rest s)
push_segment-Leaves segments n rest (Expected.unexpected e) h = tt
push_segment-Leaves segments n rest (Expected.value s) h =
    after_bracket-Leaves (segments ++ s ∷ []) n rest h

close_bracket-Leaves :
    (segments : List Segment) (n : ℕ) (o : Option (Text × Text))
    → CutWithin n o
    → Leaves n (close_bracket segments o)
close_bracket-Leaves segments n none h = tt
close_bracket-Leaves segments n (some (digits, behind)) h =
    push_segment-Leaves segments n behind (index_segment digits) h

bracket_round-Leaves :
    (segments : List Segment) (rest : Text) → Leaves (length rest) (bracket_round segments rest)
unfolding bracket_round
bracket_round-Leaves [] rest = tt
bracket_round-Leaves (s ∷ segments) rest =
    close_bracket-Leaves (s ∷ segments) (length rest) (cut rest) (cut-within rest)

length-push_name : (a : ℕ) (p : Text × Text) → length (push_name a p).1 ≡ length p.1
length-push_name a (s, t) = refl

empty-push_name : (a : ℕ) (p : Text × Text) → empty (push_name a p).0 ≡ false
empty-push_name a (s, t) = refl

name_at-le : (s : Text) → length (name_at s).1 ≤ length s
unfolding name_at
name_at-le [] = omega arith
name_at-le (a ∷ s) = ground (arith, name_at-le s, length-push_name a (name_at s))

-- A name that is not empty takes a character.
name_at-lt :
    (a : ℕ) (s : Text) → empty (name_at (a ∷ s)).0 ≡ false → length (name_at (a ∷ s)).1 ≤ length s
unfolding name_at
name_at-lt a s h = ground (arith, name_at-le s, length-push_name a (name_at s))

after_name-Leaves :
    (segments : List Segment) (n : ℕ) (rest : Text)
    → length rest ≤ n
    → Leaves n (after_name segments rest)
after_name-Leaves segments n [] h = h
after_name-Leaves segments n (c ∷ rest) h = elim (Bool-cases (c == b'.')) [
  | inl e ↦ rw e (after_dot-Leaves segments n rest (omega arith))
  | inr e ↦ rw (e) h
]

named-Leaves :
    (segments : List Segment) (n : ℕ) (p : Text × Text)
    → (empty p.0 ≡ false → length p.1 ≤ n)
    → Leaves n (named segments p)
named-Leaves segments n (name, rest) h = elim (Bool-cases (empty name)) [
  | inl e ↦ rw e tt
  | inr e ↦ rw (e) (after_name-Leaves (segments ++ Segment.field name ∷ []) n rest (h e))
]

either-Leaves :
    (b : Bool) (n : ℕ) (x y : Round) → Leaves n x → Leaves n y → Leaves n (if b then x else y)
either-Leaves true n x y h k = h
either-Leaves false n x y h k = k

round-Leaves :
    (segments : List Segment) (c : ℕ) (rest : Text) → Leaves (length rest) (round segments c rest)
unfolding round name_round
round-Leaves segments c rest =
    either-Leaves (c == b'[') (length rest) (bracket_round segments rest)
      (name_round segments (c ∷ rest)) (bracket_round-Leaves segments rest)
      (named-Leaves segments (length rest) (name_at (c ∷ rest)) (name_at-lt c rest))

-- The loop of `parse` never runs out of rounds: as many as the text has characters are enough, for
-- every text, well formed or not.
pub parse_loop-total :
    (rounds : ℕ) (segments : List Segment) (rest : Text)
    → length rest ≤ rounds
    → (r : Expected (List Segment) PathFailure) × (parse_loop rounds segments rest ≡ some r)
unfolding parse_loop
parse_loop-total zero segments [] h = (Expected.value segments, refl)
parse_loop-total (suc rounds) segments [] h = (Expected.value segments, refl)
parse_loop-total zero segments (c ∷ rest) h = absurd (omega arith)
parse_loop-total (suc rounds) segments (c ∷ rest) h =
    go (round segments c rest) (round-Leaves segments c rest)
      (λ segs r l. parse_loop-total rounds segs r (omega arith))
  where
    go :
        (r : Round)
        → Leaves (length rest) r
        → ((segs : List Segment) (s : Text)
            → length s ≤ length rest
            → (t : Expected (List Segment) PathFailure) × (parse_loop rounds segs s ≡ some t))
        → (t : Expected (List Segment) PathFailure) × (next_round (parse_loop rounds) r ≡ some t)
    go (Expected.unexpected e) l rec = (Expected.unexpected e, refl)
    go (Expected.value (segs, s)) l rec = rec segs s l
