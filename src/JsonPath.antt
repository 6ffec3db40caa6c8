-- ===== src/JsonPath.antt =====
-- libs/core/src/json_path.cpp: addresses into a JSON document. A position in the path is the text
-- that is left from there on, and the documents are those of the JSON library, a parameter.
pub mod Resolve
pub mod Walk
pub mod Total
mod Examples
use lab_monitor.Base.{
  ℕ, zero, suc, ◌+◌, ◌-◌, ◌*◌, ◌%◌, ◌^◌, Bool, true, false, not, ◌&&◌, ◌||◌, Option, none, some,
  List, [], ◌∷◌, ◌++◌, ltb, ◌==◌, if◌then◌else◌, length, get_elem?, Text, text, str_eq, empty,
}
use lab_monitor.Base.Decimal.{to_string, is_digit}
use lab_monitor.Base.OrderedMap
use lab_monitor.Base.Json.{Expected, View, JsonLibrary}

pub data PathError : Type 0 where
  malformed no_such_field : PathError

pub record PathFailure : Type 0 where
  pub kind : PathError
  pub message : Text

pub data Segment : Type 0 where
  field : Text → Segment
  index : ℕ → Segment
  any_index : Segment

pub record Parsed : Type 0 where
  pub segments : List Segment
  pub length_projection : Bool

unfoldable pub fail_malformed : Text → PathFailure
fail_malformed message = record { kind = PathError.malformed; message = message }

unfoldable pub fail_missing : Text → PathFailure
fail_missing message = record { kind = PathError.no_such_field; message = message }

unfoldable pub quoted_name : Text → Text
quoted_name s = b'"' ∷ (s ++ b'"' ∷ [])

abbrev push_cut : ℕ → Option (Text × Text) → Option (Text × Text)
push_cut a none = none
push_cut a (some (s, t)) = some (a ∷ s, t)

-- find(']') and the two substr: the text before the bracket and the text behind it.
unfoldable pub cut : Text → Option (Text × Text)
cut [] = none
cut (a ∷ s) = let rest = cut s in if a == b']' then some ([], s) else push_cut a rest

-- find_first_of(".[") and substr: the name, and the text from the character found on.
abbrev push_name : ℕ → Text × Text → Text × Text
push_name a (s, t) = (a ∷ s, t)

unfoldable pub name_at : Text → Text × Text
name_at [] = ([], [])
name_at (a ∷ s) =
    let rest = name_at s in if a == b'.' || a == b'[' then ([], a ∷ s) else push_name a rest

-- The digit loop: `index` is a std::size_t and wraps.
unfoldable pub read_index : ℕ → Text → Option ℕ
read_index n [] = some n
read_index n (c ∷ digits) =
    let rest = read_index ((n * 10 + (c - b'0')) % 2 ^ 64) digits in
    if is_digit c then rest else none

abbrev index_read : Text → Option ℕ → Expected Segment PathFailure
index_read digits none =
    Expected.unexpected
      (fail_malformed (text "index \"" ++ (digits ++ text "\" is not a number or \"*\"")))
index_read digits (some n) = Expected.value (index n)

-- What the text between brackets stands for.
unfoldable pub index_segment : Text → Expected Segment PathFailure
unfolding read_index
index_segment digits =
    if empty digits
    then Expected.unexpected (fail_malformed (text "empty index in the path"))
    else if str_eq digits (text "*")
    then Expected.value any_index
    else index_read digits (read_index 0 digits)

-- The segments so far and the text that is left, behind one round of the loop.
abbrev Round : Type 0
Round = Expected (List Segment × Text) PathFailure

abbrev after_dot : List Segment → Text → Round
after_dot segments rest =
    if empty rest
    then Expected.unexpected (fail_malformed (text "the path ends with '.'"))
    else Expected.value (segments, rest)

unfoldable pub after_bracket : List Segment → Text → Round
after_bracket segments [] = Expected.value (segments, [])
after_bracket segments (c ∷ rest) =
    if c == b'.'
    then after_dot segments rest
    else if c == b'['
    then Expected.value (segments, c ∷ rest)
    else Expected.unexpected (fail_malformed (text "expected '.' or '[' after ']' in the path"))

abbrev push_segment : List Segment → Text → Expected Segment PathFailure → Round
push_segment segments behind (Expected.unexpected e) = Expected.unexpected e
push_segment segments behind (Expected.value s) = after_bracket (segments ++ s ∷ []) behind

abbrev close_bracket : List Segment → Option (Text × Text) → Round
close_bracket segments none = Expected.unexpected (fail_malformed (text "unclosed '[' in the path"))
close_bracket segments (some (digits, behind)) = push_segment segments behind (index_segment digits)

abbrev no_segment : List Segment → Bool
no_segment [] = true
no_segment (_ ∷ _) = false

-- A round at an opening bracket, of which `rest` is what follows it.
unfoldable pub bracket_round : List Segment → Text → Round
unfolding cut after_bracket
bracket_round segments rest =
    if no_segment segments
    then Expected.unexpected (fail_malformed (text "a path cannot start with '['"))
    else close_bracket segments (cut rest)

abbrev after_name : List Segment → Text → Round
after_name segments [] = Expected.value (segments, [])
after_name segments (c ∷ rest) =
    if c == b'.' then after_dot segments rest else Expected.value (segments, c ∷ rest)

abbrev named : List Segment → Text × Text → Round
named segments (name, rest) =
    if empty name
    then Expected.unexpected (fail_malformed (text "empty field name in the path"))
    else after_name (segments ++ field name ∷ []) rest

-- A round at any other character.
unfoldable pub name_round : List Segment → Text → Round
unfolding name_at
name_round segments path = named segments (name_at path)

unfoldable pub round : List Segment → ℕ → Text → Round
unfolding bracket_round name_round
round segments c rest =
    if c == b'[' then bracket_round segments rest else name_round segments (c ∷ rest)

abbrev next_round :
    (List Segment → Text → Option (Expected (List Segment) PathFailure))
    → Round
    → Option (Expected (List Segment) PathFailure)
next_round loop (Expected.unexpected e) = some (Expected.unexpected e)
next_round loop (Expected.value (segments, rest)) = loop segments rest

-- The loop over the path; none where the rounds run out.
unfoldable pub parse_loop : ℕ → List Segment → Text → Option (Expected (List Segment) PathFailure)
unfolding round
parse_loop rounds segments [] = some (Expected.value segments)
parse_loop zero segments (c ∷ rest) = none
parse_loop (suc rounds) segments (c ∷ rest) = next_round (parse_loop rounds) (round segments c rest)

abbrev push_front : Segment → Parsed → Parsed
push_front s parsed = record parsed { segments = s ∷ parsed.segments }

abbrev is_length : Segment → Bool
is_length (field name) = str_eq name (text "length")
is_length (index _) = false
is_length any_index = false

-- A field `length` in final position is the projection.
unfoldable pub project : List Segment → Parsed
project [] = record { segments = []; length_projection = false }
project (s ∷ []) =
    if is_length s
    then record { segments = []; length_projection = true }
    else record { segments = s ∷ []; length_projection = false }
project (s ∷ t ∷ rest) = push_front s (project (t ∷ rest))

abbrev projected : Option (Expected (List Segment) PathFailure) → Expected Parsed PathFailure
projected none = Expected.unexpected (fail_malformed [])
projected (some (Expected.unexpected e)) = Expected.unexpected e
projected (some (Expected.value segments)) = Expected.value (project segments)

-- Each round takes at least one character.
unfoldable pub parse : Text → Expected Parsed PathFailure
unfolding parse_loop project
parse path = projected (parse_loop (length path) [] path)
