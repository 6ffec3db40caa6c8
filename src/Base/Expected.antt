-- ===== src/Base/Expected.antt =====
-- Chains of std::expected, and the accesses to a JSON value that throw where they do not fit.
use mathlib.Core.Path.{◌≡◌, refl, ap, ◌∙◌}
use mathlib.Core.Bool.{Bool, true, false}
use mathlib.Core.Option.{Option, none, some}
use mathlib.Core.List.{List, [], ◌∷◌, map}
use lab_monitor.Base.Lists.{All}
use lab_monitor.Base.Strings.{Text, text}
use lab_monitor.Base.OrderedMap
use lab_monitor.Base.Json.{Expected, View, JsonLibrary}

infixl 10 ◌>>=◌
abbrev pub ◌>>=◌ : {A B : Type 0} → Expected A Text → (A → Expected B Text) → Expected B Text
Expected.value a >>= f = f a
Expected.unexpected e >>= f = Expected.unexpected e

-- An optional that is required, or the exception thrown without it.
abbrev pub or_throw : {A : Type 0} → Text → Option A → Expected A Text
or_throw e none = Expected.unexpected e
or_throw e (some a) = Expected.value a

-- A function that throws, over the elements of a vector in their order.
unfoldable pub each : {A B : Type 0} → (A → Expected B Text) → List A → Expected (List B) Text
each f [] = Expected.value []
each f (x ∷ xs) = let rest = each f xs in f x >>= λ y. rest >>= λ ys. Expected.value (y ∷ ys)

pub each-map :
    {A B : Type 0} (f : B → Expected A Text) (g : A → B) (xs : List A)
    → All (λ x. f (g x) ≡ Expected.value x) xs
    → each f (map g xs) ≡ Expected.value xs
unfolding each
each-map f g [] h = refl
each-map f g (x ∷ xs) (h, hs) = rw (h, each-map f g xs hs) refl

module _ (J : JsonLibrary) where
  open J use {Json, Double, view}

  abbrev pub found : Text → Option Json → Expected Json Text
  found key o = or_throw (J.missing_key key) o

  abbrev pub at_view : Json → Text → View Json Double → Expected Json Text
  at_view j key (View.object members) = found key (OrderedMap.find key members)
  at_view j key _ = Expected.unexpected (J.type_error (text "object") j)

  unfoldable pub at : Json → Text → Expected Json Text
  at j key = at_view j key (view j)

  abbrev pub is_found : Option Json → Bool
  is_found none = false
  is_found (some _) = true

  -- `contains`: false on a value that is no object.
  abbrev pub contains_view : Text → View Json Double → Bool
  contains_view key (View.object members) = is_found (OrderedMap.find key members)
  contains_view key _ = false

  unfoldable pub contains_key : Json → Text → Bool
  contains_key j key = contains_view key (view j)

  abbrev pub string_view : Json → View Json Double → Expected Text Text
  string_view j (View.string s) = Expected.value s
  string_view j _ = Expected.unexpected (J.type_error (text "string") j)

  unfoldable pub get_string : Json → Expected Text Text
  get_string j = string_view j (view j)

  -- get<std::string> of the value under a key.
  abbrev pub string_at : Json → Text → Expected Text Text
  string_at j key = at j key >>= get_string

  abbrev pub boolean_view : Json → View Json Double → Expected Bool Text
  boolean_view j (View.boolean b) = Expected.value b
  boolean_view j _ = Expected.unexpected (J.type_error (text "boolean") j)

  unfoldable pub get_boolean : Json → Expected Bool Text
  get_boolean j = boolean_view j (view j)

  abbrev pub elements_view : Json → View Json Double → Expected (List Json) Text
  elements_view j (View.array elements) = Expected.value elements
  elements_view j _ = Expected.unexpected (J.type_error (text "array") j)

  unfoldable pub get_elements : Json → Expected (List Json) Text
  get_elements j = elements_view j (view j)

  abbrev pub members_view : Json → View Json Double → Expected (List (Text × Json)) Text
  members_view j (View.object members) = Expected.value members
  members_view j _ = Expected.unexpected (J.type_error (text "object") j)

  unfoldable pub get_members : Json → Expected (List (Text × Json)) Text
  get_members j = members_view j (view j)

  pub at-of_object :
      (members : List (Text × Json)) (key : Text) (o : Option Json)
      → OrderedMap.find key members ≡ o
      → at (J.of_object members) key ≡ found key o
  unfolding at
  at-of_object members key o h =
      ap (at_view (J.of_object members) key) (J.view-of_object members)
      ∙ ap (found key) (OrderedMap.find-of_list key members ∙ h)

  pub contains_key-of_object :
      (members : List (Text × Json)) (key : Text) (o : Option Json)
      → OrderedMap.find key members ≡ o
      → contains_key (J.of_object members) key ≡ is_found o
  unfolding contains_key
  contains_key-of_object members key o h =
      ap (contains_view key) (J.view-of_object members)
      ∙ ap is_found (OrderedMap.find-of_list key members ∙ h)

  pub get_string-of_string : (s : Text) → get_string (J.of_string s) ≡ Expected.value s
  unfolding get_string
  get_string-of_string s = ap (string_view (J.of_string s)) (J.view-of_string s)

  pub get_boolean-of_boolean : (b : Bool) → get_boolean (J.of_boolean b) ≡ Expected.value b
  unfolding get_boolean
  get_boolean-of_boolean b = ap (boolean_view (J.of_boolean b)) (J.view-of_boolean b)

  pub get_elements-of_array : (js : List Json) → get_elements (J.of_array js) ≡ Expected.value js
  unfolding get_elements
  get_elements-of_array js = ap (elements_view (J.of_array js)) (J.view-of_array js)

  pub get_members-of_object :
      (members : List (Text × Json))
      → OrderedMap.IsOrdered members
      → get_members (J.of_object members) ≡ Expected.value members
  unfolding get_members
  get_members-of_object members h =
      ap (members_view (J.of_object members)) (J.view-of_object members)
      ∙ ap Expected.value (OrderedMap.of_list-IsOrdered members h)

  pub at_of :
      (members : List (Text × Json)) (key : Text) (j : Json)
      → OrderedMap.find key members ≡ some j
      → at (J.of_object members) key ≡ Expected.value j
  at_of members key j h = at-of_object members key (some j) h

  pub string_at_of :
      (members : List (Text × Json)) (key s : Text)
      → OrderedMap.find key members ≡ some (J.of_string s)
      → string_at (J.of_object members) key ≡ Expected.value s
  string_at_of members key s h = rw (at_of members key (J.of_string s) h) (get_string-of_string s)
