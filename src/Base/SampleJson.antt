-- ===== src/Base/SampleJson.antt =====
-- A JSON library for the examples: numbers without a sign, and a parser that knows the texts that the
-- examples use. One document more, a parameter, is the one that is dumped and read again.
use lab_monitor.Base.{
  ℕ, suc, Bool, false, none, some, List, [], ◌∷◌, ◌++◌, refl, ap, ◌≡◌, ◌==◌, leb, if◌then◌else◌, ℤ,
  pos, negsuc, Text, text, str_eq,
}
use lab_monitor.Base.OrderedMap
use lab_monitor.Base.Json.{Expected, View, JsonLibrary}

pub data Leaf : Type 0 where
  number : ℕ → Leaf
  signed : ℤ → Leaf
  word : Text → Leaf
  flag : Bool → Leaf

mutual
  pub data Document : Type 0 where
    leaf : Leaf → Document
    elements : Documents → Document
    fields : Members → Document

  pub data Documents : Type 0 where
    no_documents : Documents
    documents : Document → Documents → Documents

  pub data Members : Type 0 where
    no_members : Members
    members : Text → Document → Members → Members

abbrev pub to_documents : List Document → Documents
to_documents [] = Documents.no_documents
to_documents (d ∷ ds) = Documents.documents d (to_documents ds)

abbrev pub of_documents : Documents → List Document
of_documents Documents.no_documents = []
of_documents (Documents.documents d ds) = d ∷ of_documents ds

abbrev pub to_members : List (Text × Document) → Members
to_members [] = Members.no_members
to_members ((k, d) ∷ ms) = Members.members k d (to_members ms)

abbrev pub of_members : Members → List (Text × Document)
of_members Members.no_members = []
of_members (Members.members k d ms) = (k, d) ∷ of_members ms

pub of_documents-to_documents : (ds : List Document) → of_documents (to_documents ds) ≡ ds
of_documents-to_documents [] = refl
of_documents-to_documents (d ∷ ds) = ap (λ e. d ∷ e) (of_documents-to_documents ds)

pub of_members-to_members : (ms : List (Text × Document)) → of_members (to_members ms) ≡ ms
of_members-to_members [] = refl
of_members-to_members (m ∷ ms) = ap (λ e. m ∷ e) (of_members-to_members ms)

abbrev pub view_of : Document → View Document ℕ
view_of (Document.leaf (Leaf.number n)) = View.unsigned n
view_of (Document.leaf (Leaf.signed z)) = View.integer z
view_of (Document.leaf (Leaf.word s)) = View.string s
view_of (Document.leaf (Leaf.flag b)) = View.boolean b
view_of (Document.elements values) = View.array (of_documents values)
view_of (Document.fields values) = View.object (of_members values)

abbrev pub denial : Document
denial = Document.fields (
    to_members (
      (text "ok", Document.leaf (Leaf.flag false))
      ∷ (text "message", Document.leaf (Leaf.word (text "disk full")))
      ∷ []))

abbrev pub skus : Document
skus =
    Document.elements
      (to_documents (Document.leaf (Leaf.number 7) ∷ Document.leaf (Leaf.word (text "B-2")) ∷ []))

abbrev pub parse_sample : Document → Text → Expected Document Text
parse_sample dumped s =
    if str_eq s (text "{\"ok\":false}")
    then Expected.value denial
    else if str_eq s (text "[7,\"B-2\"]")
    then Expected.value skus
    else if str_eq s (text "{}")
    then Expected.value dumped
    else Expected.unexpected (text "unexpected end of input")

abbrev magnitude : ℤ → ℕ
magnitude (pos n) = n
magnitude (negsuc n) = suc n

abbrev pub number_in : Document → Expected ℕ Text
number_in (Document.leaf (Leaf.number n)) = Expected.value n
number_in _ = Expected.unexpected (text "type must be number")

abbrev pub signed_in : Document → Expected ℤ Text
signed_in (Document.leaf (Leaf.signed z)) = Expected.value z
signed_in _ = Expected.unexpected (text "type must be number")

pub parse_sample-dumped :
    (dumped : Document) → parse_sample dumped (text "{}") ≡ Expected.value dumped
unfolding text str_eq
parse_sample-dumped dumped = refl

abbrev pub json_with : Document → JsonLibrary
json_with dumped = record {
  Json = Document;
  Double = ℕ;
  view = view_of;
  parse_json = parse_sample dumped;
  dump = λ _. text "value";
  dump_error = λ _. none;
  dump_indented = λ _ _. text "{}";
  IsPrintable = λ j. j ≡ dumped;
  parse_json-dump_indented = λ indent j e. rw e (parse_sample-dumped dumped);
  of_size = λ n. Document.leaf (Leaf.number n);
  view-of_size = λ n. refl;
  of_string = λ s. Document.leaf (Leaf.word s);
  view-of_string = λ s. refl;
  of_boolean = λ b. Document.leaf (Leaf.flag b);
  view-of_boolean = λ b. refl;
  of_array = λ ds. Document.elements (to_documents ds);
  view-of_array = λ ds. ap View.array (of_documents-to_documents ds);
  of_object = λ ms. Document.fields (to_members (OrderedMap.of_list ms));
  view-of_object = λ ms. ap View.object (of_members-to_members (OrderedMap.of_list ms));
  of_integer = λ z. Document.leaf (Leaf.signed z);
  get_int = signed_in;
  get_int64 = signed_in;
  get_uint32 = number_in;
  get_uint64 = number_in;
  get_int-of_integer = λ z h. refl;
  get_int64-of_integer = λ z h. refl;
  get_uint32-of_size = λ n h. refl;
  get_uint64-of_size = λ n h. refl;
  type_error = λ kind j. text "type must be " ++ kind;
  missing_key = λ k. text "key not found: " ++ k;
  stod = λ s. if str_eq s (text "7") then some 7 else none;
  double_of_integer = magnitude;
  double_of_unsigned = λ n. n;
  double_le = leb;
  double_eq = λ a b. a == b;
  double_to_string = λ _. text "7.000000";
}

abbrev pub sample_json : JsonLibrary
sample_json = json_with skus
