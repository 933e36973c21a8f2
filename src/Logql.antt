-- ===== src/Logql.antt =====
-- internal/query/logql: the nodes of a parsed query (ast.go), and the logs that they are about.
-- Logql/Search, Logql/Attrs and Logql/Match are match.go, and Logql/Needs is needs.go. textsOf of internal/logstore/bloom.go is here too,
-- since it walks the same logs.
pub mod Search
pub mod Attrs
pub mod Match
pub mod Needs
pub mod Lower
pub mod Found
pub mod Text
pub mod Sound
use ozymandias.Base.{
  ℕ, zero, suc, ◌+◌, ◌*◌, Bool, true, false, not, ◌&&◌, ◌||◌, Option, none, some, List, [], ◌∷◌,
  ◌++◌, length, drop, map, if◌then◌else◌, ltb, leb, ◌==◌,
}
use ozymandias.Base.Bytes.{Bytes}

pub data Op : Type 0 where
  eq : Op
  gt : Op
  ge : Op
  lt : Op
  le : Op
  range : Op

-- The floats of an attribute term are their bit patterns.
pub record Attr : Type 0 where
  pub path : Bytes
  pub op : Op
  pub value : Bytes
  pub num : ℕ
  pub hi : ℕ

mutual
  pub data Node : Type 0 where
    or : Nodes → Node
    and : Nodes → Node
    negation : Node → Node
    text : Bytes → Node
    label : Bytes → Bytes → Node
    attr : Attr → Node

  pub data Nodes : Type 0 where
    nil : Nodes
    cons : Node → Nodes → Nodes

-- A value of an attribute, as JSON is decoded with its numbers kept as text. A map is its members, with
-- distinct keys.
mutual
  pub data Value : Type 0 where
    string : Bytes → Value
    object : Members → Value
    array : Elements → Value
    number : Bytes → Value
    boolean : Bool → Value
    null : Value

  pub data Members : Type 0 where
    no_more : Members
    member : Bytes → Value → Members → Members

  pub data Elements : Type 0 where
    last : Elements
    element : Value → Elements → Elements

-- What a query reads of a log.
pub record Log : Type 0 where
  pub message : Bytes
  pub status : Bytes
  pub service : Bytes
  pub source : Bytes
  pub host : Bytes
  pub tags : List Bytes
  pub trace_id : Bytes
  pub attrs : Members

-- "true", "false" and "null", as `ValueText` gives them.
abbrev pub bool_text : Bool → Bytes
bool_text true = 116 ∷ 114 ∷ 117 ∷ 101 ∷ []
bool_text false = 102 ∷ 97 ∷ 108 ∷ 115 ∷ 101 ∷ []

abbrev pub null_text : Bytes
null_text = 110 ∷ 117 ∷ 108 ∷ 108 ∷ []

-- `textsOf`, in the order of the walk.
unfoldable mutual
  pub texts_of_value : Value → List Bytes
  texts_of_value (string s) = s ∷ []
  texts_of_value (object ms) = texts_of_members ms
  texts_of_value (array xs) = texts_of_elements xs
  texts_of_value (number s) = s ∷ []
  texts_of_value (boolean b) = bool_text b ∷ []
  texts_of_value null = null_text ∷ []

  pub texts_of_members : Members → List Bytes
  texts_of_members no_more = []
  texts_of_members (member k v ms) = texts_of_value v ++ texts_of_members ms

  pub texts_of_elements : Elements → List Bytes
  texts_of_elements last = []
  texts_of_elements (element v xs) = texts_of_value v ++ texts_of_elements xs

abbrev pub texts_of : Log → List Bytes
texts_of l = l.message ∷ texts_of_members l.attrs

-- `anyString`
unfoldable mutual
  pub any_string : (Bytes → Bool) → Value → Bool
  any_string fn (string s) = fn s
  any_string fn (object ms) = any_in_members fn ms
  any_string fn (array xs) = any_in_elements fn xs
  any_string fn (number s) = false
  any_string fn (boolean b) = false
  any_string fn null = false

  pub any_in_members : (Bytes → Bool) → Members → Bool
  any_in_members fn no_more = false
  any_in_members fn (member k v ms) = any_string fn v || any_in_members fn ms

  pub any_in_elements : (Bytes → Bool) → Elements → Bool
  any_in_elements fn last = false
  any_in_elements fn (element v xs) = any_string fn v || any_in_elements fn xs
