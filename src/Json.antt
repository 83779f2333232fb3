-- ===== src/Json.antt =====
-- The interface of boost::json, which is not part of the repository, as far as
-- src/stratum_client/messages.cpp uses it.
use btccpu.Prelude.{ℕ, ℤ, Bool, List, Option, none, some, ◌≡◌, ◌≢◌, refl}

-- What `is_bool`, `as_bool` and the like tell of a value.
pub data Kind (Value Object Double : Type 0) : Type 0 where
  null : Kind Value Object Double
  boolean : Bool → Kind Value Object Double
  int64 : ℤ → Kind Value Object Double
  uint64 : ℕ → Kind Value Object Double
  double : Double → Kind Value Object Double
  string : List ℕ → Kind Value Object Double
  array : List Value → Kind Value Object Double
  object : Object → Kind Value Object Double

pub record Json (Double : Type 0) : Type 1 where
  pub Value : Type 0
  pub Object : Type 0
  pub kind : Value → Kind Value Object Double
  -- The constructors of `boost::json::value`.
  pub value : Kind Value Object Double → Value
  -- `find`, and the value that the iterator points to.
  pub find : Object → List ℕ → Option Value
  pub empty_object : Object
  -- `message[key] = value`
  pub assign : Object → List ℕ → Value → Object
  -- `parse`, where `none` is an error code.
  pub parse : List ℕ → Option Value
  pub serialize : Value → List ℕ

module _ {Double : Type 0} (json : Json Double) where
  abbrev pub as_array : json.Value → Option (List json.Value)
  as_array v = elim (json.kind v) [ array vs ↦ some vs | _ ↦ none ]

  abbrev pub as_string : json.Value → Option (List ℕ)
  as_string v = elim (json.kind v) [ string s ↦ some s | _ ↦ none ]

  abbrev pub as_bool : json.Value → Option Bool
  as_bool v = elim (json.kind v) [ boolean b ↦ some b | _ ↦ none ]

-- What boost::json documents: a value has the kind that it was made of, and an object has the
-- members assigned to it.
pub record IsJson {Double : Type 0} (json : Json Double) : Type 0 where
  pub kind-value : (k : Kind json.Value json.Object Double) → json.kind (json.value k) ≡ k
  pub find-assign :
      (o : json.Object) (key : List ℕ) (v : json.Value)
      → json.find (json.assign o key v) key ≡ some v
  pub find-assign_other :
      (o : json.Object) (key other : List ℕ) (v : json.Value)
      → other ≢ key
      → json.find (json.assign o key v) other ≡ json.find o other

-- A value that `as_bool` reads is a Boolean.
abbrev kind_bool : {Value Object Double : Type 0} → Kind Value Object Double → Option Bool
kind_bool k = elim k [ boolean b ↦ some b | _ ↦ none ]

kind_bool-some :
    {Value Object Double : Type 0} (k : Kind Value Object Double) (b : Bool)
    → kind_bool k ≡ some b
    → k ≡ boolean b
kind_bool-some null b h = cc
kind_bool-some (boolean c) b h = cc
kind_bool-some (int64 i) b h = cc
kind_bool-some (uint64 n) b h = cc
kind_bool-some (double d) b h = cc
kind_bool-some (string s) b h = cc
kind_bool-some (array vs) b h = cc
kind_bool-some (object o) b h = cc

pub as_bool-some :
    {Double : Type 0} (json : Json Double) (v : json.Value) (b : Bool)
    → as_bool json v ≡ some b
    → json.kind v ≡ boolean b
as_bool-some json v b h = kind_bool-some (json.kind v) b h

-- What is read of a value of a kind.
module _ {Double : Type 0} (json : Json Double) (v : json.Value) where
  pub as_array-array : (vs : List json.Value) → json.kind v ≡ array vs → as_array json v ≡ some vs
  as_array-array vs is_array = rw (is_array, as_array) refl

  pub as_array-boolean : (b : Bool) → json.kind v ≡ boolean b → as_array json v ≡ none
  as_array-boolean b is_bool = rw (is_bool, as_array) refl

  pub as_string-string : (s : List ℕ) → json.kind v ≡ string s → as_string json v ≡ some s
  as_string-string s is_string = rw (is_string, as_string) refl

  pub as_bool-boolean : (b : Bool) → json.kind v ≡ boolean b → as_bool json v ≡ some b
  as_bool-boolean b is_bool = rw (is_bool, as_bool) refl
