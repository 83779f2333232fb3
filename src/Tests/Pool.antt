-- ===== src/Tests/Pool.antt =====
-- A JSON library and a connection that satisfy the interfaces: trees, and a list of the reads to come.
use btccpu.Prelude.{
  ℕ, ℤ, ◌≡◌, refl, subst, sym, ap, ◌∙◌, Bool, true, List, [], ◌∷◌, ◌++◌, append_assoc, Option, none,
  some, Bool-cases, inl, inr, if◌then◌else◌, equal_text, equal_text_self, equal_text-true, contains,
  Result, ok, err, runtime_error, ok-injective,
}
use btccpu.Json.{Kind, null, boolean, int64, uint64, double, string, array, object, Json, IsJson}
use btccpu.Connection.{Connection, IsConnection}

mutual
  pub data Tree : Type 0 where
    nothing : Tree
    truth : Bool → Tree
    whole : ℤ → Tree
    large : ℕ → Tree
    real : ℕ → Tree
    words : List ℕ → Tree
    row : Row → Tree
    table : Table → Tree

  pub data Row : Type 0 where
    stop : Row
    cell : Tree → Row → Row

  pub data Table : Type 0 where
    bare : Table
    entry : List ℕ → Tree → Table → Table

abbrev cells : Row → List Tree
cells stop = []
cells (cell t r) = t ∷ cells r

abbrev pub row_of : List Tree → Row
row_of [] = stop
row_of (t ∷ ts) = cell t (row_of ts)

cells-row_of : (ts : List Tree) → cells (row_of ts) ≡ ts
cells-row_of [] = refl
cells-row_of (t ∷ ts) = ap (λ l. t ∷ l) (cells-row_of ts)

abbrev kind_of : Tree → Kind Tree Table ℕ
kind_of nothing = null
kind_of (truth b) = boolean b
kind_of (whole i) = int64 i
kind_of (large n) = uint64 n
kind_of (real d) = double d
kind_of (words s) = string s
kind_of (row r) = array (cells r)
kind_of (table o) = object o

abbrev tree_of : Kind Tree Table ℕ → Tree
tree_of null = nothing
tree_of (boolean b) = truth b
tree_of (int64 i) = whole i
tree_of (uint64 n) = large n
tree_of (double d) = real d
tree_of (string s) = words s
tree_of (array ts) = row (row_of ts)
tree_of (object o) = table o

kind_of-tree_of : (k : Kind Tree Table ℕ) → kind_of (tree_of k) ≡ k
kind_of-tree_of null = refl
kind_of-tree_of (boolean b) = refl
kind_of-tree_of (int64 i) = refl
kind_of-tree_of (uint64 n) = refl
kind_of-tree_of (double d) = refl
kind_of-tree_of (string s) = refl
kind_of-tree_of (array ts) =
    ap (λ (l : List Tree). let k : Kind Tree Table ℕ = array l in k) (cells-row_of ts)
kind_of-tree_of (object o) = refl

abbrev entry_of : Table → List ℕ → Option Tree
entry_of bare key = none
entry_of (entry k t o) key = let rest = entry_of o key in if equal_text k key then some t else rest

-- With a parser and a printer that are looked up.
abbrev pub trees : (List ℕ → Option Tree) → (Tree → List ℕ) → Json ℕ
trees parse serialize = record {
  Value = Tree;
  Object = Table;
  kind = kind_of;
  value = tree_of;
  find = entry_of;
  empty_object = bare;
  assign = λ o key t. entry key t o;
  parse = parse;
  serialize = serialize;
}

pub trees-IsJson :
    (parse : List ℕ → Option Tree) (serialize : Tree → List ℕ) → IsJson (trees parse serialize)
trees-IsJson parse serialize = record {
  kind-value = kind_of-tree_of;
  find-assign = λ o key t. rw (equal_text_self key) refl;
  find-assign_other = λ o key other t differ. elim (Bool-cases (equal_text key other)) [
    | inl e ↦ absurd (differ (sym (equal_text-true key other e)))
    | inr e ↦ rw e refl
  ];
}

-- The reads, up to the one with a newline.
abbrev fetch : List (List ℕ) → List ℕ → Result (List ℕ × List (List ℕ))
fetch [] buffer = if contains 10 buffer then ok (buffer, []) else err runtime_error
fetch (chunk ∷ chunks) buffer =
    let more = fetch chunks (buffer ++ chunk) in
    if contains 10 buffer then ok (buffer, chunk ∷ chunks) else more

abbrev pub joined : List (List ℕ) → List ℕ
joined [] = []
joined (chunk ∷ chunks) = chunk ++ joined chunks

abbrev pub wire : Connection
wire = record {
  Socket = List (List ℕ);
  fresh = [];
  connect = λ socket host port. ok socket;
  read_until_newline = fetch;
  write = λ socket bytes. ok socket;
  available = λ socket. some 1;
}

abbrev IsFetched : List (List ℕ) → List ℕ → List ℕ → List (List ℕ) → Type 0
IsFetched s buffer filled end =
    (filled ++ joined end ≡ buffer ++ joined s) × (contains 10 filled ≡ true)

fetch-IsFetched :
    (s : List (List ℕ)) (buffer filled : List ℕ) (end : List (List ℕ))
    → fetch s buffer ≡ ok (filled, end)
    → IsFetched s buffer filled end
fetch-IsFetched [] buffer filled end h = elim (Bool-cases (contains 10 buffer)) [
  | inl e ↦
      (let k = rw e at h in
        subst (λ (q : List ℕ × List (List ℕ)). IsFetched [] buffer q.0 q.1) (ok-injective k)
          (refl, e))
  | inr e ↦ (let k = rw e at h in cc)
]
fetch-IsFetched (chunk ∷ chunks) buffer filled end h = elim (Bool-cases (contains 10 buffer)) [
  | inl e ↦
      (let k = rw e at h in
        subst (λ (q : List ℕ × List (List ℕ)). IsFetched (chunk ∷ chunks) buffer q.0 q.1)
          (ok-injective k) (refl, e))
  | inr e ↦
      (let k = rw e at h in
        let (keeps, finds) = fetch-IsFetched chunks (buffer ++ chunk) filled end k in
        (keeps ∙ append_assoc buffer chunk (joined chunks), finds))
]

pub wire-IsConnection : IsConnection wire joined
wire-IsConnection = record {
  read_keeps = λ s end buffer filled h. (fetch-IsFetched s buffer filled end h).0;
  write_keeps = λ s end bytes h. ap joined (sym (ok-injective h));
  read_finds = λ s end buffer filled h. (fetch-IsFetched s buffer filled end h).1;
}
