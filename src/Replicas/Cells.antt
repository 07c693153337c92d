-- ===== src/Replicas/Cells.antt =====
-- What the four lists of Connection_RM3 stand for: each replica is unknown, waits to be
-- constructed, or is constructed, and then may be serialized and may be destructed. The
-- functions of patch/ReplicaManager3.cpp that move a replica, as changes of one cell.
use mathlib.Core.Path.{subst}
use raknet_proxy.Base.{
  ℕ, ◌≡◌, refl, sym, ◌∙◌, ap, Bool, true, false, List, [], ◌∷◌, ◌++◌, Option, none, some, ◌==◌,
  if◌then◌else◌, Bool-cases, inl, inr, arith,
}
use raknet_proxy.Replicas.{Entry, OrderedList, Connection, find}
use raknet_proxy.Replicas.Searching.{Once, or_last, find-append}

pub data Cell : Type 0 where
  unknown : Cell
  queued : ℕ → Cell
  built : ℕ → Bool → Bool → Cell

abbrev entry_if : Bool → ℕ → ℕ → Option Entry
entry_if true r n = some (record { node = n; replica = r })
entry_if false r n = none

-- What each list has of a replica in a cell; the number is the address of its entry.
abbrev pub in_constructed : ℕ → Cell → Option Entry
in_constructed r (built n a b) = entry_if true r n
in_constructed r _ = none

abbrev pub in_to_construct : ℕ → Cell → Option Entry
in_to_construct r (queued n) = entry_if true r n
in_to_construct r _ = none

abbrev pub in_to_serialize : ℕ → Cell → Option Entry
in_to_serialize r (built n a b) = entry_if a r n
in_to_serialize r _ = none

abbrev pub in_to_destruct : ℕ → Cell → Option Entry
in_to_destruct r (built n a b) = entry_if b r n
in_to_destruct r _ = none

-- The entry that a cell stands for.
abbrev pub entry_of : ℕ → Cell → Option Entry
entry_of r unknown = none
entry_of r (queued n) = some (record { node = n; replica = r })
entry_of r (built n a b) = some (record { node = n; replica = r })

pub queued_of : (r : ℕ) (v : Cell) (e : Entry) → in_to_construct r v ≡ some e → v ≡ queued e.node
queued_of r unknown e f = cc
queued_of r (queued n) e f = ground arith
queued_of r (built n a b) e f = cc

pub serialized_of :
    (r : ℕ) (v : Cell) (e : Entry) → in_to_serialize r v ≡ some e → entry_of r v ≡ some e
serialized_of r unknown e f = cc
serialized_of r (queued n) e f = cc
serialized_of r (built n true b) e f = f
serialized_of r (built n false b) e f = cc

-- A constructed cell that may be destructed.
pub built_of :
    (r : ℕ) (v : Cell) (e : Entry)
    → in_to_destruct r v ≡ some e
    → (a : Bool) × (v ≡ built e.node a true)
built_of r unknown e f = cc
built_of r (queued n) e f = cc
built_of r (built n a true) e f = (a, ground arith)
built_of r (built n a false) e f = cc

-- The abstract connection: a cell for each replica.
abbrev pub Cells : Type 0
Cells = ℕ → Cell

abbrev pub update : Cells → ℕ → Cell → Cells
update f k v r = if k == r then v else f r

-- g' is g, changed at one key.
abbrev pub Sets : (ℕ → Option Entry) → (ℕ → Option Entry) → ℕ → Option Entry → Type 0
Sets g g' k v = (r : ℕ) → g' r ≡ (if k == r then v else g r)

pub Sets-same : (g : ℕ → Option Entry) (k : ℕ) (v : Option Entry) → g k ≡ v → Sets g g k v
Sets-same g k v e r = elim (Bool-cases (k == r)) [
  | inl hit ↦ let same : k ≡ r = ground arith in rw hit (ap g (sym same) ∙ e)
  | inr miss ↦ rw miss refl
]

pub Sets-append :
    (es : List Entry) (e : Entry)
    → find e.replica es ≡ none
    → Sets (λ r. find r es) (λ r. find r (es ++ e ∷ [])) e.replica (some e)
Sets-append es e new r = elim (Bool-cases (e.replica == r)) [
  | inl hit ↦
      let same : e.replica ≡ r = ground arith in
      let new' : find r es ≡ none = rw (← same) new in
      rw hit (find-append r es e ∙ ground (arith, new', hit))
  | inr miss ↦ rw miss (find-append r es e ∙ keep (find r es) miss)
]
  where
    keep : (x : Option Entry) → (e.replica == r) ≡ false → or_last r e x ≡ x
    keep none m = ground arith
    keep (some y) m = refl

-- A list follows the cell before and after.
pick :
    (k r : ℕ) (v : Cell) (list : ℕ → Cell → Option Entry) (x : Option Entry) (u : Cell)
    → x ≡ list r u
    → (if k == r then list k v else x) ≡ list r (if k == r then v else u)
pick k r v list x u e = elim (Bool-cases (k == r)) [
  | inl hit ↦ let same : k ≡ r = ground arith in rw hit (ap (λ n. list n v) same)
  | inr miss ↦ rw miss e
]

module _ (o : OrderedList) where
  pub record HasCell (c : Connection o.T) (r : ℕ) (v : Cell) : Type 0 where
    pub constructed : o.lookup r c.constructed ≡ in_constructed r v
    pub to_construct : find r c.to_construct ≡ in_to_construct r v
    pub to_serialize : find r c.to_serialize ≡ in_to_serialize r v
    pub to_destruct : find r c.to_destruct ≡ in_to_destruct r v

  -- The lists implement the cells.
  pub record Refines (c : Connection o.T) (f : Cells) : Type 0 where
    pub once_construct : Once c.to_construct
    pub once_serialize : Once c.to_serialize
    pub once_destruct : Once c.to_destruct
    pub cell : (r : ℕ) → HasCell c r (f r)

  -- One replica's cell changes, and each list changes at that replica only.
  pub record Moves (c c' : Connection o.T) (k : ℕ) (v : Cell) : Type 0 where
    pub constructed :
        Sets (λ r. o.lookup r c.constructed) (λ r. o.lookup r c'.constructed) k (in_constructed k v)
    pub to_construct :
        Sets (λ r. find r c.to_construct) (λ r. find r c'.to_construct) k (in_to_construct k v)
    pub to_serialize :
        Sets (λ r. find r c.to_serialize) (λ r. find r c'.to_serialize) k (in_to_serialize k v)
    pub to_destruct :
        Sets (λ r. find r c.to_destruct) (λ r. find r c'.to_destruct) k (in_to_destruct k v)
    pub once_construct : Once c'.to_construct
    pub once_serialize : Once c'.to_serialize
    pub once_destruct : Once c'.to_destruct

  pub Moves-Refines :
      (c c' : Connection o.T) (k : ℕ) (v : Cell) (f : Cells)
      → Refines c f
      → Moves c c' k v
      → Refines c' (update f k v)
  Moves-Refines c c' k v f w m = record {
    once_construct = m.once_construct;
    once_serialize = m.once_serialize;
    once_destruct = m.once_destruct;
    cell = λ r.
        let there = w.cell r in
        record {
          constructed =
              m.constructed r
              ∙ pick k r v in_constructed (o.lookup r c.constructed) (f r) there.constructed;
          to_construct =
              m.to_construct r
              ∙ pick k r v in_to_construct (find r c.to_construct) (f r) there.to_construct;
          to_serialize =
              m.to_serialize r
              ∙ pick k r v in_to_serialize (find r c.to_serialize) (f r) there.to_serialize;
          to_destruct =
              m.to_destruct r
              ∙ pick k r v in_to_destruct (find r c.to_destruct) (f r) there.to_destruct;
        };
  }

  -- The lists at a replica whose cell is known.
  pub cell_at :
      (c : Connection o.T) (f : Cells) → Refines c f → (k : ℕ) (v : Cell) → f k ≡ v → HasCell c k v
  cell_at c f w k v e = subst (HasCell c k) e (w.cell k)
