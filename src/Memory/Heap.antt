-- ===== src/Memory/Heap.antt =====
-- A heap of list nodes, and commands on it. `none` is a fault: an access through a null pointer or
-- one to a node that is not allocated.
use ikp_projekat.Common.{ℕ, Option, none, some, ◌==◌, if◌then◌else◌}

abbrev pub Ptr : Type 0
Ptr = ℕ

abbrev pub null : Ptr
null = 0

pub record Node (A : Type 0) : Type 0 where
  pub item : A
  pub next : Ptr

module _ {A : Type 0} where
  abbrev pub node : A → Ptr → Node A
  node a p = record { item = a; next = p }

abbrev pub Heap : Type 0 → Type 0
Heap A = Ptr → Option (Node A)

abbrev pub Cmd : Type 0 → Type 0 → Type 0
Cmd A B = Heap A → Option (B × Heap A)

module _ {A : Type 0} where
  abbrev pub pure : {B : Type 0} → B → Cmd A B
  pure b h = some (b, h)

  abbrev pub continue_with :
      {B C : Type 0} → Option (B × Heap A) → (B → Cmd A C) → Option (C × Heap A)
  continue_with none f = none
  continue_with (some (b, h)) f = f b h

  -- One command and then another, on the heap that the first one leaves.
  infixl 5 ◌>>=◌ ◌>>◌
  abbrev pub ◌>>=◌ : {B C : Type 0} → Cmd A B → (B → Cmd A C) → Cmd A C
  ◌>>=◌ m f h = continue_with (m h) f

  abbrev pub ◌>>◌ : {C : Type 0} → Cmd A (Unit {0}) → Cmd A C → Cmd A C
  m >> k = m >>= λ _. k

  -- A value that may be missing: without it the command faults.
  abbrev pub the : {B : Type 0} → Option B → Cmd A B
  the none h = none
  the (some b) h = some (b, h)

  abbrev pub write : Heap A → Ptr → Option (Node A) → Heap A
  write h p c q = if q == p then c else h q

  abbrev pub found : Option (Node A) → Cmd A (Node A)
  found none h = none
  found (some n) h = some (n, h)

  unfoldable pub load : Ptr → Cmd A (Node A)
  load p h = if p == null then none else found (h p) h

  -- `malloc` of a node at `p`, with both its fields written.
  unfoldable pub alloc : Ptr → A → Ptr → Cmd A (Unit {0})
  alloc p a next h = some (tt, write h p (some (node a next)))

  unfoldable pub set_next : Ptr → Ptr → Cmd A (Unit {0})
  unfolding load
  set_next p next = do n ← load p; λ h. some (tt, write h p (some (node n.item next)))

  unfoldable pub free : Ptr → Cmd A (Unit {0})
  unfolding load
  free p = do _ ← load p; λ h. some (tt, write h p none)
