-- ===== src/Memory/Chain.antt =====
-- Singly linked lists of nodes on the heap.
use ikp_projekat.Common.{
  ◌≡◌, refl, ap, ◌≢◌, Bool, true, false, ◌||◌, Option, none, some, List, [], ◌∷◌, ◌++◌, arith, ◌==◌,
}
use ikp_projekat.Memory.Heap.{Ptr, null, Node, node, Heap, write}

-- The nodes of a list, in order: the address and the item of each.
abbrev pub Cells : Type 0 → Type 0
Cells A = List (Ptr × A)

module _ {A : Type 0} where
  abbrev pub has : Ptr → Cells A → Bool
  has p [] = false
  has p ((q, _) ∷ cs) = (p == q) || has p cs

  abbrev pub items : Cells A → List A
  items [] = []
  items ((_, a) ∷ cs) = a ∷ items cs

  -- The pointer to the first node, or `stop` where there is none.
  abbrev pub first : Ptr → Cells A → Ptr
  first stop [] = stop
  first stop ((p, _) ∷ cs) = p

  -- The pointer to the last node, or `p` where there is none.
  abbrev pub last_or : Ptr → Cells A → Ptr
  last_or p [] = p
  last_or p ((q, _) ∷ cs) = last_or q cs

  -- The nodes stand on the heap, each points to the next one and the last one to `stop`, and no two
  -- are the same.
  abbrev pub Linked : Heap A → Ptr → Cells A → Type 0
  Linked h stop [] = Unit {0}
  Linked h stop ((p, a) ∷ cs) =
      (p ≢ null) × (h p ≡ some (node a (first stop cs))) × (has p cs ≡ false) × Linked h stop cs

  -- A list survives every change of the heap that spares its own nodes.
  pub frame :
      (h g : Heap A) (stop : Ptr) (cs : Cells A)
      → ((p : Ptr) → has p cs ≡ true → g p ≡ h p)
      → Linked h stop cs
      → Linked g stop cs
  frame h g stop [] same l = tt
  frame h g stop ((p, a) ∷ cs) same (ne, at, out, l) =
      (ne, ground (arith, same p), out, frame h g stop cs (λ q i. same q (ground arith)) l)

  pub frame-write :
      (h : Heap A) (stop : Ptr) (cs : Cells A) (p : Ptr) (c : Option (Node A))
      → has p cs ≡ false
      → Linked h stop cs
      → Linked (write h p c) stop cs
  frame-write h stop cs p c out l = frame h (write h p c) stop cs (λ q i. ground arith) l

  -- A pointer to no node is none of a list's.
  pub not-has_of_none :
      (h : Heap A) (stop : Ptr) (cs : Cells A) (p : Ptr)
      → h p ≡ none
      → Linked h stop cs
      → has p cs ≡ false
  not-has_of_none h stop [] p e l = refl
  not-has_of_none h stop ((q, a) ∷ cs) p e (ne, at, out, l) =
      ground (arith, not-has_of_none h stop cs p e l)

  pub has-last_or : (p : Ptr) (cs : Cells A) → ((last_or p cs == p) || has (last_or p cs) cs) ≡ true
  has-last_or p [] = ground arith
  has-last_or p ((q, a) ∷ cs) = ground (arith, has-last_or q cs)

  pub has-append : (p : Ptr) (xs ys : Cells A) → has p (xs ++ ys) ≡ (has p xs || has p ys)
  has-append p [] ys = refl
  has-append p ((q, a) ∷ xs) ys = ground (arith, has-append p xs ys)

  pub items-append : (xs ys : Cells A) → items (xs ++ ys) ≡ items xs ++ items ys
  items-append [] ys = refl
  items-append ((p, a) ∷ xs) ys = ap (λ l. a ∷ l) (items-append xs ys)

  pub last_or-append :
      (p : Ptr) (xs : Cells A) (q : Ptr) (a : A) → last_or p (xs ++ (q, a) ∷ []) ≡ q
  last_or-append p [] q a = refl
  last_or-append p ((r, b) ∷ xs) q a = last_or-append r xs q a

  pub ne_of_has : (p q : Ptr) (cs : Cells A) → has p cs ≡ false → has q cs ≡ true → p ≢ q
  ne_of_has p q cs out in_list same = cc

  pub not-has-append :
      (p : Ptr) (xs ys : Cells A)
      → has p (xs ++ ys) ≡ false
      → (has p xs ≡ false) × (has p ys ≡ false)
  not-has-append p xs ys h = ground (arith, has-append p xs ys)

  pub ne_of_not-has-one : (p q : Ptr) (a : A) → has p ((q, a) ∷ []) ≡ false → p ≢ q
  ne_of_not-has-one p q a h = ground arith
