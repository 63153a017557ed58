-- ===== src/Memory/Access.antt =====
-- Accesses to a node that is allocated do not fault.
use ikp_projekat.Common.{◌≡◌, ◌≢◌, none, some, Option, ==_of_ne, ==_refl}
use ikp_projekat.Memory.Heap.{Ptr, null, Node, node, Heap, write, load, set_next, free}

module _ {A : Type 0} (h : Heap A) where
  pub write-ne : (p q : Ptr) (c : Option (Node A)) → q ≢ p → write h p c q ≡ h q
  write-ne p q c ne = rw (==_of_ne q p ne)

  pub write_self : (p : Ptr) (c : Option (Node A)) → write h p c p ≡ c
  write_self p c = rw (==_refl p)

  -- An allocated node and an unused address are not the same.
  pub ne_of_unused : (p q : Ptr) {n : Node A} → h p ≡ some n → h q ≡ none → p ≢ q
  ne_of_unused p q e u same = cc

  module _ {p : Ptr} {n : Node A} (ne : p ≢ null) (e : h p ≡ some n) where
    pub load-ok : load p h ≡ some (n, h)
    unfolding load
    load-ok = rw (==_of_ne p null ne, e)

    pub set_next-ok : (r : Ptr) → set_next p r h ≡ some (tt, write h p (some (node n.item r)))
    unfolding set_next
    set_next-ok r = rw (==_of_ne p null ne, e)

    pub free-ok : free p h ≡ some (tt, write h p none)
    unfolding free
    free-ok = rw (==_of_ne p null ne, e)
