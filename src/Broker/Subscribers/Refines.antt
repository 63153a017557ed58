-- ===== src/Broker/Subscribers/Refines.antt =====
-- The linked list does what `Subscribers` says.
use ikp_projekat.Common.{
  ℕ, ◌-◌, ◌≤◌, ◌≡◌, refl, ◌≢◌, false, none, some, List, [], ◌∷◌, ap, arith, length, ◌∙◌, sym,
  if◌then◌else◌,
}
use ikp_projekat.Memory.Heap.{Ptr, null, Heap}
use ikp_projekat.Memory.Chain.{Cells, items}
use ikp_projekat.Broker.SocketList.{SocketList, add_to_start, free_node}
use ikp_projekat.Broker.SocketList.Refine
use ikp_projekat.Broker.SocketList.Refine.{
  IsSocketList, SameOutside, add_to_start_lem, free_node_lem, length-erase,
}
use ikp_projekat.Broker.Subscribers.{Subscribers, contains, erase, add, remove}

-- What a linked list shows to its clients.
abbrev pub view : SocketList → Cells Ptr → Subscribers
view l cs = record { sockets = items cs; size = l.size }

contains-items : (cs : Cells Ptr) (s : Ptr) → Refine.contains cs s ≡ contains (items cs) s
unfolding Refine.contains contains
contains-items [] s = refl
contains-items ((p, x) ∷ cs) s = rw (contains-items cs s)

items-erase : (cs : Cells Ptr) (s : Ptr) → items (Refine.erase cs s) ≡ erase (items cs) s
unfolding Refine.erase erase
items-erase [] s = refl
items-erase ((p, x) ∷ cs) s = ground (arith, items-erase cs s)

same_view : {a b : Subscribers} → a.sockets ≡ b.sockets → a.size ≡ b.size → a ≡ b
same_view p q = λ i. record { sockets = p i; size = q i }

erase_of_not-contains : (xs : List Ptr) (s : Ptr) → contains xs s ≡ false → erase xs s ≡ xs
unfolding contains erase
erase_of_not-contains [] s h = refl
erase_of_not-contains (x ∷ xs) s h = ground (arith, erase_of_not-contains xs s)

module _ (l : Subscribers) (s : Ptr) where
  pub remove-found : (remove l s).0 ≡ contains l.sockets s
  unfolding remove
  remove-found = ground arith

  pub remove-sockets : (remove l s).1.sockets ≡ erase l.sockets s
  unfolding remove
  remove-sockets = ground (arith, erase_of_not-contains l.sockets s)

  pub remove-size : (remove l s).1.size ≡ l.size - (if contains l.sockets s then 1 else 0)
  unfolding remove
  remove-size = ground arith

-- `add_to_start` on the linked list is `add` on its view.
pub add_to_start_refines :
    (h : Heap Ptr) (fresh : Ptr) (l : SocketList) (s : Ptr) (cs : Cells Ptr)
    → fresh ≢ null
    → h fresh ≡ none
    → IsSocketList h l cs
    → (l' : SocketList) × (g : Heap Ptr) × (cs' : Cells Ptr) × (add_to_start fresh l s h
        ≡ some (l', g))
      × IsSocketList g l' cs'
      × (view l' cs' ≡ add (view l cs) s)
unfolding add
add_to_start_refines h fresh l s cs ne unused is =
    let (l', g, run, is', same) = add_to_start_lem h fresh l s cs ne unused is in
    (
      l',
      g,
      ((fresh, s) ∷ cs),
      run,
      is',
      ap (λ n. record { sockets = s ∷ items cs; size = n })
          (omega (arith, is'.counted, is.counted)),
    )

-- `free_node` on the linked list is `remove` on its view, where the loop has one round of fuel for
-- each node, and leaves the nodes of other lists as they are.
pub free_node_refines :
    (fuel : ℕ) (h : Heap Ptr) (l : SocketList) (s : Ptr) (cs : Cells Ptr)
    → length cs ≤ fuel
    → IsSocketList h l cs
    → (l' : SocketList) × (g : Heap Ptr) × (cs' : Cells Ptr) × (free_node fuel l s h
        ≡ some (((remove (view l cs) s).0, l'), g))
      × IsSocketList g l' cs'
      × (view l' cs' ≡ (remove (view l cs) s).1)
      × SameOutside cs h g
unfolding remove
free_node_refines fuel h l s cs enough is =
    let (l', g, run, is', same) = free_node_lem fuel h l s cs enough is in
    (
      l',
      g,
      Refine.erase cs s,
      run ∙ ap (λ b. some ((b, l'), g)) (contains-items cs s ∙ sym (remove-found (view l cs) s)),
      is',
      same_view (items-erase cs s ∙ sym (remove-sockets (view l cs) s)) (
          ground (
            arith,
            is.counted,
            is'.counted,
            length-erase cs s,
            contains-items cs s,
            remove-size (view l cs) s,
          )),
      same,
    )
