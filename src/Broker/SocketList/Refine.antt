-- ===== src/Broker/SocketList/Refine.antt =====
-- The linked list is a sequence of socket pointers, newest first.
use ikp_projekat.Common.{
  ℕ, zero, suc, ◌+◌, ◌-◌, ◌≤◌, ◌<◌, ◌≡◌, refl, sym, ◌≢◌, Bool, true, false, none, some, [], ◌∷◌,
  arith, ◌==◌, if◌then◌else◌, ==_refl, ==_of_ne, length, Bool-cases, inl, inr,
}
use ikp_projekat.Memory.Heap.{Ptr, null, node, Heap, write, load, alloc, free}
use ikp_projekat.Memory.Access.{load-ok, set_next-ok, free-ok, write_self, write-ne}
use ikp_projekat.Memory.Chain.{Cells, has, first, Linked, frame-write, not-has_of_none, ne_of_has}
use ikp_projekat.Broker.SocketList.{SocketList, add_to_start, unlink_from, free_node}

pub record IsSocketList (h : Heap Ptr) (l : SocketList) (cs : Cells Ptr) : Type 0 where
  pub starts : l.head ≡ first null cs
  pub counted : l.size ≡ length cs
  pub linked : Linked h null cs

-- `g` differs from `h` at most at the nodes of `cs`.
abbrev pub SameOutside : Cells Ptr → Heap Ptr → Heap Ptr → Type 0
SameOutside cs h g = (p : Ptr) → has p cs ≡ false → g p ≡ h p

-- Whether a list holds a socket pointer, and the list without its first node that does.
unfoldable pub contains : Cells Ptr → Ptr → Bool
contains [] s = false
contains ((p, x) ∷ cs) s = if x == s then true else contains cs s

unfoldable pub erase : Cells Ptr → Ptr → Cells Ptr
erase [] s = []
erase ((p, x) ∷ cs) s = if x == s then cs else (p, x) ∷ erase cs s

not-has-erase : (a : Ptr) (cs : Cells Ptr) (s : Ptr) → has a cs ≡ false → has a (erase cs s) ≡ false
unfolding erase
not-has-erase a [] s out = refl
not-has-erase a ((p, x) ∷ cs) s out = ground (arith, not-has-erase a cs s)

pub length-erase :
    (cs : Cells Ptr) (s : Ptr) → length cs ≡ length (erase cs s) + (if contains cs s then 1 else 0)
unfolding erase contains
length-erase [] s = refl
length-erase ((p, x) ∷ cs) s = ground (arith, length-erase cs s)

-- Given an unused address, `add_to_start` does not fault, puts the socket pointer in front of all
-- others, and writes to no node but the new one.
pub add_to_start_lem :
    (h : Heap Ptr) (fresh : Ptr) (l : SocketList) (s : Ptr) (cs : Cells Ptr)
    → fresh ≢ null
    → h fresh ≡ none
    → IsSocketList h l cs
    → (l' : SocketList) × (g : Heap Ptr) × (add_to_start fresh l s h ≡ some (l', g))
      × IsSocketList g l' ((fresh, s) ∷ cs)
      × SameOutside ((fresh, s) ∷ []) h g
unfolding add_to_start alloc
add_to_start_lem h fresh l s [] ne unused is = (
  record { head = fresh; size = l.size + 1 },
  write h fresh (some (node s null)),
  rw is.starts,
  record {
    starts = refl;
    counted = omega (arith, is.counted);
    linked = (ne, ground arith, refl, tt);
  },
  λ p out. ground arith,
)
add_to_start_lem h fresh l s ((p, x) ∷ cs) ne unused is = (
  record { head = fresh; size = l.size + 1 },
  write h fresh (some (node s p)),
  rw (is.starts, ==_of_ne p null is.linked.0),
  record {
    starts = refl;
    counted = omega (arith, is.counted);
    linked = (
      ne,
      write_self h fresh (some (node s p)),
      out,
      frame-write h null ((p, x) ∷ cs) fresh (some (node s p)) out is.linked,
    );
  },
  λ a outside. ground arith,
)
  where
    out : has fresh ((p, x) ∷ cs) ≡ false
    out = not-has_of_none h null ((p, x) ∷ cs) fresh unused is.linked

-- What the loop of `free_node` leaves behind the node `previous`.
record Unlinked (h : Heap Ptr) (previous item s : Ptr) (cs : Cells Ptr) (g : Heap Ptr)
    : Type 0 where
  linked : Linked g null ((previous, item) ∷ erase cs s)
  same : SameOutside ((previous, item) ∷ cs) h g

-- The first node behind `previous` is taken out.
module _ (h : Heap Ptr) (previous item s p x : Ptr) (cs : Cells Ptr)
    (before : Linked h null ((previous, item) ∷ (p, x) ∷ cs)) where
  apart : previous ≢ p
  apart = ne_of_has previous p ((p, x) ∷ cs) before.2 (rw (==_refl p))

  relinked : Heap Ptr
  relinked = write h previous (some (node item (first null cs)))

  still : relinked p ≡ some (node x (first null cs))
  unfolding relinked
  still =
      rw (write-ne h previous p (some (node item (first null cs))) (λ e. apart (sym e))) before.3.1

  hit-Unlinked : (x == s) ≡ true → Unlinked h previous item s ((p, x) ∷ cs) (write relinked p none)
  unfolding erase relinked
  hit-Unlinked hit = record {
    linked = rw hit (
      before.0,
      rw (==_of_ne previous p apart, ==_refl previous),
      ground (arith, before.2),
      frame-write relinked null cs p none before.3.2 (
          frame-write h null cs previous (some (node item (first null cs)))
            (ground (arith, before.2)) before.3.3),
    );
    same = λ a outside. ground arith;
  }

  miss-Unlinked :
      (g : Heap Ptr)
      → (x == s) ≡ false
      → Unlinked h p x s cs g
      → Unlinked h previous item s ((p, x) ∷ cs) g
  unfolding erase
  miss-Unlinked g miss u = record {
    linked = rw miss (
      before.0,
      rw (u.same previous before.2) before.1,
      rw (==_of_ne previous p apart) (not-has-erase previous cs s (ground (arith, before.2))),
      u.linked,
    );
    same = λ a outside. u.same a (ground arith);
  }

unlink_from-Unlinked :
    (fuel : ℕ) (h : Heap Ptr) (previous item s : Ptr) (cs : Cells Ptr)
    → length cs < fuel
    → Linked h null ((previous, item) ∷ cs)
    → (g : Heap Ptr) × (unlink_from fuel s previous (first null cs) h ≡ some (contains cs s, g))
      × Unlinked h previous item s cs g
unfolding unlink_from contains erase relinked
unlink_from-Unlinked zero h previous item s cs enough l = absurd (omega arith)
unlink_from-Unlinked (suc fuel) h previous item s [] enough l =
    (h, refl, record { linked = l; same = λ p out. refl })
unlink_from-Unlinked (suc fuel) h previous item s ((p, x) ∷ cs) enough all =
    let (np, at, out, l) = all in
    elim (Bool-cases (x == s)) [
      | inl hit ↦ (
        write (relinked h previous item s p x cs all) p none,
        rw (==_of_ne p null l.0, load-ok h l.0 l.1, hit)
            (rw (
              set_next-ok h np at (first null cs),
              free-ok (relinked h previous item s p x cs all) l.0
                  (still h previous item s p x cs all),
            )),
        hit-Unlinked h previous item s p x cs all hit,
      )
      | inr miss ↦
          let (g, run, u) = unlink_from-Unlinked fuel h p x s cs (omega arith) l in
          (
            g,
            rw (==_of_ne p null l.0, load-ok h l.0 l.1, miss) run,
            miss-Unlinked h previous item s p x cs all g miss u,
          )
    ]

-- With one round of fuel for each node, `free_node` does not fault, says whether the list holds the
-- socket pointer, takes out the first node that does, keeps the count right, and writes to no node
-- of another list.
pub free_node_lem :
    (fuel : ℕ) (h : Heap Ptr) (l : SocketList) (s : Ptr) (cs : Cells Ptr)
    → length cs ≤ fuel
    → IsSocketList h l cs
    → (l' : SocketList) × (g : Heap Ptr) × (free_node fuel l s h ≡ some ((contains cs s, l'), g))
      × IsSocketList g l' (erase cs s)
      × SameOutside cs h g
unfolding free_node contains erase
free_node_lem fuel h l s [] enough is = (l, h, rw is.starts, is, λ p out. refl)
free_node_lem fuel h l s ((p, x) ∷ cs) enough is =
    let (np, at, out, rest) = is.linked in
    elim (Bool-cases (x == s)) [
      | inl hit ↦ (
        record { head = first null cs; size = l.size - 1 },
        write h p none,
        rw (head_not_null, load_head, hit, free_head),
        rw hit (record {
          starts = refl;
          counted = omega (arith, is.counted);
          linked = frame-write h null cs p none out rest;
        }),
        λ a outside. ground arith,
      )
      | inr miss ↦
          let (g, run, u) = unlink_from-Unlinked fuel h p x s cs (omega arith) is.linked in
          (
            (if contains cs s then record l { size = l.size - 1 } else l),
            g,
            rw (head_not_null, load_head, miss) (rw (unlink_head g run)),
            rw miss (record {
              starts = ground (arith, is.starts);
              counted = ground (arith, is.counted, length-erase cs s);
              linked = u.linked;
            }),
            u.same,
          )
    ]
  where
    head_not_null : (l.head == null) ≡ false
    head_not_null = rw is.starts (==_of_ne p null is.linked.0)

    load_head : load l.head h ≡ some (node x (first null cs), h)
    load_head = rw is.starts (load-ok h is.linked.0 is.linked.1)

    free_head : free l.head h ≡ some (tt, write h p none)
    free_head = rw is.starts (free-ok h is.linked.0 is.linked.1)

    unlink_head :
        (g : Heap Ptr)
        → unlink_from fuel s p (first null cs) h ≡ some (contains cs s, g)
        → unlink_from fuel s l.head (first null cs) h ≡ some (contains cs s, g)
    unlink_head g run = rw is.starts run
