-- ===== src/Broker/Execution/Overflow.antt =====
-- The limit of a topic's subscribers in PubSub/Broker/command_execution.cpp, and the room for their
-- number in the response.
use ikp_projekat.Common.{
  ◌≢◌, ℕ, zero, suc, ◌+◌, ◌≡◌, refl, sym, ap, subst, ◌∙◌, true, Option, none, some, List, [], ◌∷◌,
  Bool-cases, inl, inr, get_elem?, set, le→leb, arith,
}
use ikp_projekat.Memory.{same_text}
use ikp_projekat.Memory.Heap.{Ptr}
use ikp_projekat.Memory.Text.{Avoids, terminated, c_str-terminated}
use ikp_projekat.Memory.Decimal.{itoa_s-aborts}
use ikp_projekat.Broker.SocketList.{subscriber_list_max_size}
use ikp_projekat.Broker.Subscribers.{add}
use ikp_projekat.Broker.Topic.{Topic, get_topic_by_name, next}
use ikp_projekat.Broker.Execution.{subscribe, subscriber_number}

next-zero : (o : Option ℕ) → next o ≢ some 0
next-zero none e = cc
next-zero (some i) e = omega (arith, some_of e)
  where
    value : Option ℕ → ℕ
    value none = 0
    value (some n) = n

    some_of : some (i + 1) ≡ some 0 → i + 1 ≡ 0
    some_of x = ap value x

next-suc : (o : Option ℕ) (i : ℕ) → next o ≡ some (suc i) → o ≡ some i
next-suc none i e = absurd (cc e)
next-suc (some j) i e = ap some (omega (arith, ap value e))
  where
    value : Option ℕ → ℕ
    value none = 0
    value (some n) = n

-- A topic that takes another's place under its name is found where that one was.
get_topic_by_name-set :
    (ts : List Topic) (name : List ℕ) (i : ℕ) (t t' : Topic)
    → get_topic_by_name ts name ≡ some i
    → get_elem? ts i ≡ some t
    → t'.name ≡ t.name
    → (get_topic_by_name (set ts i t') name ≡ some i) × (get_elem? (set ts i t') i ≡ some t')
unfolding get_topic_by_name
get_topic_by_name-set [] name i t t' found here same = absurd (cc found)
get_topic_by_name-set (x ∷ ts) name zero t t' found here same =
    elim (Bool-cases (same_text x.name name)) [
      | inl first ↦
          let is_x : x ≡ t = cc here in
          let named : same_text t'.name name ≡ true =
            subst (λ l. same_text l name ≡ true) (ap (λ (u : Topic). u.name) is_x ∙ sym same)
              first in
          (rw named refl, refl)
      | inr other ↦ absurd (next-zero (get_topic_by_name ts name) (rw other at found))
    ]
get_topic_by_name-set (x ∷ ts) name (suc i) t t' found here same =
    elim (Bool-cases (same_text x.name name)) [
      | inl first ↦ absurd (cc (rw first at found))
      | inr other ↦
          let (found', here') =
            get_topic_by_name-set ts name i t t'
              (next-suc (get_topic_by_name ts name) i (rw other at found)) here same in
          (rw (other, found') (ap some (omega arith)), here')
    ]

-- A subscription to a topic that has as many subscribers as `SUBSCRIBER_LIST_MAX_SIZE` succeeds, and
-- then the number of its subscribers does not fit the response: `_itoa_s` aborts.
pub subscriber_number-subscribe :
    (ts : List Topic) (name rest : List ℕ) (i : ℕ) (t : Topic) (p : Ptr)
    → Avoids 0 name
    → get_topic_by_name ts name ≡ some i
    → get_elem? ts i ≡ some t
    → t.subscribers.size ≡ subscriber_list_max_size
    → (ts' : List Topic) × (subscribe ts (terminated name rest) p ≡ some (true, ts'))
      × (subscriber_number ts' (terminated name rest) ≡ none)
unfolding subscribe subscriber_number add
subscriber_number-subscribe ts name rest i t p clean found here full =
    let t' : Topic = record t { subscribers = add t.subscribers p } in
    let (found', here') = get_topic_by_name-set ts name i t t' found here refl in
    (
      set ts i t',
      rw
          (
            c_str-terminated name rest clean,
            found,
            here,
            le→leb t.subscribers.size subscriber_list_max_size (omega (arith, full)),
          )
          refl,
      rw (c_str-terminated name rest clean, found', here')
          (itoa_s-aborts 5 (t.subscribers.size + 1) (omega arith) (omega (arith, full))),
    )
