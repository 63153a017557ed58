-- ===== src/Broker/Execution/Lookup.antt =====
-- `get_topic_by_name` finds the first topic with the name, by its index.
use ikp_projekat.Common.{
  ℕ, suc, ◌≡◌, refl, ap, none, some, List, [], ◌∷◌, ◌⊎◌, inl, inr, arith, Bool-cases, get_elem?,
  set,
}
use ikp_projekat.Memory.{same_text}
use ikp_projekat.Broker.Topic.{Topic, get_topic_by_name}
use ikp_projekat.Broker.Execution.Request.{named, replaced}

-- What the index of a topic stands for.
pub record Located (ts : List Topic) (name : List ℕ) (i : ℕ) (t : Topic) : Type 0 where
  pub found : get_topic_by_name ts name ≡ some i
  pub here : get_elem? ts i ≡ some t
  pub is_named : named ts name ≡ some t
  pub in_place : (t' : Topic) → set ts i t' ≡ replaced ts name t'

-- Either there is no topic with the name, or the index leads to the first one.
pub located :
    (ts : List Topic) (name : List ℕ)
    → ((get_topic_by_name ts name ≡ none) × (named ts name ≡ none))
      ⊎ ((i : ℕ) × (t : Topic) × Located ts name i t)
unfolding get_topic_by_name named replaced
located [] name = inl (refl, refl)
located (t ∷ ts) name = elim (Bool-cases (same_text t.name name)) [
  | inl same ↦
      inr (
        0,
        t,
        record { found = rw same; here = refl; is_named = rw same; in_place = λ t'. rw same },
      )
  | inr other ↦ elim (located ts name) [
    | inl (absent, unnamed) ↦ inl (rw (other, absent), rw other unnamed)
    | inr (i, x, l) ↦ inr (
      suc i,
      x,
      record {
        found = rw (other, l.found) (ap some (omega arith));
        here = l.here;
        is_named = rw other l.is_named;
        in_place = λ t'. rw other (ap (λ r. t ∷ r) (l.in_place t'));
      },
    )
  ]
]
