-- ===== src/Broker/Topic.antt =====
-- PubSub/Broker/topic.h and topic.cpp: a topic with its queue of messages, oldest first, and its
-- subscribers. `MessageQueue` and `SocketList` are the linked lists behind the two.
use ikp_projekat.Common.{ℕ, Option, none, some, List, [], ◌∷◌, if◌then◌else◌, ◌+◌}
use ikp_projekat.Memory.{Block, same_text}
use ikp_projekat.Broker.Subscribers.{Subscribers, none_yet}

-- `name` is the text of the string that `name` points to.
pub record Topic : Type 0 where
  pub name : List ℕ
  pub message_queue : List Block
  pub subscribers : Subscribers

unfoldable pub initialize_topic : List ℕ → Topic
unfolding none_yet
initialize_topic topic_name = record {
  name = topic_name;
  message_queue = [];
  subscribers = none_yet;
}

-- The index of an element, seen from one element before.
abbrev pub next : Option ℕ → Option ℕ
next none = none
next (some i) = some (i + 1)

-- The first topic with the name, by its index: `&(topics[i])`.
unfoldable pub get_topic_by_name : List Topic → List ℕ → Option ℕ
get_topic_by_name [] topic_name = none
get_topic_by_name (t ∷ ts) topic_name =
    if same_text t.name topic_name then some 0 else next (get_topic_by_name ts topic_name)
