-- ===== src/Tests/Overflow.antt =====
-- The limit of PubSub/Broker/command_execution.cpp at a topic with 99999 subscribers.
use ikp_projekat.Common.{ℕ, ◌≡◌, refl, true, some, none, List, [], ◌∷◌, arith, replicate}
use ikp_projekat.Memory.{same_text}
use ikp_projekat.Memory.Text.{terminated}
use ikp_projekat.Broker.SocketList.{subscriber_list_max_size}
use ikp_projekat.Broker.Topic.{Topic, get_topic_by_name}
use ikp_projekat.Broker.Execution.{subscribe, subscriber_number}
use ikp_projekat.Broker.Execution.Overflow.{subscriber_number-subscribe}

abbrev news : List ℕ
news = b'n' ∷ b'e' ∷ b'w' ∷ b's' ∷ []

abbrev full : Topic
full = record {
  name = news;
  message_queue = [];
  subscribers = record {
    sockets = replicate subscriber_list_max_size 5;
    size = subscriber_list_max_size;
  };
}

full-found : get_topic_by_name (full ∷ []) news ≡ some 0
unfolding get_topic_by_name same_text
full-found = refl

subscriber_number-subscribe_example :
    (ts' : List Topic) × (subscribe (full ∷ []) (terminated news []) 8 ≡ some (true, ts'))
    × (subscriber_number ts' (terminated news []) ≡ none)
subscriber_number-subscribe_example =
    subscriber_number-subscribe (full ∷ []) news [] 0 full 8
      (λ e. omega arith, (λ e. omega arith, (λ e. omega arith, (λ e. omega arith, tt)))) full-found
      refl refl
