-- ===== src/Broker/Execution.antt =====
-- PubSub/Broker/command_execution.cpp: the execution of one command. `none` is undefined behaviour
-- or an abort. The prints and the calls of `free` are left out.
pub mod Request
pub mod Lookup
pub mod Effects
pub mod Overflow
use ikp_projekat.Common.{
  ℕ, Bool, true, false, Option, none, some, List, [], ◌∷◌, ◌++◌, ◌==◌, leb, not, if◌then◌else◌,
  ◌>>=◌, get_elem?, set,
}
use ikp_projekat.Memory.{Block, hashtag, c_str}
use ikp_projekat.Memory.Heap.{Ptr}
use ikp_projekat.Memory.Decimal.{itoa_s}
use ikp_projekat.Broker.Parsing.{extract_for_publish, extract_topic_name, notify_stats_manager}
use ikp_projekat.Broker.SocketList.{subscriber_list_max_size}
use ikp_projekat.Broker.Subscribers.{add, remove}
use ikp_projekat.Broker.Topic.{Topic, get_topic_by_name}

-- The topics, and the bytes sent to the stats manager, oldest first.
pub record Broker : Type 0 where
  pub topics : List Topic
  pub notifications : List Block

-- `enqueue` of PubSub/Broker/message_queue.cpp, as `MessageQueue` shows it.
abbrev pub enqueue : Topic → Block → Topic
enqueue t message = record t { message_queue = t.message_queue ++ message ∷ [] }

-- `if (!topic_ptr) ... else ...`, the pointer being an index.
abbrev pub if_topic {ℓ} : {A : Type ℓ} → Option ℕ → A → (ℕ → A) → A
if_topic none absent present = absent
if_topic (some i) absent present = present i

-- Each returns whether it was done, and the topics afterwards.
unfoldable pub publish : List Topic → Block → Block → Option (Bool × List Topic)
publish topics topic_name message = do
  name ← c_str topic_name
  if_topic (get_topic_by_name topics name) (some (false, topics))
      λ i. do t ← get_elem? topics i; some (true, set topics i (enqueue t message))

unfoldable pub subscribe : List Topic → Block → Ptr → Option (Bool × List Topic)
subscribe topics topic_name connection_socket_ptr = do
  name ← c_str topic_name
  if_topic (get_topic_by_name topics name) (some (false, topics)) λ i. do
    t ← get_elem? topics i
    if leb t.subscribers.size subscriber_list_max_size
        then (do
          let subscribers = add t.subscribers connection_socket_ptr
          some (true, set topics i (record t { subscribers = subscribers })))
        else some (false, topics)

unfoldable pub unsubscribe : List Topic → Block → Ptr → Option (Bool × List Topic)
unsubscribe topics topic_name connection_socket_ptr = do
  name ← c_str topic_name
  if_topic (get_topic_by_name topics name) (some (false, topics)) λ i. do
    t ← get_elem? topics i
    let (removed, subscribers) = remove t.subscribers connection_socket_ptr
    some (removed, set topics i (record t { subscribers = subscribers }))

unfoldable pub topic_exists : List Topic → Block → Option Block
topic_exists topics topic_name = do
  name ← c_str topic_name
  if_topic (get_topic_by_name topics name) (some (b'0' ∷ 0 ∷ [])) λ i. some (b'1' ∷ 0 ∷ [])

-- The response has room for five digits and the null byte.
unfoldable pub subscriber_number : List Topic → Block → Option Block
subscriber_number topics topic_name = do
  name ← c_str topic_name
  if_topic (get_topic_by_name topics name) (some (hashtag ∷ 0 ∷ []))
      λ i. do t ← get_elem? topics i; itoa_s t.subscribers.size 6

-- `garbage` is what the allocations of the parsing functions happen to hold.
module _ (garbage : ℕ → ℕ → ℕ) where
  unfoldable pub notify_if : Bool → Block → Broker → Option Broker
  notify_if false command_with_start_hashtag b = some b
  notify_if true command_with_start_hashtag b = do
    bytes ← notify_stats_manager garbage command_with_start_hashtag
    some (record b { notifications = b.notifications ++ bytes ∷ [] })

  -- `before` is the byte in front of the command. With the state comes the response, if any.
  unfoldable pub execute_command : Broker → ℕ → Block → Ptr → Option (Broker × Option Block)
  execute_command b before command connection_socket_ptr = do
    number ← get_elem? command 0
    if number == b'2'
        then (do
          (topic_name, message) ← extract_for_publish garbage command
          (done, topics) ← publish b.topics topic_name message
          b' ← notify_if done (before ∷ command) (record b { topics = topics })
          some (b', none))
        else if number == b'3'
        then (do
          topic_name ← extract_topic_name garbage command
          (done, topics) ← subscribe b.topics topic_name connection_socket_ptr
          b' ← notify_if done (before ∷ command) (record b { topics = topics })
          some (b', none))
        else if number == b'4'
        then (do
          topic_name ← extract_topic_name garbage command
          response ← topic_exists b.topics topic_name
          mark ← get_elem? response 0
          b' ← notify_if (mark == b'1') (before ∷ command) b
          some (b', some response))
        else if number == b'5'
        then (do
          topic_name ← extract_topic_name garbage command
          response ← subscriber_number b.topics topic_name
          mark ← get_elem? response 0
          b' ← notify_if (not (mark == hashtag)) (before ∷ command) b
          some (b', some response))
        else if number == b'6'
        then (do
          topic_name ← extract_topic_name garbage command
          (done, topics) ← unsubscribe b.topics topic_name connection_socket_ptr
          b' ← notify_if done (before ∷ command) (record b { topics = topics })
          some (b', none))
        else some (b, none)
