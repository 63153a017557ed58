-- ===== src/Broker/Parsing.antt =====
-- PubSub/Broker/command_execution.cpp, the parts that take a received command apart:
-- `extract_for_publish`, `extract_topic_name` and `notify_stats_manager`. A command is the block of
-- bytes from its number to the end of the receive buffer.
pub mod Extract
pub mod Notify
use ikp_projekat.Common.{
  ℕ, ◌+◌, ◌-◌, Option, none, some, List, [], ◌∷◌, ◌==◌, ltb, if◌then◌else◌, ◌>>=◌, drop, get_elem?,
}
use ikp_projekat.Memory.{Block, hashtag, malloc, store, put, load, strlen, strcpy_s}

-- `while (command[i] != '#') ++i`: it does not stop at a null byte.
pub find_hashtag : Block → ℕ → Option ℕ
find_hashtag [] i = none
find_hashtag (c ∷ cs) i = if c == hashtag then some i else find_hashtag cs (i + 1)

-- The bytes that `send_to_client` and `send_to_stats_manager` hand to `send`: `strlen` and one more.
unfoldable pub sent_bytes : Block → Option Block
sent_bytes message = do n ← strlen message; load message (n + 1)

-- `garbage k` is what the function's allocation number `k` happens to hold.
module _ (garbage : ℕ → ℕ → ℕ) where
  -- The topic's name and the message, in blocks of their own. Where the second hashtag stands past
  -- the null byte, `message_size` is negative and the copy has undefined behaviour: `none`.
  pub extract_for_publish : Block → Option (Block × Block)
  extract_for_publish command = do
    second_hashtag_index ← find_hashtag (drop 2 command) 2
    let topic_name_size = second_hashtag_index - 2 + 1
    topic_bytes ← load (drop 2 command) (topic_name_size - 1)
    topic_name ← store (malloc (garbage 0) topic_name_size) 0 topic_bytes
    topic_name ← put topic_name (topic_name_size - 1) 0
    n ← strlen command
    if ltb n second_hashtag_index then none else do
      let message_size = n - second_hashtag_index
      message ← put (malloc (garbage 1) (1 + message_size)) 0 hashtag
      message ← strcpy_s message 1 message_size (drop (second_hashtag_index + 1) command)
      some (topic_name, message)

  -- Of a command shorter than two bytes the size is 0 or negative, which `strcpy_s` refuses.
  pub extract_topic_name : Block → Option Block
  extract_topic_name command = do
    n ← strlen command
    let topic_name_size = n + 1 - 2
    strcpy_s (malloc (garbage 0) topic_name_size) 0 topic_name_size (drop 2 command)

  pub notify_stats_manager : Block → Option Block
  unfolding sent_bytes
  notify_stats_manager command_with_start_hashtag = do
    number ← get_elem? command_with_start_hashtag 1
    if number == b'2'
        then (do
          second_hashtag_index ← find_hashtag (drop 3 command_with_start_hashtag) 3
          let size = second_hashtag_index + 1
          bytes ← load command_with_start_hashtag size
          command_without_message ← store (malloc (garbage 0) size) 0 bytes
          command_without_message ← put command_without_message (size - 1) 0
          sent_bytes command_without_message)
        else sent_bytes command_with_start_hashtag
