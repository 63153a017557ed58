-- ===== src/Client/Receiving.antt =====
-- `receive_subscription_messages` of PubSub/Client/Client.cpp, which PubSub/Client/stress_test.cpp has
-- too: the messages that it shows.
pub mod Delivery
use ikp_projekat.Common.{
  ℕ, Bool, true, false, Option, none, some, List, [], ◌∷◌, ◌==◌, if◌then◌else◌, ◌>>=◌, replicate,
}
use ikp_projekat.Memory.{Block, hashtag, store}
use ikp_projekat.Network.{Received}
use ikp_projekat.Client.Menu.{client_receive_buffer_size, received_into}

-- The loop over the receive buffer; `inside` is the inner loop, which prints up to the next null
-- byte. The result is what is left of the message that is being printed, and the messages behind it.
unfoldable pub show_from : (inside : Bool) → Block → Option (List ℕ × List (List ℕ))
show_from inside [] = none
show_from false (c ∷ cs) =
    if c == hashtag
    then (do (text, messages) ← show_from true cs; some ([], text ∷ messages))
    else some ([], [])
show_from true (c ∷ cs) =
    if c == 0
    then (do (text, messages) ← show_from false cs; some ([], messages))
    else (do (text, messages) ← show_from true cs; some (c ∷ text, messages))

-- `receive_buffer` is what the buffer holds at the call; `none` is where `receive_from_broker` would
-- block, else what `recv` reports, or `failed` where `select` fails. The result is the messages shown,
-- and the buffer behind `memset`.
unfoldable pub receive_subscription_messages :
    Option Received → (receive_buffer : Block) → Option (List (List ℕ) × Block)
receive_subscription_messages none receive_buffer = some ([], receive_buffer)
receive_subscription_messages (some received) receive_buffer = do
  filled ← received_into received receive_buffer
  (text, messages) ← show_from false filled
  cleared ← store filled 0 (replicate client_receive_buffer_size 0)
  some (messages, cleared)
