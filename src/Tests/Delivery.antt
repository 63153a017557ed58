-- ===== src/Tests/Delivery.antt =====
-- What PubSub/Client/Client.cpp shows of two messages, in a buffer that is null behind them.
use ikp_projekat.Common.{ℕ, ◌≡◌, some, List, [], ◌∷◌, arith}
use ikp_projekat.Memory.{Block}
use ikp_projekat.Client.Receiving.{receive_subscription_messages}
use ikp_projekat.Client.Receiving.Delivery.{
  deliveries, delivery_size, null_buffer, receive_subscription_messages-deliveries,
}
use ikp_projekat.Network.{bytes}

abbrev two_messages : List (List ℕ)
two_messages = (b'h' ∷ b'i' ∷ []) ∷ (b'y' ∷ []) ∷ []

receive_subscription_messages-deliveries_example :
    (data' : Block) × (deliveries two_messages ≡ some data')
    × (receive_subscription_messages (some (bytes data')) null_buffer
        ≡ some (two_messages, null_buffer))
unfolding delivery_size
receive_subscription_messages-deliveries_example =
    receive_subscription_messages-deliveries two_messages
      ((λ e. omega arith, (λ e. omega arith, tt)), ((λ e. omega arith, tt), tt)) (omega arith)
