-- ===== src/Client/Menu/Requests.antt =====
-- From what a user of PubSub/Client/Client.cpp types to what PubSub/Broker/broker.cpp does about it.
use ikp_projekat.Common.{ℕ, ◌≡◌, true, some, [], ◌∷◌, arith, length, length-append, ◌++◌, ◌<◌}
use ikp_projekat.Memory.{hashtag}
use ikp_projekat.Memory.Heap.{Ptr}
use ikp_projekat.Network.{Received}
use ikp_projekat.Broker.Execution.Request.{
  Request, publish, subscribe, exists, count, unsubscribe, number, topic_of, WellFormed,
}
use ikp_projekat.Broker.Receiving.{
  Server, Reception, receive_commands, handle_reception, null_buffer, broker_receive_buffer_size,
}
use ikp_projekat.Broker.Receiving.Frames.{done_all, handle_reception-frames}
use ikp_projekat.Client.Menu.{Client, outcome, execute_requested_action}
use ikp_projekat.Client.Menu.Actions.{
  typed, Fits, IsReady, having_sent, with_topic, with_message, bytes_of, plain_sends, publish_sends,
}

-- The requests without an answer.
abbrev pub IsSilent : Request → Type 0
IsSilent (publish t m) = Unit {0}
IsSilent (subscribe t) = Unit {0}
IsSilent (exists t) = ⊥
IsSilent (count t) = ⊥
IsSilent (unsubscribe t) = Unit {0}

-- The client after it has read the lines of a request.
abbrev pub having_read : Request → Client → Client
having_read (publish t m) c = with_message m (with_topic t c)
having_read r c = with_topic (topic_of r) c

menu_sends :
    (garbage : ℕ → ℕ) (c : Client) (r : Request) (reply : Received)
    → IsSilent r
    → WellFormed r
    → Fits r
    → IsReady c
    → execute_requested_action garbage (number r) (typed r reply) c
      ≡ some (outcome (having_sent (bytes_of r) (having_read r c)) true [])
unfolding execute_requested_action
menu_sends garbage c (publish t m) reply silent well fits ready =
    publish_sends garbage c t m reply well fits ready
menu_sends garbage c (subscribe t) reply silent well fits ready =
    plain_sends garbage b'3' (subscribe t) c reply (λ e. omega arith) (λ e. omega arith) well fits.0
      ready
menu_sends garbage c (exists t) reply silent well fits ready = absurd silent
menu_sends garbage c (count t) reply silent well fits ready = absurd silent
menu_sends garbage c (unsubscribe t) reply silent well fits ready =
    plain_sends garbage b'6' (unsubscribe t) c reply (λ e. omega arith) (λ e. omega arith) well
      fits.0 ready

short : (r : Request) → Fits r → length (bytes_of r) < broker_receive_buffer_size
short (publish t m) fits =
    omega (arith, fits.0, fits.1, length-append t (hashtag ∷ m ++ 0 ∷ []), length-append m (0 ∷ []))
short (subscribe t) fits = omega (arith, fits.0, length-append t (0 ∷ []))
short (exists t) fits = omega (arith, fits.0, length-append t (0 ∷ []))
short (count t) fits = omega (arith, fits.0, length-append t (0 ∷ []))
short (unsubscribe t) fits = omega (arith, fits.0, length-append t (0 ∷ []))

module _ (garbage : ℕ → ℕ) (fresh : ℕ → ℕ → ℕ) (c : Client) (p : Ptr) (s : Server) where
  -- A connected client whose user asks to publish, subscribe or unsubscribe, with well-formed texts
  -- of at most 20 bytes each, and whose `send` succeeds, sends one more block of bytes and goes on;
  -- the main thread of the broker that receives just this block performs the request that the user
  -- typed, once, and nothing else, and leaves its receive buffer null, as it was.
  pub menu_request-performed :
      (r : Request) (reply : Received)
      → IsSilent r
      → WellFormed r
      → Fits r
      → IsReady c
      → (execute_requested_action garbage (number r) (typed r reply) c
          ≡ some (outcome (having_sent (bytes_of r) (having_read r c)) true []))
        × (handle_reception fresh p
              (receive_commands (Reception.bytes (bytes_of r)) p null_buffer s)
            ≡ done_all p s (r ∷ []))
  menu_request-performed r reply silent well fits ready = (
    menu_sends garbage c r reply silent well fits ready,
    handle_reception-frames fresh p s (r ∷ []) (well, tt) (short r fits),
  )
