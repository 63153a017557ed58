-- ===== src/Tests/StressTest.antt =====
-- Client a of PubSub/Client/stress_test.cpp, where the same message arrives each time.
use ikp_projekat.Common.{◌+◌, ◌≡◌, refl, true, some, [], ◌∷◌, map, arith, length}
use ikp_projekat.Broker.Execution.Request.{Request}
use ikp_projekat.Broker.Receiving.{
  Server, Reception, receive_commands, handle_reception, null_buffer,
}
use ikp_projekat.Broker.Receiving.Frames.{done_all}
use ikp_projekat.Client.Menu.Actions.{bytes_of}
use ikp_projekat.Memory.{hashtag, load, strlen}
use ikp_projekat.Network.{bytes}
use ikp_projekat.Broker.Parsing.{sent_bytes}
use ikp_projekat.Client.Receiving.Delivery.{deliveries, delivery_size}
use ikp_projekat.Client.StressTest.{World, Tester, news, updates, warnings, test}
use ikp_projekat.Client.StressTest.Expected.{letter_a, requests, published}
use ikp_projekat.Client.StressTest.Sends.{GoesWell}
use ikp_projekat.Client.StressTest.Performed.{joined, new_tester, test-performed}

abbrev world : World
world = record {
  rand = λ k. k + 10920;
  sends = λ k. true;
  arrived = λ k. some (bytes (hashtag ∷ b'h' ∷ b'i' ∷ 0 ∷ []));
}

-- A message is there at each reception.
two_letters : deliveries ((b'h' ∷ b'i' ∷ []) ∷ []) ≡ some (hashtag ∷ b'h' ∷ b'i' ∷ 0 ∷ [])
unfolding deliveries sent_bytes load strlen
two_letters = refl

world-GoesWell : GoesWell world
unfolding delivery_size
world-GoesWell = record {
  sends = λ k. refl;
  arrives = λ k. (
    (b'h' ∷ b'i' ∷ []) ∷ [],
    ((λ e. omega arith, (λ e. omega arith, tt)), tt),
    omega arith,
    two_letters,
  );
}

abbrev server : Server
server = record {
  broker = record {
    topics =
        record { name = news; message_queue = []; subscribers = record { sockets = []; size = 0 } }
        ∷ [];
    notifications = [];
  };
  connection_sockets = record { sockets = 5 ∷ []; size = 1 };
  values = λ p. p + 100;
  outgoing = [];
}

-- The first results of `rand` are below a third of its largest one.
first_requests :
    requests world.rand letter_a
    ≡ Request.subscribe warnings
      ∷ Request.subscribe updates
      ∷ Request.publish news (b'c' ∷ b'A' ∷ b'm' ∷ b'1' ∷ [])
      ∷ Request.publish news (b'c' ∷ b'A' ∷ b'm' ∷ b'2' ∷ [])
      ∷ published world.rand letter_a 7 3 2
unfolding published
first_requests = refl

test-performed_example :
    (t : Tester) × (test (λ i. 9) world b'a' new_tester ≡ some (true, t))
    × (t.sent ≡ map bytes_of (requests world.rand letter_a))
    × (length t.shown ≡ 10)
    × (handle_reception
          (λ k i. 9)
          5
          (receive_commands (Reception.bytes (joined t.sent)) 5 null_buffer server)
        ≡ done_all 5 server (requests world.rand letter_a))
test-performed_example = test-performed (λ i. 9) (λ k i. 9) world letter_a 5 server world-GoesWell
