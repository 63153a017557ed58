-- ===== src/Network/Tidy.antt =====
-- What the networking of PubSub/Broker, PubSub/StatsManager and PubSub/Client holds at its ends.
use ikp_projekat.Common.{◌≡◌, refl, Bool, true, false, some}
use ikp_projekat.Network.{
  Held, nothing, held_after, Run, returns, exits, Selected, socket_error, is_set, is_not_set,
  read_check,
}
use ikp_projekat.Broker.Network as Broker
use ikp_projekat.StatsManager.Network as StatsManager
use ikp_projekat.Client.Network as Client

-- The calls release nothing that is not held: an exit leaves nothing held, a return what is said of
-- the value returned.
abbrev pub Tidy {ℓ} : {A : Type ℓ} → Held → (A → Held) → Run A → Type 0
Tidy h after (returns cs a) = held_after cs h ≡ some (after a)
Tidy h after (exits cs code) = held_after cs h ≡ some nothing

-- What the broker holds while it runs, the stats manager while it waits for the broker and after, and
-- the client.
abbrev pub broker_running : Held
broker_running = record nothing { startups = 1; welcoming = 1; sm_client = 1 }

abbrev pub manager_waiting : Held
manager_waiting = record nothing { startups = 1; welcoming = 1 }

abbrev pub client_running : Held
client_running = record nothing { startups = 1; client = 1 }

broker_begins :
    (startup address welcoming bind mode listen sm_client connects : Bool)
    → Tidy nothing
        (λ _. broker_running)
        (Broker.begin
          (record {
            startup = startup;
            address = address;
            welcoming_socket = welcoming;
            bind = bind;
            mode = mode;
            listen = listen;
            sm_client_socket = sm_client;
          })
          true
          connects)
unfolding Broker.begin Broker.setup Broker.start_threads Broker.connect_to_sm held_after
broker_begins false a w b m l s c = refl
broker_begins true false w b m l s c = refl
broker_begins true true false b m l s c = refl
broker_begins true true true false m l s c = refl
broker_begins true true true true false l s c = refl
broker_begins true true true true true false s c = refl
broker_begins true true true true true true false c = refl
broker_begins true true true true true true true false = refl
broker_begins true true true true true true true true = refl

manager_sets_up :
    (startup address welcoming bind mode listen : Bool)
    → Tidy nothing
        (λ _. manager_waiting)
        (StatsManager.setup (record {
          startup = startup;
          address = address;
          welcoming_socket = welcoming;
          bind = bind;
          mode = mode;
          listen = listen;
        }))
unfolding StatsManager.setup held_after
manager_sets_up false a w b m l = refl
manager_sets_up true false w b m l = refl
manager_sets_up true true false b m l = refl
manager_sets_up true true true false m l = refl
manager_sets_up true true true true false l = refl
manager_sets_up true true true true true false = refl
manager_sets_up true true true true true true = refl

client_sets_up :
    (startup opened : Bool)
    → Tidy nothing
        (λ (done : Bool). elim done [ true ↦ client_running | false ↦ nothing ])
        (Client.setup startup opened)
unfolding Client.setup held_after
client_sets_up false opened = refl
client_sets_up true false = refl
client_sets_up true true = refl

-- Whichever of the calls of Winsock succeed: the broker's start, where all its threads can be
-- started, the stats manager's `setup` and the client's `setup` release nothing that they do not
-- hold, hold nothing where they end the program or return false, and else hold the library and their
-- sockets once each, and no address.
pub start-Tidy :
    (a : Broker.Answers) (b : StatsManager.Answers) (connects startup opened : Bool)
    → Tidy nothing (λ _. broker_running) (Broker.begin a true connects)
      × Tidy nothing (λ _. manager_waiting) (StatsManager.setup b)
      × Tidy nothing
          (λ (done : Bool). elim done [ true ↦ client_running | false ↦ nothing ])
          (Client.setup startup opened)
start-Tidy a b connects startup opened = (
  broker_begins a.startup a.address a.welcoming_socket a.bind a.mode a.listen a.sm_client_socket
      connects,
  manager_sets_up b.startup b.address b.welcoming_socket b.bind b.mode b.listen,
  client_sets_up startup opened,
)

-- What the stats manager holds after `accept_connection`.
abbrev pub manager_after : StatsManager.Accepting → Held
manager_after StatsManager.connected = record manager_waiting { connection = 1 }
manager_after StatsManager.would_block = manager_waiting
manager_after StatsManager.failure = nothing

-- The stats manager's `accept_connection` holds what its return value says, where `ioctlsocket`
-- succeeds; where it fails behind a successful `accept`, the connection's socket is left open.
pub accept_connection-Tidy :
    (selected : Selected) (accepted : Bool)
    → Tidy manager_waiting manager_after (StatsManager.accept_connection selected accepted true)
      × Tidy manager_waiting
          (λ _. record nothing { connection = 1 })
          (StatsManager.accept_connection is_set true false)
unfolding StatsManager.accept_connection held_after read_check
accept_connection-Tidy socket_error accepted = (refl, refl)
accept_connection-Tidy is_set true = (refl, refl)
accept_connection-Tidy is_set false = (refl, refl)
accept_connection-Tidy is_not_set accepted = (refl, refl)
