-- ===== src/Tests/Network.antt =====
-- The networking where one call fails.
use ikp_projekat.Common.{Bool, true, false}
use ikp_projekat.Network.{nothing, is_set}
use ikp_projekat.Network.Tidy.{
  Tidy, broker_running, manager_waiting, client_running, manager_after, start-Tidy,
  accept_connection-Tidy,
}
use ikp_projekat.Broker.Network as Broker
use ikp_projekat.StatsManager.Network as StatsManager
use ikp_projekat.Client.Network as Client

-- `listen` fails.
abbrev no_listen : Broker.Answers
no_listen = record {
  startup = true;
  address = true;
  welcoming_socket = true;
  bind = true;
  mode = true;
  listen = false;
  sm_client_socket = true;
}

abbrev all_well : StatsManager.Answers
all_well = record {
  startup = true;
  address = true;
  welcoming_socket = true;
  bind = true;
  mode = true;
  listen = true;
}

start-Tidy_example :
    Tidy nothing (λ _. broker_running) (Broker.begin no_listen true true)
    × Tidy nothing (λ _. manager_waiting) (StatsManager.setup all_well)
    × Tidy nothing
        (λ (done : Bool). elim done [ true ↦ client_running | false ↦ nothing ])
        (Client.setup true false)
start-Tidy_example = start-Tidy no_listen all_well true true false

accept_connection-Tidy_example :
    Tidy manager_waiting manager_after (StatsManager.accept_connection is_set false true)
    × Tidy manager_waiting
        (λ _. record nothing { connection = 1 })
        (StatsManager.accept_connection is_set true false)
accept_connection-Tidy_example = accept_connection-Tidy is_set false
