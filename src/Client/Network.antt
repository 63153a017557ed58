-- ===== src/Client/Network.antt =====
-- PubSub/Client/networking_client.cpp. What the calls report comes in as values; the prints are left
-- out.
use ikp_projekat.Common.{ℕ, Bool, true, false, not, List, [], ◌∷◌, if◌then◌else◌}
use ikp_projekat.Network.{
  Role, Run, returns, ◌▹◌, wsa_startup, wsa_cleanup, socket, closesocket, Selected, select_error,
  will_block, wont_block, read_check, Received, bytes, closed, failed,
}

-- The result of `setup`; `startup` and `opened` say whether its two calls succeed.
unfoldable pub setup : (startup opened : Bool) → Run Bool
setup startup opened =
    if not startup
    then returns [] false
    else wsa_startup
      ▹ (if not opened
          then returns (wsa_cleanup ∷ []) false
          else socket Role.client ▹ returns [] true)

unfoldable pub cleanup : Run (Unit {0})
cleanup = returns (closesocket Role.client ∷ wsa_cleanup ∷ []) tt

-- `blocking`, and the bytes that have been written to the buffer. At the end of the connection the
-- socket is closed.
pub record Reception : Type 0 where
  pub blocking : Bool
  pub written : List ℕ

abbrev received_by : Received → Run Reception
received_by (bytes data') = returns [] (record { blocking = false; written = data' })
received_by closed =
    returns (closesocket Role.client ∷ []) (record { blocking = false; written = [] })
received_by failed = returns [] (record { blocking = false; written = [] })

unfoldable pub receive_from_broker :
    (wait_until_received : Bool) → Selected → Received → Run Reception
unfolding read_check
receive_from_broker true selected received = received_by received
receive_from_broker false selected received = elim (read_check selected) [
  | select_error ↦ returns [] (record { blocking = false; written = [] })
  | will_block ↦ returns [] (record { blocking = true; written = [] })
  | wont_block ↦ received_by received
]
