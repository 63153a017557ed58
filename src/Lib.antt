-- ===== src/Lib.antt =====
-- A publish/subscribe system of three programs that talk over TCP: PubSub/Client sends commands,
-- PubSub/Broker executes them and sends messages on to the subscribers of a topic, and
-- PubSub/StatsManager counts the commands that the broker tells it of.
--
-- How the programs and their parts interact. A client builds the bytes of a command
-- (Client/command_creation.cpp). The broker's main thread receives the bytes of one or more commands
-- (Broker/networking_broker.cpp, Broker/broker.cpp) and executes them one after the other
-- (Broker/command_execution.cpp): a published message goes to the queue of its topic
-- (Broker/message_queue.cpp), a subscription to the topic's list of sockets (Broker/socket_list.cpp),
-- and the stats manager is told. One thread per topic moves messages from the queue to a bounded
-- buffer (Broker/outgoing_buffer.cpp), where the main thread puts its responses too; one thread
-- empties the buffer and sends.
--
-- Which file models which part:
--   Common, Memory   shared names; blocks of bytes with the C run-time's calls on them, decimal digits,
--                    and the heap of list nodes with its linked lists
--   Client/Command   PubSub/Client/command_creation.cpp
--   Client/Menu      the actions of the menu of PubSub/Client/Client.cpp, with what the user types and
--                    what the calls report as values; Requests and Answers put the client and the broker
--                    together
--   Client/Receiving receive_subscription_messages of PubSub/Client/Client.cpp
--   Client/StressTest PubSub/Client/stress_test.cpp, and what the broker does about it; Expected has
--                    what each client is to ask for, in literals
--   Broker/Parsing   extract_for_publish, extract_topic_name and notify_stats_manager of
--                    PubSub/Broker/command_execution.cpp, and the bytes that the two send functions of
--                    PubSub/Broker/networking_broker.cpp hand over
--   Broker/Execution the other functions of PubSub/Broker/command_execution.cpp; Request is the
--                    description of a command's outcome that they are measured against
--   Broker/MessageQueue    PubSub/Broker/message_queue.cpp, on a heap
--   Broker/SocketList      PubSub/Broker/socket_list.cpp, on a heap; Subscribers is what its clients see
--   Broker/OutgoingBuffer  PubSub/Broker/outgoing_buffer.cpp: the ring, and a turn of each critical section
--   Broker/Threads   produce and consume of PubSub/Broker/outgoing_buffer.cpp, enqueue and dequeue of
--                    PubSub/Broker/message_queue.cpp and the flag of PubSub/Broker/global.cpp, as the
--                    steps of the threads
--   Broker/Wakes     the same steps with the choice that WakeConditionVariable makes at the ring
--   Broker/Shutdown  shut_down_threads of PubSub/Broker/mad.cpp, with the steps that the threads make
--                    behind the setting of the flag
--   Broker/Sending   send_subscription_message_or_response of PubSub/Broker/outgoing_buffer.cpp, with what
--                    the other threads do meanwhile
--   Broker/Topic     PubSub/Broker/topic.cpp and get_topic_by_name
--   Broker/Receiving accept_connection and receive_commands of PubSub/Broker/networking_broker.cpp, and
--                    the main thread's loops of PubSub/Broker/broker.cpp
--   Network          the system's calls that acquire and release; Broker/Network, StatsManager/Network and
--                    Client/Network are the functions of the three networking files that set up,
--                    connect and clean up
--   Protocol         the client's bytes through the broker's parsing
--   StatsManager/Notifications  PubSub/StatsManager/notification_handling.cpp
--   StatsManager/FileUpdating   PubSub/StatsManager/file_updating.cpp; Memory/Scanning has the run-time's
--                    strtok, strtoll and snprintf
--   StatsManager/MainLoop       the loop of main in PubSub/StatsManager/stats_manager.cpp
--   Tests            concrete runs, and the theorems at concrete inputs
--
-- How state and code correspond. A function has the source's name; one that changes a struct returns
-- the new one. A char* is the list of the bytes from it to the end of its block, and a result that
-- is none stands for undefined behaviour or for a run-time call that aborts. What malloc leaves in a
-- block is a parameter (garbage), and the address that it returns for a node one too (fresh); it
-- does not fail. What select, accept and recv report comes in as a value, and so does how the
-- opening and the writing of the statistics file go; the file is the text that a stream in text mode
-- reads and writes. The receive buffers of the broker and of the client are state: recv writes over
-- what they hold, and memset clears them. A critical section is one step, and a call that may sleep
-- is cut into turns: from the test of its loop to the sleep or the return, with the two answers of
-- is_shutting_down as arguments. In Broker/Threads a queue is the list of its messages, as
-- Broker/MessageQueue shows it, and any sleeping thread may wake at any time. In Broker/Shutdown a
-- turn sees the flag as it is when the turn is made: a turn that has begun before the setting of the
-- flag counts as one before it. The loop of PubSub/Client/stress_test.cpp runs on fuel; 10 rounds
-- are enough. Loops over a list of nodes run on fuel; one round for each node, and one more for
-- free_message_queue and for the main thread's walk over the connections, is enough. Numbers have 32
-- or 64 bits where the code can reach the limit (the ring's count, the counters of the stats
-- manager); indices and sizes are below the limits of the lists and buffers.
--
-- Not modelled: the releases that mutual_assured_destruction of PubSub/Broker/mad.cpp makes itself
-- behind shut_down_threads, main of PubSub/Client/Client.cpp, the prints, the waits, get_option of
-- PubSub/Client/Client.cpp, which prompts and reads a line, and get_random_number of
-- PubSub/Client/stress_test.cpp, which nothing calls. The prints are output alone; the others are
-- not covered here.
pub mod Common
pub mod Memory
pub mod Network
pub mod Client
pub mod Broker
pub mod StatsManager
pub mod Protocol
pub mod Tests
