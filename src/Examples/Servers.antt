-- ===== src/Examples/Servers.antt =====
-- A server that a client connects to, and that the connection is dropped of.
use raknet_rs.Prelude.{ℕ, zero, suc, ◌≡◌, refl, true, List, [], ◌∷◌, arith, none}
use raknet_rs.Prelude.Outcome.{Outcome, ok, err, panic, stuck}
use raknet_rs.State.{Poll}
use raknet_rs.Packet.Addr.{SocketAddr, v4}
use raknet_rs.Packet.Unconnected
use raknet_rs.Packet.Connected
use raknet_rs.Packet.Dispatch.{unconnected, connected}
use raknet_rs.Link
use raknet_rs.Handshake.Transport.{Transport, Received, nothing_yet, datagram}
use raknet_rs.Handshake.Server as Offline
use raknet_rs.Server
use raknet_rs.Server.{
  Config, Incoming, Polled, goes_on, connection, new_config, process_closed, close_on_drop,
}
use raknet_rs.Server.Open.{count, present}
use raknet_rs.Server.Routing.{Reaches, start, polled, dropped, process_closed-Routes}
use raknet_rs.Examples.Caches.{by_addr}

abbrev client_addr : SocketAddr
client_addr = v4 1 2

abbrev config : Config
config = new_config 1

-- What the socket is to receive.
abbrev receive : List Received → Received × List Received
receive [] = (nothing_yet, [])
receive (r ∷ rs) = (r, rs)

abbrev script : Transport (List Received)
script = record {
  poll_ready = λ rs. (Poll.done, rs);
  start_send = λ p a rs. (true, rs);
  poll_flush = λ rs. (Poll.done, rs);
  poll_next = receive;
}

abbrev arrivals : List Received
arrivals =
    datagram (unconnected (Unconnected.open_connection_request1 11 1400)) client_addr
    ∷ datagram (unconnected (Unconnected.open_connection_request2 (v4 3 4) 1300 2)) client_addr
    ∷ datagram (connected (Connected.ack [])) client_addr
    ∷ []

abbrev State : Type 0
State = Incoming (List Received)

abbrev value : State → Outcome (Polled × State) → State
value i (ok (p, i')) = i'
value i (err e) = i
value i panic = i
value i stuck = i

abbrev client : Offline.Peer
client = record { guid = 2; addr = client_addr; mtu = 1300 }

abbrev offline : List Received → Offline.Handler (List Received)
offline rs = record {
  frame = rs;
  config = Server.offline_config config;
  tables = record { pending = λ a. none; connected = λ a. none };
  state = Offline.listening;
}

abbrev opened : State
opened = record {
  offline = offline arrivals;
  config = config;
  router = λ a. none;
  close_events = [];
}

-- The server behind a round.
after : State → State
unfolding Server.round Server.dispatch Server.route Link.deliver Link.incoming_ack Link.force_push
    Offline.round_in Offline.listen Offline.handle Offline.prepare Offline.flush
after i = value i (Server.round script 10 i)

run : ℕ → State
unfolding after
run zero = opened
run (suc n) = after (run n)

is_new : Server.new arrivals config ≡ ok (run 0)
unfolding run Server.new Offline.new
is_new = refl

-- Both requests of the client are answered, each in three rounds.
listens_1 : Server.round script 10 (run 0) ≡ ok (goes_on, run 1)
unfolding run after Server.round Server.dispatch Server.route Link.deliver Link.incoming_ack
    Link.force_push Offline.round_in Offline.listen Offline.handle Offline.prepare Offline.flush
listens_1 = refl

prepares_1 : Server.round script 10 (run 1) ≡ ok (goes_on, run 2)
unfolding run after Server.round Server.dispatch Server.route Link.deliver Link.incoming_ack
    Link.force_push Offline.round_in Offline.listen Offline.handle Offline.prepare Offline.flush
prepares_1 = refl

flushes_1 : Server.round script 10 (run 2) ≡ ok (goes_on, run 3)
unfolding run after Server.round Server.dispatch Server.route Link.deliver Link.incoming_ack
    Link.force_push Offline.round_in Offline.listen Offline.handle Offline.prepare Offline.flush
flushes_1 = refl

listens_2 : Server.round script 10 (run 3) ≡ ok (goes_on, run 4)
unfolding run after Server.round Server.dispatch Server.route Link.deliver Link.incoming_ack
    Link.force_push Offline.round_in Offline.listen Offline.handle Offline.prepare Offline.flush
listens_2 = refl

prepares_2 : Server.round script 10 (run 4) ≡ ok (goes_on, run 5)
unfolding run after Server.round Server.dispatch Server.route Link.deliver Link.incoming_ack
    Link.force_push Offline.round_in Offline.listen Offline.handle Offline.prepare Offline.flush
prepares_2 = refl

flushes_2 : Server.round script 10 (run 5) ≡ ok (goes_on, run 6)
unfolding run after Server.round Server.dispatch Server.route Link.deliver Link.incoming_ack
    Link.force_push Offline.round_in Offline.listen Offline.handle Offline.prepare Offline.flush
flushes_2 = refl

connects : Server.round script 10 (run 6) ≡ ok (connection client, run 7)
unfolding run after Server.round Server.dispatch Server.route Link.deliver Link.incoming_ack
    Link.force_push Offline.round_in Offline.listen Offline.handle Offline.prepare Offline.flush
connects = refl

live : Reaches script config (run 7) (client_addr ∷ [])
unfolding run
live =
    polled (run 6) (run 7) [] 10 (connection client)
      (polled (run 5) (run 6) [] 10 goes_on
        (polled (run 4) (run 5) [] 10 goes_on
          (polled (run 3) (run 4) [] 10 goes_on
            (polled (run 2) (run 3) [] 10 goes_on
              (polled (run 1) (run 2) [] 10 goes_on
                (polled (run 0) (run 1) [] 10 goes_on (start arrivals (run 0) is_new) listens_1)
                prepares_1)
              flushes_1)
            listens_2)
          prepares_2)
        flushes_2)
      connects

-- The connection is dropped, so its close event takes its route away.
process_closed-Routes_example :
    (i' : State) × (process_closed (close_on_drop client_addr (run 7)) ≡ ok i')
    × ((a : SocketAddr) → present (i'.router a) ≡ count a [])
process_closed-Routes_example =
    process_closed-Routes script config (close_on_drop client_addr (run 7)) []
      (dropped (run 7) (client_addr ∷ []) client_addr live (omega arith))
