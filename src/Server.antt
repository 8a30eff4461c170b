-- ===== src/Server.antt =====
-- `Config` and `Incoming` of src/server/incoming/mod.rs: the connections of a server, by their addresses. The
-- streams and sinks that a connection is handed over as are those of the other modules; a connection is its
-- peer here. Its drop sends a close event, once.
pub mod Open
pub mod Routing
use raknet_rs.Prelude.{
  ℕ, suc, ◌+◌, Bool, true, false, List, [], ◌∷◌, ◌++◌, if◌then◌else◌, Option, none, some, leb, ltb,
}
use raknet_rs.Prelude.Outcome.{Outcome, ok, panic, ◌>>=◌, ◌>>◌, assert}
use raknet_rs.Prelude.Lru.{Lru}
use raknet_rs.Packet.Addr.{SocketAddr}
use raknet_rs.Packet.Addr.Eq.{Map, insert, remove}
use raknet_rs.Packet.Connected
use raknet_rs.Codec.Config as Codec
use raknet_rs.Codec.Framed.{expect}
use raknet_rs.Link
use raknet_rs.Link.{Route, deliver}
use raknet_rs.Handshake.Transport.{Transport}
use raknet_rs.Handshake.Server
use raknet_rs.Handshake.Server.{Peer, Handler, Control, again, wait, ended, yield}

pub record Config : Type 0 where
  pub sever_guid : ℕ
  pub advertisement : List ℕ
  pub min_mtu : ℕ
  pub max_mtu : ℕ
  pub support_version : List ℕ
  pub max_pending : ℕ
  pub max_parted_size : ℕ
  pub max_parted_count : ℕ
  pub max_channels : ℕ

-- `Config::new`, with the guid that is random.
abbrev pub new_config : ℕ → Config
new_config guid = record {
  sever_guid = guid;
  advertisement = [];
  min_mtu = 510;
  max_mtu = 1500;
  support_version = 9 ∷ 11 ∷ 13 ∷ [];
  max_pending = 1024;
  max_parted_size = 256;
  max_parted_count = 256;
  max_channels = 1;
}

abbrev pub with_sever_guid : ℕ → Config → Config
with_sever_guid guid c = record c { sever_guid = guid }

-- `Config::advertisement`, with the bytes of the text.
abbrev pub with_advertisement : List ℕ → Config → Config
with_advertisement advertisement c = record c { advertisement = advertisement }

abbrev pub with_min_mtu : ℕ → Config → Config
with_min_mtu mtu c = record c { min_mtu = mtu }

abbrev pub with_max_mtu : ℕ → Config → Config
with_max_mtu mtu c = record c { max_mtu = mtu }

-- `Vec::sort`
abbrev pub insert_sorted : ℕ → List ℕ → List ℕ
insert_sorted n [] = n ∷ []
insert_sorted n (x ∷ xs) = if leb n x then n ∷ x ∷ xs else x ∷ insert_sorted n xs

abbrev pub sort : List ℕ → List ℕ
sort [] = []
sort (x ∷ xs) = insert_sorted x (sort xs)

abbrev pub with_support_version : List ℕ → Config → Config
with_support_version version c = record c { support_version = sort version }

abbrev pub with_max_pending : ℕ → Config → Config
with_max_pending pending c = record c { max_pending = pending }

abbrev pub with_max_parted_size : ℕ → Config → Config
with_max_parted_size size c = record c { max_parted_size = size }

abbrev pub with_max_parted_count : ℕ → Config → Config
with_max_parted_count count c = record c { max_parted_count = count }

abbrev pub with_max_channels : ℕ → Config → Outcome Config
with_max_channels channels c = do
  assert (ltb channels 256)
  ok (record c { max_channels = channels })

abbrev pub offline_config : Config → Server.Config
offline_config c = record {
  sever_guid = c.sever_guid;
  advertisement = c.advertisement;
  min_mtu = c.min_mtu;
  max_mtu = c.max_mtu;
  support_version = c.support_version;
  max_pending = c.max_pending;
}

abbrev pub codec_config : Config → Codec.Config
codec_config c = record {
  max_parted_count = c.max_parted_count;
  max_parted_size = c.max_parted_size;
  max_channels = c.max_channels;
}

-- What a round of `poll_next` returns, `Poll<Option<Item>>`, or that the loop goes on.
pub data Polled : Type 0 where
  goes_on : Polled
  waits : Polled
  over : Polled
  connection : Peer → Polled

module _ ⦃l : Lru SocketAddr ℕ⦄ where
  pub record Incoming (F : Type 0) : Type 0 where
    pub offline : Handler F
    pub config : Config
    pub router : Map Route
    pub close_events : List SocketAddr

  -- `Incoming::new`
  unfoldable pub new : {F : Type 0} → F → Config → Outcome (Incoming F)
  new frame config = do
    offline ← Server.new frame (offline_config config)
    ok (record { offline = offline; config = config; router = λ a. none; close_events = [] })

  -- `for ev in this.close_events.try_iter()`
  unfoldable pub close_all : {F : Type 0} → List SocketAddr → Incoming F → Outcome (Incoming F)
  close_all [] i = ok i
  close_all (ev ∷ evs) i = do
    entry ← expect (i.router ev)
    close_all evs
        (record i { offline = Server.disconnect ev i.offline; router = remove ev i.router })

  unfoldable pub process_closed : {F : Type 0} → Incoming F → Outcome (Incoming F)
  process_closed i = close_all i.close_events (record i { close_events = [] })

  -- A connected packet, at a time: it goes to the route of its peer, or it opens one.
  unfoldable pub route :
      {F : Type 0}
      → ℕ
      → Connected.Packet
      → Peer
      → Option Route
      → Incoming F
      → Outcome (Polled × Incoming F)
  route now pack peer (some entry) i = do
    (taken, entry') ← deliver now pack entry
    ok (goes_on, record i { router = insert peer.addr entry' i.router })
  route now pack peer none i = do
    (taken, entry) ← deliver now pack (Link.new Link.new_arc)
    ok (connection peer, record i { router = insert peer.addr entry i.router })

  unfoldable pub dispatch : {F : Type 0} → ℕ → Control → Incoming F → Outcome (Polled × Incoming F)
  dispatch now again i = ok (goes_on, i)
  dispatch now wait i = ok (waits, i)
  dispatch now ended i = ok (over, i)
  dispatch now (yield pack peer) i = route now pack peer (i.router peer.addr) i

  -- A round of the loop of `poll_next`, with one of the offline handler.
  unfoldable pub round : {F : Type 0} → Transport F → ℕ → Incoming F → Outcome (Polled × Incoming F)
  round io now i = do
    (control, offline) ← Server.round io i.offline
    dispatch now control (record i { offline = offline })

  -- `CloseOnDrop`
  abbrev pub close_on_drop : {F : Type 0} → SocketAddr → Incoming F → Incoming F
  close_on_drop addr i = record i { close_events = i.close_events ++ (addr ∷ []) }
