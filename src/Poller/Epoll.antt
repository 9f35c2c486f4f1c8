-- ===== src/Poller/Epoll.antt =====
-- networker/net/poller/EPollPoller.cpp. The calls of `epoll_ctl` are kept, the latest first;
-- whether a call succeeds is an argument.
use network_program_base_fra.Prelude.{
  ℕ, ◌*◌, Bool, true, false, ◌||◌, Option, none, some, List, [], ◌∷◌, length, leb, ◌==◌,
  if◌then◌else◌, ◌>>=◌, ◌>>◌, assert, update,
}
use network_program_base_fra.Prelude.Int.{ℤ, pos, negsuc}
use network_program_base_fra.Poller.{
  Handle, Store, ChannelMap, is_end, is_channel, set_index, is_index,
}

-- EPOLL_CTL_ADD, EPOLL_CTL_MOD and EPOLL_CTL_DEL
pub data Operation : Type 0 where
  adds modifies deletes : Operation

pub record Ctl : Type 0 where
  pub operation : Operation
  pub fd : ℕ
  pub events : ℕ

pub record EPollPoller : Type 0 where
  pub channels : ChannelMap
  pub store : Store
  pub events_size : ℕ
  pub calls : List Ctl

abbrev pub new_index : ℤ
new_index = negsuc 0

abbrev pub added : ℕ
added = 1

abbrev pub deleted : ℕ
deleted = 2

abbrev pub init_event_list_size : ℕ
init_event_list_size = 26

unfoldable pub new : Store → EPollPoller
new store = record {
  channels = λ fd. none;
  store = store;
  events_size = init_event_list_size;
  calls = [];
}

abbrev pub is_new : ℤ → Bool
is_new (pos n) = false
is_new (negsuc n) = n == 0

abbrev pub is_delete : Operation → Bool
is_delete deletes = true
is_delete op = false

-- A call that fails ends the program, unless it deletes.
unfoldable pub control : Bool → Operation → ℕ → EPollPoller → Option EPollPoller
control ok op a p = do
  assert (ok || is_delete op)
  some (record p {
    calls = record { operation = op; fd = (p.store a).fd; events = (p.store a).events } ∷ p.calls;
  })

abbrev pub with_index : ℕ → ℤ → EPollPoller → EPollPoller
with_index a i p = record p { store = set_index a i p.store }

-- A channel that is new goes into the map.
abbrev pub enter : ℕ → EPollPoller → Option EPollPoller
enter a p =
    let fd : ℕ = (p.store a).fd in
    if is_new (p.store a).index
    then (do
      assert (is_end (p.channels fd))
      some (record p { channels = update p.channels fd (some a) }))
    else (do assert (is_channel (p.channels fd) a); some p)

unfoldable pub update_channel : Bool → ℕ → EPollPoller → Option EPollPoller
update_channel ok a p =
    let h : Handle = p.store a in
    if is_new h.index || is_index h.index deleted
    then (do p' ← enter a p; control ok adds a (with_index a (pos added) p'))
    else (do
      assert (is_channel (p.channels h.fd) a)
      assert (is_index h.index added)
      (if h.events == 0
          then (do p' ← control ok deletes a p; some (with_index a (pos deleted) p'))
          else control ok modifies a p))

unfoldable pub remove_channel : Bool → ℕ → EPollPoller → Option EPollPoller
remove_channel ok a p =
    let h : Handle = p.store a in
    do
      assert (is_channel (p.channels h.fd) a)
      assert (h.events == 0)
      assert (is_index h.index added || is_index h.index deleted)
      let erased : EPollPoller = record p { channels = update p.channels h.fd none }
      p' ← if is_index h.index added then control ok deletes a erased else some erased
      some (with_index a new_index p')

-- What `epoll_wait` reports: the channel that was given with the descriptor, and the events.
abbrev pub Report : Type 0
Report = ℕ × ℕ

unfoldable pub fill : List Report → EPollPoller → Option (List ℕ × EPollPoller)
fill [] p = some ([], p)
fill ((a, revents) ∷ rs) p = do
  assert (is_channel (p.channels (p.store a).fd) a)
  (active, p') ←
      fill rs (record p { store = update p.store a (record (p.store a) { revents = revents }) })
  some (a ∷ active, p')

unfoldable pub fill_active_channels : List Report → EPollPoller → Option (List ℕ × EPollPoller)
fill_active_channels reports p = do assert (leb (length reports) p.events_size); fill reports p

-- The list of events doubles when it was full. An error of `epoll_wait` gives no reports.
unfoldable pub poll : List Report → EPollPoller → Option (List ℕ × EPollPoller)
poll [] p = some ([], p)
poll (r ∷ rs) p = do
  (active, p') ← fill_active_channels (r ∷ rs) p
  some (
    active,
    (if length (r ∷ rs) == p'.events_size
        then record p' { events_size = p'.events_size * 2 }
        else p'),
  )
