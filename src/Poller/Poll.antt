-- ===== src/Poller/Poll.antt =====
-- networker/net/poller/PollPoller.cpp. `pollfds` is the array that poll(2) takes; the index of a
-- channel is its place in it, and the descriptor of a channel without events is -fd - 1 there.
use network_program_base_fra.Prelude.{
  ℕ, zero, suc, ◌-◌, ◌%◌, ◌^◌, Bool, false, ◌&&◌, ◌||◌, Option, none, some, List, [], ◌∷◌, ◌++◌,
  length, get_elem?, set, take, ltb, ◌==◌, if◌then◌else◌, ◌>>=◌, ◌>>◌, assert, update,
}
use network_program_base_fra.Prelude.Int.{ℤ, pos, negsuc}
use network_program_base_fra.Poller.{
  Handle, Store, ChannelMap, is_end, is_channel, set_index, is_negative, is_index,
}

pub record PollFd : Type 0 where
  pub fd : ℤ
  pub events : ℤ
  pub revents : ℕ

pub record PollPoller : Type 0 where
  pub pollfds : List PollFd
  pub channels : ChannelMap
  pub store : Store

-- `static_cast<short>`
abbrev pub short_of : ℕ → ℤ
short_of n =
    if ltb (n % 2 ^ 16) (2 ^ 15) then pos (n % 2 ^ 16) else negsuc (2 ^ 16 - 1 - n % 2 ^ 16)

-- -fd - 1, and back.
abbrev pub ignored : ℕ → ℤ
ignored fd = negsuc fd

abbrev pub owner : ℤ → ℕ
owner (pos fd) = fd
owner (negsuc fd) = fd

abbrev pub is_ignored : ℤ → ℕ → Bool
is_ignored (pos n) fd = false
is_ignored (negsuc n) fd = n == fd

-- An index from 0 on.
abbrev pub place : ℤ → Option ℕ
place (pos i) = some i
place (negsuc i) = none

abbrev pub request : Handle → PollFd
request h = record { fd = pos h.fd; events = short_of h.events; revents = 0 }

abbrev pub quiet_request : Handle → PollFd
quiet_request h = record {
  fd = if h.events == 0 then ignored h.fd else pos h.fd;
  events = short_of h.events;
  revents = 0;
}

unfoldable pub update_channel : ℕ → PollPoller → Option PollPoller
update_channel a p =
    let h : Handle = p.store a in
    if is_negative h.index
    then (do
      assert (is_end (p.channels h.fd))
      some (record {
        pollfds = p.pollfds ++ request h ∷ [];
        channels = update p.channels h.fd (some a);
        store = set_index a (pos (length p.pollfds)) p.store;
      }))
    else (do
      assert (is_channel (p.channels h.fd) a)
      idx ← place h.index
      pfd ← get_elem? p.pollfds idx
      assert (is_index pfd.fd h.fd || is_ignored pfd.fd h.fd)
      some (record p { pollfds = set p.pollfds idx (quiet_request h) }))

abbrev pub pop_back : List PollFd → List PollFd
pop_back fds = take (length fds - 1) fds

-- The place at `idx` is taken out: the last element comes there, and its channel is told.
abbrev pub take_out : ℕ → PollFd → ChannelMap → PollPoller → Option PollPoller
take_out idx pfd channels p =
    let last : ℕ = length p.pollfds - 1 in
    if idx == last
    then some (record p { channels = channels; pollfds = pop_back p.pollfds })
    else (do
      at_end ← get_elem? p.pollfds last
      b ← channels (owner at_end.fd)
      some (record {
        pollfds = pop_back (set (set p.pollfds idx at_end) last pfd);
        channels = channels;
        store = set_index b (pos idx) p.store;
      }))

unfoldable pub remove_channel : ℕ → PollPoller → Option PollPoller
remove_channel a p =
    let h : Handle = p.store a in
    do
      assert (is_channel (p.channels h.fd) a)
      assert (h.events == 0)
      idx ← place h.index
      pfd ← get_elem? p.pollfds idx
      assert (is_ignored pfd.fd h.fd && is_index pfd.events h.events)
      take_out idx pfd (update p.channels h.fd none) p

-- The channels whose descriptors have events, until `num_events` of them are found.
unfoldable pub fill_active_channels : ℕ → List PollFd → ChannelMap → Store → Option (List ℕ)
fill_active_channels zero fds channels store = some []
fill_active_channels (suc n) [] channels store = some []
fill_active_channels (suc n) (pfd ∷ fds) channels store =
    let rest = fill_active_channels n fds channels store in
    let skipped = fill_active_channels (suc n) fds channels store in
    if ltb 0 pfd.revents
    then (do
      a ← channels (owner pfd.fd)
      assert (is_index pfd.fd (store a).fd)
      active ← rest
      some (a ∷ active))
    else skipped
