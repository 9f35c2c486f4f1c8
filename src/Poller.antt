-- ===== src/Poller.antt =====
-- What the two pollers of networker/net/poller share: the map from descriptors to channels of
-- networker/net/Poller.h. A channel is an address in a store, since a poller writes the index of
-- channels that it finds in its map.
pub mod Epoll
pub mod EpollValid
pub mod EpollLaws
pub mod EpollRemove
pub mod EpollPoll
pub mod Places
pub mod Poll
pub mod PollLaws
pub mod PollSwap
pub mod PollRemove
mod Samples
use network_program_base_fra.Prelude.{ℕ, Bool, true, false, Option, none, some, ◌==◌, update}
use network_program_base_fra.Prelude.Int.{ℤ, pos, negsuc}

pub record Handle : Type 0 where
  pub fd : ℕ
  pub events : ℕ
  pub revents : ℕ
  pub index : ℤ

abbrev pub Store : Type 0
Store = ℕ → Handle

abbrev pub ChannelMap : Type 0
ChannelMap = ℕ → Option ℕ

-- `it == channels_.end()`, and `it->second == channel`.
abbrev pub is_end : Option ℕ → Bool
is_end none = true
is_end (some a) = false

abbrev pub is_channel : Option ℕ → ℕ → Bool
is_channel none a = false
is_channel (some b) a = b == a

abbrev pub set_index : ℕ → ℤ → Store → Store
set_index a i store = update store a (record (store a) { index = i })

abbrev pub is_negative : ℤ → Bool
is_negative (pos n) = false
is_negative (negsuc n) = true

abbrev pub is_index : ℤ → ℕ → Bool
is_index (pos n) k = n == k
is_index (negsuc n) k = false

unfoldable pub has_channel : ChannelMap → Store → ℕ → Bool
has_channel channels store a = is_channel (channels (store a).fd) a
