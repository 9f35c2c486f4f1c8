-- ===== src/Poller/PollRemove.antt =====
-- The removal of a channel by networker/net/poller/PollPoller.cpp on every branch.
use network_program_base_fra.Prelude.{
  ℕ, zero, suc, ◌-◌, ◌<◌, ◌≡◌, inl, inr, refl, sym, ap, ◌∙◌, true, ◌&&◌, none, some, some_inj, List,
  [], ◌∷◌, length, get_elem?, ◌==◌, ==_iff, Bool-cases, update, arith,
}
use network_program_base_fra.Poller.{is_index}
use network_program_base_fra.Poller.EpollValid.{same_self}
use network_program_base_fra.Poller.Poll.{PollFd, PollPoller, owner, is_ignored, remove_channel}
use network_program_base_fra.Poller.Places.{get_elem?-bound}
use network_program_base_fra.Poller.PollLaws.{IsValid, entry, Without, last-Without}
use network_program_base_fra.Poller.PollSwap.{inner-Without, z_stays}

get_elem?-inside :
    (xs : List PollFd) (i : ℕ) → i < length xs → (x : PollFd) × (get_elem? xs i ≡ some x)
get_elem?-inside [] i h = absurd (omega arith)
get_elem?-inside (x ∷ xs) zero h = (x, refl)
get_elem?-inside (x ∷ xs) (suc i) h = get_elem?-inside xs i (omega arith)

-- On a valid poller, removing a channel of the map that asks for no events and whose entry in the
-- array is switched off passes every assertion. The poller stays valid without the channel, its
-- array is one place shorter, and every other channel keeps its entry, also the one whose entry
-- was moved to the free place.
pub remove_channel_keeps :
    (a : ℕ) (p : PollPoller) (q : PollFd)
    → IsValid p
    → p.channels (p.store a).fd ≡ some a
    → ((p.store a).events == 0) ≡ true
    → entry p a ≡ some q
    → (is_ignored q.fd (p.store a).fd && is_index q.events (p.store a).events) ≡ true
    → (p' : PollPoller) × (remove_channel a p ≡ some p') × Without a p p'
unfolding remove_channel
remove_channel_keeps a p q v c h k off =
    let (i, pfd, x, g, o) = v.placed (p.store a).fd a c in
    let found : entry p a ≡ some pfd = rw (x, g) refl in
    let is_off : (is_ignored pfd.fd (p.store a).fd && is_index pfd.events (p.store a).events)
        ≡ true =
      ap (λ r. is_ignored r.fd (p.store a).fd && is_index r.events (p.store a).events)
        (some_inj (sym found ∙ k))
      ∙ off in
    elim (Bool-cases (i == length p.pollfds - 1)) [
      | inl e ↦ (
        _,
        rw (c, same_self a, h, x, g, is_off, e) refl,
        last-Without a p v c i pfd x g o ((==_iff i _).0 e),
      )
      | inr e ↦
          let bound : i < length p.pollfds = get_elem?-bound p.pollfds i pfd g in
          let (at_end, end) = get_elem?-inside p.pollfds (length p.pollfds - 1) (omega arith) in
          let (z, of_end, z_at) = v.owned (length p.pollfds - 1) at_end end in
          let stays : update p.channels (p.store a).fd none (owner at_end.fd) ≡ some z =
            z_stays a p v c i pfd x g o at_end z e end of_end z_at in
          (
            _,
            rw (c, same_self a, h, x, g, is_off, e, end, stays) refl,
            inner-Without a p v c i pfd x g o at_end z e end of_end z_at,
          )
    ]
