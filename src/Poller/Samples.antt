-- ===== src/Poller/Samples.antt =====
-- Concrete pollers for the theorems about networker/net/poller.
use network_program_base_fra.Prelude.{
  ℕ, false, get_elem?, zero, suc, ◌⊎◌, inl, inr, ap, ◌==◌, ==_iff, Bool-cases, if◌then◌else◌, ◌≡◌,
  ◌<◌, refl, sym, ◌∙◌, subst, true, none, some, some_inj, [], ◌∷◌, update, arith,
}
use network_program_base_fra.Prelude.Int.{pos, negsuc}
use network_program_base_fra.Poller.{Store, set_index}
use network_program_base_fra.Poller.Epoll.{
  adds, EPollPoller, new, new_index, control, update_channel, poll,
}
use network_program_base_fra.Poller.EpollValid.{IsValid}
use network_program_base_fra.Poller.EpollLaws.{Reaches, new-IsValid, update_channel_lem}
use network_program_base_fra.Poller.EpollRemove.{Removes, remove_channel_lem}
use network_program_base_fra.Poller.EpollPoll.{all_known, mark_all, poll_lem}
use network_program_base_fra.Poller.Poll
use network_program_base_fra.Poller.PollLaws
use network_program_base_fra.Poller.Poll.{PollFd, PollPoller, owner}
use network_program_base_fra.Poller.PollLaws.{Without}
use network_program_base_fra.Poller.PollRemove.{remove_channel_keeps}

abbrev idle : Store
idle = λ a. record { fd = a; events = 0; revents = 0; index = new_index }

abbrev entered : EPollPoller
entered = record {
  channels = update (λ fd. none) 3 (some 3);
  store = set_index 3 (pos 1) idle;
  events_size = 26;
  calls = record { operation = adds; fd = 3; events = 0 } ∷ [];
}

fresh-IsValid : IsValid (new idle)
fresh-IsValid = new-IsValid idle (λ a. refl)

update_channel_lem_example : Reaches 3 (new idle) (update_channel true 3 (new idle)) (some 0)
unfolding new
update_channel_lem_example = update_channel_lem 3 (new idle) fresh-IsValid refl

entered_lem : update_channel true 3 (new idle) ≡ some entered
unfolding new update_channel control
entered_lem = refl

entered-IsValid : IsValid entered
entered-IsValid =
    let (p', e, v, _, _) = update_channel_lem_example in
    subst IsValid (some_inj (sym e ∙ entered_lem)) v

remove_channel_lem_example : Removes 3 entered
remove_channel_lem_example = remove_channel_lem 3 entered entered-IsValid refl refl

poll_lem_example :
    (p' : EPollPoller) × (poll ((3, 1) ∷ []) entered ≡ some (3 ∷ [], p'))
    × IsValid p'
    × (p'.store ≡ mark_all ((3, 1) ∷ []) entered.store)
    × (p'.calls ≡ entered.calls)
    × (1 < p'.events_size)
unfolding all_known
poll_lem_example = poll_lem (3, 1) [] entered entered-IsValid refl (ground arith)

-- Channel 3 without events stands before channel 4.
abbrev first : PollFd
first = record { fd = negsuc 3; events = pos 0; revents = 0 }

abbrev second : PollFd
second = record { fd = pos 4; events = pos 1; revents = 0 }

abbrev pair : PollPoller
pair = record {
  pollfds = first ∷ second ∷ [];
  channels = update (update (λ fd. none) 3 (some 3)) 4 (some 4);
  store = λ a.
      if a == 3
      then record { fd = 3; events = 0; revents = 0; index = pos 0 }
      else record { fd = 4; events = 1; revents = 0; index = pos 1 };
}

entry_of : (fd a : ℕ) → pair.channels fd ≡ some a → ((fd ≡ 3) × (a ≡ 3)) ⊎ ((fd ≡ 4) × (a ≡ 4))
entry_of fd a e = elim (Bool-cases (fd == 4)) [
  | inl h ↦
      let f : fd ≡ 4 = (==_iff fd 4).0 h in inr (f, sym (some_inj (ap pair.channels (sym f) ∙ e)))
  | inr h ↦ elim (Bool-cases (fd == 3)) [
    | inl k ↦
        let f : fd ≡ 3 = (==_iff fd 3).0 k in inl (f, sym (some_inj (ap pair.channels (sym f) ∙ e)))
    | inr k ↦ let gone : none ≡ some a = sym (nothing fd h k) ∙ e in absurd (ground arith)
  ]
]
  where
    nothing : (fd : ℕ) → (fd == 4) ≡ false → (fd == 3) ≡ false → pair.channels fd ≡ none
    nothing fd h k = rw (h, k) refl

owned_of :
    (i : ℕ) (q : PollFd)
    → get_elem? pair.pollfds i ≡ some q
    → (a : ℕ) × (pair.channels (owner q.fd) ≡ some a) × ((pair.store a).index ≡ pos i)
owned_of zero q e =
    let f : first ≡ q = some_inj e in (3, ap (λ r. pair.channels (owner r.fd)) (sym f), refl)
owned_of (suc zero) q e =
    let f : second ≡ q = some_inj e in (4, ap (λ r. pair.channels (owner r.fd)) (sym f), refl)
owned_of (suc (suc i)) q e = absurd (ground arith)

pair-IsValid : PollLaws.IsValid pair
pair-IsValid = record {
  named = λ fd a e. elim (entry_of fd a e) [
    | inl (f, g) ↦ ap (λ b. (pair.store b).fd) g ∙ sym f
    | inr (f, g) ↦ ap (λ b. (pair.store b).fd) g ∙ sym f
  ];
  placed = λ fd a e. elim (entry_of fd a e) [
    | inl (f, g) ↦ (0, first, ap (λ b. (pair.store b).index) g, refl, sym f)
    | inr (f, g) ↦ (1, second, ap (λ b. (pair.store b).index) g, refl, sym f)
  ];
  owned = owned_of;
}

remove_channel_keeps_example :
    (p' : PollPoller) × (Poll.remove_channel 3 pair ≡ some p') × Without 3 pair p'
remove_channel_keeps_example = remove_channel_keeps 3 pair first pair-IsValid refl refl refl refl
