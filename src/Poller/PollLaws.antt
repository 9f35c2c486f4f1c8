-- ===== src/Poller/PollLaws.antt =====
-- What removing a channel does to the array of networker/net/poller/PollPoller.cpp.
use network_program_base_fra.Prelude.{
  ℕ, ◌+◌, ◌-◌, ◌<◌, ◌≡◌, inl, inr, refl, sym, ap, ◌∙◌, true, false, Option, none, some, some_inj,
  List, length, length-take, get_elem?, ◌==◌, ==_iff, Bool-cases, ◌>>=◌, update, arith,
}
use network_program_base_fra.Prelude.Int.{pos, pos_part}
use network_program_base_fra.Poller.{ChannelMap}
use network_program_base_fra.Poller.EpollValid.{same_self}
use network_program_base_fra.Poller.EpollLaws.{differs_sym}
use network_program_base_fra.Poller.Poll.{PollFd, PollPoller, owner, place, pop_back}
use network_program_base_fra.Poller.Places.{get_elem?-bound, get_elem?-take}

-- The channels of the map and the places of the array belong to each other.
pub record IsValid (p : PollPoller) : Type 0 where
  pub named : (fd a : ℕ) → p.channels fd ≡ some a → (p.store a).fd ≡ fd
  pub placed :
      (fd a : ℕ)
      → p.channels fd ≡ some a
      → (i : ℕ) × (q : PollFd) × ((p.store a).index ≡ pos i)
        × (get_elem? p.pollfds i ≡ some q)
        × (owner q.fd ≡ fd)
  pub owned :
      (i : ℕ) (q : PollFd)
      → get_elem? p.pollfds i ≡ some q
      → (a : ℕ) × (p.channels (owner q.fd) ≡ some a) × ((p.store a).index ≡ pos i)

-- What poll(2) is asked for on behalf of a channel.
abbrev pub entry : PollPoller → ℕ → Option PollFd
entry p a = place (p.store a).index >>= get_elem? p.pollfds

-- A poller without a channel: valid, a place shorter, and with the other channels' entries.
abbrev pub Without : ℕ → PollPoller → PollPoller → Type 0
Without a p p' =
    IsValid p'
    × (p'.channels (p.store a).fd ≡ none)
    × (length p'.pollfds + 1 ≡ length p.pollfds)
    × ((fd b : ℕ)
        → ((p.store a).fd == fd) ≡ false
        → p.channels fd ≡ some b
        → (p'.channels fd ≡ some b) × (entry p' b ≡ entry p b))

pub pos_inj : {i j : ℕ} → pos i ≡ pos j → i ≡ j
pos_inj e = ap pos_part e

module _ (a : ℕ) (p : PollPoller) (v : IsValid p) (c : p.channels (p.store a).fd ≡ some a) (i : ℕ)
    (pfd : PollFd) (at : (p.store a).index ≡ pos i) (here : get_elem? p.pollfds i ≡ some pfd)
    (own : owner pfd.fd ≡ (p.store a).fd) where
  abbrev erased : ChannelMap
  erased = update p.channels (p.store a).fd none

  pub erased_here : (fd : ℕ) → ((p.store a).fd == fd) ≡ true → erased fd ≡ none
  erased_here fd h =
      ap erased (sym ((==_iff (p.store a).fd fd).0 h)) ∙ rw (same_self (p.store a).fd) refl

  pub erased_away : (fd : ℕ) → ((p.store a).fd == fd) ≡ false → erased fd ≡ p.channels fd
  erased_away fd h = rw (differs_sym (p.store a).fd fd h) refl

  pub kept : (fd b : ℕ) → erased fd ≡ some b → ((p.store a).fd == fd) ≡ false
  kept fd b e = elim (Bool-cases ((p.store a).fd == fd)) [
    | inl h ↦ let gone : none ≡ some b = sym (erased_here fd h) ∙ e in absurd (ground arith)
    | inr h ↦ h
  ]

  pub other_place :
      (fd j : ℕ) (q : PollFd)
      → ((p.store a).fd == fd) ≡ false
      → get_elem? p.pollfds j ≡ some q
      → owner q.fd ≡ fd
      → (j == i) ≡ false
  other_place fd j q h g o = elim (Bool-cases (j == i)) [
    | inl e ↦
        let same : pfd ≡ q =
          some_inj (sym here ∙ ap (get_elem? p.pollfds) (sym ((==_iff j i).0 e)) ∙ g) in
        let f : (p.store a).fd ≡ fd = sym own ∙ ap (λ r. owner r.fd) same ∙ o in
        absurd (ground arith)
    | inr e ↦ e
  ]

  pub other_owner :
      (j b : ℕ) (fd : ℕ)
      → (j == i) ≡ false
      → p.channels fd ≡ some b
      → (p.store b).index ≡ pos j
      → ((p.store a).fd == fd) ≡ false
  other_owner j b fd h g x = elim (Bool-cases ((p.store a).fd == fd)) [
    | inl e ↦
        let same : b ≡ a =
          some_inj (sym g ∙ ap p.channels (sym ((==_iff (p.store a).fd fd).0 e)) ∙ c) in
        let f : j ≡ i = pos_inj (sym x ∙ ap (λ d. (p.store d).index) same ∙ at) in
        absurd (ground arith)
    | inr e ↦ e
  ]

  pub length-pop_back :
      (fds : List PollFd)
      → length fds ≡ length p.pollfds
      → length (pop_back fds) + 1 ≡ length p.pollfds
  length-pop_back fds e =
      ground (arith, length-take (length fds - 1) fds, get_elem?-bound p.pollfds i pfd here)

  pub pop_back-place :
      (fds : List PollFd) (j : ℕ)
      → length fds ≡ length p.pollfds
      → j < length p.pollfds - 1
      → get_elem? (pop_back fds) j ≡ get_elem? fds j
  pop_back-place fds j e h = get_elem?-take fds (length fds - 1) j (omega arith)

  pub pop_back-bound :
      (fds : List PollFd) (j : ℕ) (q : PollFd)
      → length fds ≡ length p.pollfds
      → get_elem? (pop_back fds) j ≡ some q
      → j < length p.pollfds - 1
  pop_back-bound fds j q e g =
      omega (arith, get_elem?-bound (pop_back fds) j q g, length-pop_back fds e)

  pub entry_at :
      (p' : PollPoller) (b j k : ℕ) (q : PollFd)
      → (p.store b).index ≡ pos j
      → get_elem? p.pollfds j ≡ some q
      → (p'.store b).index ≡ pos k
      → get_elem? p'.pollfds k ≡ some q
      → entry p' b ≡ entry p b
  entry_at p' b j k q x g y h = rw (x, y, g, h) refl

  -- The place taken out is the last one.
  pub last-Without :
      i ≡ length p.pollfds - 1
      → Without a p (record p { channels = erased; pollfds = pop_back p.pollfds })
  last-Without end = (
    record {
      named = λ fd b e. v.named fd b (sym (erased_away fd (kept fd b e)) ∙ e);
      placed = λ fd b e.
          let (j, q, x, g, o) = v.placed fd b (sym (erased_away fd (kept fd b e)) ∙ e) in
          (j, q, x, pop_back-place p.pollfds j refl (inside fd j q (kept fd b e) g o) ∙ g, o);
      owned = λ j q g.
          let bound : j < length p.pollfds - 1 = pop_back-bound p.pollfds j q refl g in
          let old : get_elem? p.pollfds j ≡ some q =
            sym (pop_back-place p.pollfds j refl bound) ∙ g in
          let (b, o, x) = v.owned j q old in
          let apart : (j == i) ≡ false = before_end j bound in
          (b, erased_away (owner q.fd) (other_owner j b (owner q.fd) apart o x) ∙ o, x);
    },
    erased_here (p.store a).fd (same_self (p.store a).fd),
    length-pop_back p.pollfds refl,
    λ fd b h e.
        let (j, q, x, g, o) = v.placed fd b e in
        (
          erased_away fd h ∙ e,
          entry_at (record p { channels = erased; pollfds = pop_back p.pollfds }) b j j q x g x
              (pop_back-place p.pollfds j refl (inside fd j q h g o) ∙ g),
        ),
  )
    where
      before_end : (j : ℕ) → j < length p.pollfds - 1 → (j == i) ≡ false
      before_end j h = ground arith

      inside :
          (fd j : ℕ) (q : PollFd)
          → ((p.store a).fd == fd) ≡ false
          → get_elem? p.pollfds j ≡ some q
          → owner q.fd ≡ fd
          → j < length p.pollfds - 1
      inside fd j q h g o =
          let apart : (j == i) ≡ false = other_place fd j q h g o in
          let bound : j < length p.pollfds = get_elem?-bound p.pollfds j q g in ground arith
