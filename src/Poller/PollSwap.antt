-- ===== src/Poller/PollSwap.antt =====
-- Removing a channel that is not the last of the array of networker/net/poller/PollPoller.cpp: the
-- last entry comes to its place.
use network_program_base_fra.Prelude.{
  ℕ, ◌-◌, ◌<◌, ◌≡◌, inl, inr, sym, ap, ◌∙◌, false, none, some, some_inj, List, length, length-set,
  get_elem?, set, ◌==◌, ==_iff, Bool-cases, update, arith,
}
use network_program_base_fra.Prelude.Int.{pos}
use network_program_base_fra.Poller.{ChannelMap, set_index}
use network_program_base_fra.Poller.EpollValid.{
  same_self, set_index_away, set_index_here, fd-set_index,
}
use network_program_base_fra.Poller.EpollLaws.{differs_sym}
use network_program_base_fra.Poller.Poll.{PollFd, PollPoller, owner, pop_back}
use network_program_base_fra.Poller.Places.{get_elem?-bound, get_elem?-set_here, get_elem?-set_away}
use network_program_base_fra.Poller.PollLaws.{
  IsValid, entry, Without, pos_inj, erased_here, erased_away, kept, other_place, other_owner,
  length-pop_back, pop_back-place, pop_back-bound, entry_at,
}

module _ (a : ℕ) (p : PollPoller) (v : IsValid p) (c : p.channels (p.store a).fd ≡ some a) (i : ℕ)
    (pfd : PollFd) (at : (p.store a).index ≡ pos i) (here : get_elem? p.pollfds i ≡ some pfd)
    (own : owner pfd.fd ≡ (p.store a).fd) where
  abbrev erased : ChannelMap
  erased = update p.channels (p.store a).fd none

  -- The last place, its channel, and the array after the move.
  module _ (at_end : PollFd) (z : ℕ) (not_last : (i == length p.pollfds - 1) ≡ false)
      (end : get_elem? p.pollfds (length p.pollfds - 1) ≡ some at_end)
      (of_end : p.channels (owner at_end.fd) ≡ some z)
      (z_at : (p.store z).index ≡ pos (length p.pollfds - 1)) where
    abbrev moved : List PollFd
    moved = set (set p.pollfds i at_end) (length p.pollfds - 1) pfd

    length-moved : length moved ≡ length p.pollfds
    length-moved =
        length-set (set p.pollfds i at_end) (length p.pollfds - 1) pfd
        ∙ length-set p.pollfds i at_end

    inner : i < length p.pollfds - 1
    inner = let bound : i < length p.pollfds = get_elem?-bound p.pollfds i pfd here in ground arith

    at_place : get_elem? (pop_back moved) i ≡ some at_end
    at_place =
        pop_back-place a p v c i pfd at here own moved i length-moved inner
        ∙ get_elem?-set_away (set p.pollfds i at_end) (length p.pollfds - 1) i pfd not_last
        ∙ get_elem?-set_here p.pollfds i at_end (omega (arith, inner))

    at_others :
        (j : ℕ)
        → j < length p.pollfds - 1
        → (j == i) ≡ false
        → get_elem? (pop_back moved) j ≡ get_elem? p.pollfds j
    at_others j h e =
        pop_back-place a p v c i pfd at here own moved j length-moved h
        ∙ get_elem?-set_away (set p.pollfds i at_end) (length p.pollfds - 1) j pfd (ground arith)
        ∙ get_elem?-set_away p.pollfds i j at_end e

    pub z_stays : erased (owner at_end.fd) ≡ some z
    z_stays =
        erased_away a p v c i pfd at here own (owner at_end.fd) (
          other_owner a p v c i pfd at here own (length p.pollfds - 1) z (owner at_end.fd)
            (differs_sym i _ not_last) of_end z_at)
        ∙ of_end

    abbrev swapped : PollPoller
    swapped = record {
      pollfds = pop_back moved;
      channels = erased;
      store = set_index z (pos i) p.store;
    }

    not_z : (j b : ℕ) → j < length p.pollfds - 1 → (p.store b).index ≡ pos j → (b == z) ≡ false
    not_z j b h x = elim (Bool-cases (b == z)) [
      | inl e ↦
          let f : j ≡ length p.pollfds - 1 =
            pos_inj (sym x ∙ ap (λ d. (p.store d).index) ((==_iff b z).0 e) ∙ z_at) in
          absurd (omega arith)
      | inr e ↦ e
    ]

    not_end :
        (fd b j : ℕ) (q : PollFd)
        → p.channels fd ≡ some b
        → (b == z) ≡ false
        → get_elem? p.pollfds j ≡ some q
        → owner q.fd ≡ fd
        → (j == length p.pollfds - 1) ≡ false
    not_end fd b j q e s g o = elim (Bool-cases (j == length p.pollfds - 1)) [
      | inl h ↦
          let f : at_end ≡ q =
            some_inj (sym end ∙ ap (get_elem? p.pollfds) (sym ((==_iff j _).0 h)) ∙ g) in
          let same : b ≡ z =
            some_inj (sym e ∙ ap p.channels (sym o ∙ ap (λ r. owner r.fd) (sym f)) ∙ of_end) in
          absurd (ground arith)
      | inr h ↦ h
    ]

    -- The place of another channel, and its entry, after the move.
    place_after :
        (fd b : ℕ)
        → ((p.store a).fd == fd) ≡ false
        → p.channels fd ≡ some b
        → (k : ℕ) × (q : PollFd) × ((swapped.store b).index ≡ pos k)
          × (get_elem? (pop_back moved) k ≡ some q)
          × (owner q.fd ≡ fd)
          × (entry swapped b ≡ entry p b)
    place_after fd b h e = elim (Bool-cases (b == z)) [
      | inl s ↦
          let same : b ≡ z = (==_iff b z).0 s in
          let y : (swapped.store b).index ≡ pos i =
            ap (λ d. (swapped.store d).index) same ∙ set_index_here z (pos i) p.store in
          (
            i,
            at_end,
            y,
            at_place,
            sym (v.named (owner at_end.fd) z of_end)
                ∙ ap (λ d. (p.store d).fd) (sym same)
                ∙ v.named fd b e,
            entry_at a p v c i pfd at here own swapped b (length p.pollfds - 1) i at_end
                (ap (λ d. (p.store d).index) same ∙ z_at) end y at_place,
          )
      | inr s ↦
          let (j, q, x, g, o) = v.placed fd b e in
          let apart : (j == i) ≡ false = other_place a p v c i pfd at here own fd j q h g o in
          let y : (swapped.store b).index ≡ pos j =
            ap (λ r. r.index) (set_index_away z b (pos i) p.store s) ∙ x in
          let before : (j == length p.pollfds - 1) ≡ false = not_end fd b j q e s g o in
          let bound : j < length p.pollfds = get_elem?-bound p.pollfds j q g in
          let new : get_elem? (pop_back moved) j ≡ some q = at_others j (ground arith) apart ∙ g in
          (j, q, y, new, o, entry_at a p v c i pfd at here own swapped b j j q x g y new)
    ]

    owned_after :
        (j : ℕ) (q : PollFd)
        → get_elem? (pop_back moved) j ≡ some q
        → (b : ℕ) × (erased (owner q.fd) ≡ some b) × ((swapped.store b).index ≡ pos j)
    owned_after j q g = elim (Bool-cases (j == i)) [
      | inl s ↦
          let f : at_end ≡ q =
            some_inj
              (sym at_place ∙ ap (get_elem? (pop_back moved)) (sym ((==_iff j i).0 s)) ∙ g) in
          (
            z,
            ap (λ r. erased (owner r.fd)) (sym f) ∙ z_stays,
            set_index_here z (pos i) p.store ∙ ap pos (sym ((==_iff j i).0 s)),
          )
      | inr s ↦
          let bound : j < length p.pollfds - 1 =
            pop_back-bound a p v c i pfd at here own moved j q length-moved g in
          let (b, o, x) = v.owned j q (sym (at_others j bound s) ∙ g) in
          (
            b,
            erased_away a p v c i pfd at here own (owner q.fd)
                  (other_owner a p v c i pfd at here own j b (owner q.fd) s o x)
                ∙ o,
            ap (λ r. r.index) (set_index_away z b (pos i) p.store (not_z j b bound x)) ∙ x,
          )
    ]

    pub inner-Without : Without a p swapped
    inner-Without = (
      record {
        named = λ fd b e.
            fd-set_index z b (pos i) p.store
            ∙ v.named fd b (
                sym
                  (erased_away a p v c i pfd at here own fd (kept a p v c i pfd at here own fd b e))
                ∙ e);
        placed = λ fd b e.
            let h : ((p.store a).fd == fd) ≡ false = kept a p v c i pfd at here own fd b e in
            let (k, q, x, g, o, same) =
              place_after fd b h (sym (erased_away a p v c i pfd at here own fd h) ∙ e) in
            (k, q, x, g, o);
        owned = owned_after;
      },
      erased_here a p v c i pfd at here own (p.store a).fd (same_self (p.store a).fd),
      length-pop_back a p v c i pfd at here own moved length-moved,
      λ fd b h e.
          let (k, q, x, g, o, same) = place_after fd b h e in
          (erased_away a p v c i pfd at here own fd h ∙ e, same),
    )
