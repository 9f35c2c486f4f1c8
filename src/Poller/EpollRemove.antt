-- ===== src/Poller/EpollRemove.antt =====
-- What removing a channel does to the interest list (networker/net/poller/EPollPoller.cpp).
use network_program_base_fra.Prelude.{
  ℕ, ◌≡◌, refl, sym, ap, ◌∙◌, true, false, not, ◌||◌, Option, none, some, some_inj, List, ◌∷◌, ◌==◌,
  ==_iff, update, arith, inl, inr, Bool-cases,
}
use network_program_base_fra.Poller.{ChannelMap, is_end, set_index, is_index}
use network_program_base_fra.Poller.Epoll.{
  deletes, Ctl, EPollPoller, new_index, added, deleted, is_new, control, remove_channel,
}
use network_program_base_fra.Poller.EpollValid.{
  interest, all_allowed, watches, is_known, IsValid, set_index_away, fd-set_index, set_index_here,
  same_self,
}
use network_program_base_fra.Poller.EpollLaws.{watched-entered, differs_sym, end_not_some}

module _ (a : ℕ) (p : EPollPoller) (v : IsValid p) (c : p.channels (p.store a).fd ≡ some a) where
  abbrev erased : ChannelMap
  erased = update p.channels (p.store a).fd none

  erased_here : (fd : ℕ) → ((p.store a).fd == fd) ≡ true → erased fd ≡ none
  erased_here fd h =
      ap erased (sym ((==_iff (p.store a).fd fd).0 h)) ∙ rw (same_self (p.store a).fd) refl

  erased_away : (fd : ℕ) → ((p.store a).fd == fd) ≡ false → erased fd ≡ p.channels fd
  erased_away fd h = rw (differs_sym (p.store a).fd fd h) refl

  kept_entry :
      (fd b : ℕ) → erased fd ≡ some b → (((p.store a).fd == fd) ≡ false) × (p.channels fd ≡ some b)
  kept_entry fd b e = elim (Bool-cases ((p.store a).fd == fd)) [
    | inl h ↦ absurd (end_not_some (erased fd) b (ap is_end (erased_here fd h)) e)
    | inr h ↦ (h, sym (erased_away fd h) ∙ e)
  ]

  differs : (fd b : ℕ) → erased fd ≡ some b → (b == a) ≡ false
  differs fd b e = elim (Bool-cases (b == a)) [
    | inl h ↦
        let at_fd : (p.store b).fd ≡ fd = v.named fd b (kept_entry fd b e).1 in
        let same : (p.store a).fd ≡ fd =
          ap (λ d. (p.store d).fd) (sym ((==_iff b a).0 h)) ∙ at_fd in
        let away : ((p.store a).fd == fd) ≡ false = (kept_entry fd b e).0 in absurd (ground arith)
    | inr h ↦ h
  ]

  kept_store : (fd b : ℕ) → erased fd ≡ some b → set_index a new_index p.store b ≡ p.store b
  kept_store fd b e = set_index_away a b new_index p.store (differs fd b e)

  entered_old :
      (b : ℕ) → (b == a) ≡ false → is_new (p.store b).index ≡ false → erased (p.store b).fd ≡ some b
  entered_old b h e = elim (Bool-cases ((p.store a).fd == (p.store b).fd)) [
    | inl s ↦
        let same : b ≡ a = some_inj (
          sym (v.entered b e)
          ∙ ap p.channels (sym ((==_iff (p.store a).fd (p.store b).fd).0 s))
          ∙ c) in
        absurd (ground arith)
    | inr s ↦ erased_away (p.store b).fd s ∙ v.entered b e
  ]

  entered_after :
      (b : ℕ)
      → is_new (set_index a new_index p.store b).index ≡ false
      → erased (set_index a new_index p.store b).fd ≡ some b
  entered_after b e = ap erased (fd-set_index a b new_index p.store) ∙ elim (Bool-cases (b == a)) [
    | inl h ↦
        let differ : true ≡ false =
          sym (ap is_new (set_index_here a new_index p.store))
          ∙ ap (λ d. is_new (set_index a new_index p.store d).index) (sym ((==_iff b a).0 h))
          ∙ e in
        absurd (ground arith)
    | inr h ↦
        entered_old b h
          (ap (λ g. is_new g.index) (sym (set_index_away a b new_index p.store h)) ∙ e)
  ]

  unseen :
      (fd : ℕ) (o : Option ℕ)
      → erased fd ≡ o
      → watches o p.store ≡ watches o (set_index a new_index p.store)
  unseen fd none e = refl
  unseen fd (some b) e = ap (λ g. is_index g.index added) (sym (kept_store fd b e))

  -- The poller without the channel, whatever calls it made for the channel's descriptor.
  removed-IsValid :
      (calls : List Ctl)
      → all_allowed calls ≡ true
      → is_end (interest calls (p.store a).fd) ≡ true
      → ((fd : ℕ) → ((p.store a).fd == fd) ≡ false → interest calls fd ≡ interest p.calls fd)
      → IsValid
          (record p { channels = erased; store = set_index a new_index p.store; calls = calls })
  removed-IsValid calls legal gone rest = record {
    named = λ fd b e. ap (λ g. g.fd) (kept_store fd b e) ∙ v.named fd b (kept_entry fd b e).1;
    known = λ fd b e.
        ap (λ g. is_known g.index) (kept_store fd b e) ∙ v.known fd b (kept_entry fd b e).1;
    entered = entered_after;
    legal = legal;
    watched = λ fd. elim (Bool-cases ((p.store a).fd == fd)) [
      | inl h ↦
          ap (λ d. is_end (interest calls d)) (sym ((==_iff (p.store a).fd fd).0 h))
          ∙ gone
          ∙ sym (ap (λ o. not (watches o (set_index a new_index p.store))) (erased_here fd h))
      | inr h ↦
          ap is_end (rest fd h)
          ∙ v.watched fd
          ∙ ap (λ o. not (watches o p.store)) (sym (erased_away fd h))
          ∙ ap not (unseen fd (erased fd) refl)
    ];
  }

drops :
    (a : ℕ) (p : EPollPoller)
    → p.channels (p.store a).fd ≡ some a
    → ((p.store a).events == 0) ≡ true
    → is_index (p.store a).index added ≡ true
    → remove_channel true a p
      ≡ some (record p {
        channels = update p.channels (p.store a).fd none;
        store = set_index a new_index p.store;
        calls =
            record { operation = deletes; fd = (p.store a).fd; events = (p.store a).events }
            ∷ p.calls;
      })
unfolding remove_channel control
drops a p c z d = rw (c, z, d, same_self a) refl

forgets :
    (a : ℕ) (p : EPollPoller)
    → p.channels (p.store a).fd ≡ some a
    → ((p.store a).events == 0) ≡ true
    → is_index (p.store a).index added ≡ false
    → is_index (p.store a).index deleted ≡ true
    → remove_channel true a p
      ≡ some (record p {
        channels = update p.channels (p.store a).fd none;
        store = set_index a new_index p.store;
      })
unfolding remove_channel control
forgets a p c z d e = rw (c, z, d, e, same_self a) refl

end_none : (o : Option ℕ) → is_end o ≡ true → o ≡ none
end_none none e = refl
end_none (some b) e = absurd (ground arith)

abbrev pub Removes : ℕ → EPollPoller → Type 0
Removes a p =
    (p' : EPollPoller) × (remove_channel true a p ≡ some p')
    × IsValid p'
    × (p'.channels (p.store a).fd ≡ none)
    × ((p'.store a).index ≡ new_index)
    × (interest p'.calls (p.store a).fd ≡ none)
    × ((fd : ℕ) → ((p.store a).fd == fd) ≡ false → interest p'.calls fd ≡ interest p.calls fd)

-- On a valid poller, removing a channel that the poller knows and that asks for no events passes
-- every assertion and keeps the poller valid; the poller no longer knows the channel, the channel
-- is new again, the kernel does not watch its descriptor, and it watches the others as before.
pub remove_channel_lem :
    (a : ℕ) (p : EPollPoller)
    → IsValid p
    → is_new (p.store a).index ≡ false
    → ((p.store a).events == 0) ≡ true
    → Removes a p
unfolding interest all_allowed
remove_channel_lem a p v n z =
    let c : p.channels (p.store a).fd ≡ some a = v.entered a n in
    let w : is_end (interest p.calls (p.store a).fd) ≡ not (is_index (p.store a).index added) =
      watched-entered a p v c in
    let gone : update p.channels (p.store a).fd none (p.store a).fd ≡ none =
      rw (same_self (p.store a).fd) refl in
    let index : (set_index a new_index p.store a).index ≡ new_index =
      set_index_here a new_index p.store in
    elim (Bool-cases (is_index (p.store a).index added)) [
      | inl d ↦
          let call : Ctl = record {
            operation = deletes;
            fd = (p.store a).fd;
            events = (p.store a).events;
          } in
          let here : interest (call ∷ p.calls) (p.store a).fd ≡ none =
            rw (same_self (p.store a).fd) refl in
          let rest : (fd : ℕ)
              → ((p.store a).fd == fd) ≡ false
              → interest (call ∷ p.calls) fd ≡ interest p.calls fd =
            λ fd e. rw e refl in
          let legal : all_allowed (call ∷ p.calls) ≡ true = rw (w, d, v.legal) refl in
          (
            _,
            drops a p c z d,
            removed-IsValid a p v c (call ∷ p.calls) legal (ap is_end here) rest,
            gone,
            index,
            here,
            rest,
          )
      | inr d ↦
          let none_left : is_end (interest p.calls (p.store a).fd) ≡ true = w ∙ ap not d in
          let e : is_index (p.store a).index deleted ≡ true =
            sym (ap (λ t. t || is_index (p.store a).index deleted) d)
            ∙ v.known (p.store a).fd a c in
          (
            _,
            forgets a p c z d e,
            removed-IsValid a p v c p.calls v.legal none_left (λ fd h. refl),
            gone,
            index,
            end_none (interest p.calls (p.store a).fd) none_left,
            λ fd h. refl,
          )
    ]
