-- ===== src/Poller/EpollValid.antt =====
-- What networker/net/poller/EPollPoller.cpp keeps with the kernel, as epoll_ctl(2) has it: a
-- descriptor is added when it is not in the interest list, and changed or deleted when it is.
use network_program_base_fra.Prelude.{
  ℕ, ◌≡◌, ◌⊎◌, refl, sym, ap, ◌∙◌, Bool, true, false, not, ◌&&◌, ◌||◌, Option, none, some, some_inj,
  List, [], ◌∷◌, ◌==◌, ==_iff, if◌then◌else◌, arith, inl, inr, Bool-cases,
}
use network_program_base_fra.Prelude.Int.{ℤ}
use network_program_base_fra.Poller.{Store, ChannelMap, is_end, set_index, is_index}
use network_program_base_fra.Poller.Epoll.{
  Operation, adds, modifies, deletes, Ctl, EPollPoller, added, deleted, is_new,
}

-- The interest list: the events that are watched for on a descriptor.
abbrev pub outcome : Operation → ℕ → Option ℕ
outcome adds events = some events
outcome modifies events = some events
outcome deletes events = none

unfoldable pub interest : List Ctl → ℕ → Option ℕ
interest [] fd = none
interest (c ∷ cs) fd = if c.fd == fd then outcome c.operation c.events else interest cs fd

abbrev pub allowed : Operation → Option ℕ → Bool
allowed adds old = is_end old
allowed modifies old = not (is_end old)
allowed deletes old = not (is_end old)

unfoldable pub all_allowed : List Ctl → Bool
all_allowed [] = true
all_allowed (c ∷ cs) = allowed c.operation (interest cs c.fd) && all_allowed cs

-- Whether the channel that is registered for a descriptor is added.
abbrev pub watches : Option ℕ → Store → Bool
watches none store = false
watches (some a) store = is_index (store a).index added

abbrev pub is_known : ℤ → Bool
is_known i = is_index i added || is_index i deleted

pub record IsValid (p : EPollPoller) : Type 0 where
  pub named : (fd a : ℕ) → p.channels fd ≡ some a → (p.store a).fd ≡ fd
  pub known : (fd a : ℕ) → p.channels fd ≡ some a → is_known (p.store a).index ≡ true
  pub entered : (a : ℕ) → is_new (p.store a).index ≡ false → p.channels (p.store a).fd ≡ some a
  pub legal : all_allowed p.calls ≡ true
  pub watched : (fd : ℕ) → is_end (interest p.calls fd) ≡ not (watches (p.channels fd) p.store)

pub fd-set_index : (a b : ℕ) (i : ℤ) (store : Store) → (set_index a i store b).fd ≡ (store b).fd
fd-set_index a b i store = elim (Bool-cases (b == a)) [
  | inl e ↦ rw e (ap (λ c. (store c).fd) (sym ((==_iff b a).0 e)))
  | inr e ↦ rw e refl
]

pub same_self : (a : ℕ) → (a == a) ≡ true
same_self a = (==_iff a a).1 refl

pub set_index_away :
    (a b : ℕ) (i : ℤ) (store : Store) → (b == a) ≡ false → set_index a i store b ≡ store b
set_index_away a b i store h = rw h refl

pub set_index_here : (a : ℕ) (i : ℤ) (store : Store) → (set_index a i store a).index ≡ i
set_index_here a i store = rw (same_self a) refl

-- The poller after a call for the channel `a`, with the channel's new index.
abbrev pub moved : ℕ → ℤ → Operation → EPollPoller → ChannelMap → EPollPoller
moved a i op p ch = record p {
  channels = ch;
  store = set_index a i p.store;
  calls = record { operation = op; fd = (p.store a).fd; events = (p.store a).events } ∷ p.calls;
}

-- A channel is entered or stays, with its new index and one call for its descriptor.
module _ (a : ℕ) (i : ℤ) (op : Operation) (p : EPollPoller) (ch : ChannelMap) (v : IsValid p)
    (here : ch (p.store a).fd ≡ some a)
    (others : (fd : ℕ) → ((p.store a).fd == fd) ≡ false → ch fd ≡ p.channels fd)
    (alone : (b : ℕ) → p.channels (p.store a).fd ≡ some b → b ≡ a) (ok : is_known i ≡ true)
    (may : allowed op (interest p.calls (p.store a).fd) ≡ true)
    (agrees : is_end (outcome op (p.store a).events) ≡ not (is_index i added)) where
  found : (fd b : ℕ) → ch fd ≡ some b → (b ≡ a) ⊎ (((p.store a).fd == fd) ≡ false)
  found fd b e = elim (Bool-cases ((p.store a).fd == fd)) [
    | inl h ↦ inl (some_inj (sym e ∙ ap ch (sym ((==_iff (p.store a).fd fd).0 h)) ∙ here))
    | inr h ↦ inr h
  ]

  named_after : (fd b : ℕ) → ch fd ≡ some b → (set_index a i p.store b).fd ≡ fd
  named_after fd b e = fd-set_index a b i p.store ∙ elim (Bool-cases ((p.store a).fd == fd)) [
    | inl h ↦
        ap (λ c. (p.store c).fd)
          (some_inj (sym e ∙ ap ch (sym ((==_iff (p.store a).fd fd).0 h)) ∙ here))
        ∙ (==_iff (p.store a).fd fd).0 h
    | inr h ↦ v.named fd b (sym (others fd h) ∙ e)
  ]

  known_after : (fd b : ℕ) → ch fd ≡ some b → is_known (set_index a i p.store b).index ≡ true
  known_after fd b e = elim (Bool-cases (b == a)) [
    | inl h ↦ rw h ok
    | inr h ↦ elim (found fd b e) [
      | inl same ↦ absurd (ground arith)
      | inr away ↦ rw h (v.known fd b (sym (others fd away) ∙ e))
    ]
  ]

  kept : (b : ℕ) → (b == a) ≡ false → is_new (p.store b).index ≡ false → ch (p.store b).fd ≡ some b
  kept b h e = elim (Bool-cases ((p.store a).fd == (p.store b).fd)) [
    | inl s ↦
        let same : b ≡ a =
          alone b (ap p.channels ((==_iff (p.store a).fd (p.store b).fd).0 s) ∙ v.entered b e) in
        absurd (ground arith)
    | inr away ↦ others (p.store b).fd away ∙ v.entered b e
  ]

  entered_after :
      (b : ℕ)
      → is_new (set_index a i p.store b).index ≡ false
      → ch (set_index a i p.store b).fd ≡ some b
  entered_after b e = ap ch (fd-set_index a b i p.store) ∙ elim (Bool-cases (b == a)) [
    | inl h ↦
        ap (λ c. ch (p.store c).fd) ((==_iff b a).0 h) ∙ here ∙ ap some (sym ((==_iff b a).0 h))
    | inr h ↦ kept b h (ap (λ g. is_new g.index) (sym (set_index_away a b i p.store h)) ∙ e)
  ]

  unseen :
      (fd : ℕ)
      → ((p.store a).fd == fd) ≡ false
      → (o : Option ℕ) → ch fd ≡ o
      → watches o p.store ≡ watches o (moved a i op p ch).store
  unseen fd s none e = refl
  unseen fd s (some b) e =
      ap (λ g. is_index g.index added) (sym (set_index_away a b i p.store differs))
    where
      differs : (b == a) ≡ false
      differs = elim (Bool-cases (b == a)) [
        | inl h ↦
            let at_fd : (p.store b).fd ≡ fd = v.named fd b (sym (others fd s) ∙ e) in
            let same : (p.store a).fd ≡ fd =
              ap (λ c. (p.store c).fd) (sym ((==_iff b a).0 h)) ∙ at_fd in
            absurd (ground arith)
        | inr h ↦ h
      ]

  legal_after : all_allowed (moved a i op p ch).calls ≡ true
  unfolding all_allowed
  legal_after = rw (may, v.legal) refl

  watched_after :
      (fd : ℕ)
      → is_end (interest (moved a i op p ch).calls fd)
        ≡ not (watches (ch fd) (moved a i op p ch).store)
  unfolding interest
  watched_after fd = elim (Bool-cases ((p.store a).fd == fd)) [
    | inl s ↦ rw s (
        agrees
        ∙ ap not (ap (λ j. is_index j added) (sym (set_index_here a i p.store)))
        ∙ ap (λ o. not (watches o (moved a i op p ch).store))
            (sym here ∙ ap ch ((==_iff (p.store a).fd fd).0 s)))
    | inr s ↦ rw s (
        v.watched fd
        ∙ ap (λ o. not (watches o p.store)) (sym (others fd s))
        ∙ ap not (unseen fd s (ch fd) refl))
  ]

  pub moved-IsValid : IsValid (moved a i op p ch)
  moved-IsValid = record {
    named = named_after;
    known = known_after;
    entered = entered_after;
    legal = legal_after;
    watched = watched_after;
  }
