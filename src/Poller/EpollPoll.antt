-- ===== src/Poller/EpollPoll.antt =====
-- What a poll of networker/net/poller/EPollPoller.cpp hands to the loop.
use network_program_base_fra.Prelude.{
  ℕ, ◌≡◌, ◌≤◌, ◌<◌, ◌*◌, refl, sym, ap, ◌∙◌, Bool, true, not, ◌&&◌, Option, none, some, List, [],
  ◌∷◌, map, length, leb, ◌==◌, ==_iff, le→leb, &&_split, update, arith, inl, inr, Bool-cases,
}
use network_program_base_fra.Poller.{Handle, Store, ChannelMap, is_channel, is_index}
use network_program_base_fra.Poller.Epoll.{
  EPollPoller, Report, added, is_new, fill, fill_active_channels, poll,
}
use network_program_base_fra.Poller.EpollValid.{watches, is_known, IsValid}

-- Whether the poller has the channel of every report.
unfoldable pub all_known : List Report → ChannelMap → Store → Bool
all_known [] channels store = true
all_known ((a, revents) ∷ rs) channels store =
    is_channel (channels (store a).fd) a && all_known rs channels store

-- The store with the events of the reports.
abbrev pub mark : ℕ → ℕ → Store → Store
mark a revents store = update store a (record (store a) { revents = revents })

unfoldable pub mark_all : List Report → Store → Store
mark_all [] store = store
mark_all ((a, revents) ∷ rs) store = mark_all rs (mark a revents store)

-- Marking changes nothing but the events received.
record Alike (g h : Handle) : Type 0 where
  fds : g.fd ≡ h.fd
  asked : g.events ≡ h.events
  indices : g.index ≡ h.index

mark-Alike : (a r b : ℕ) (store : Store) → Alike (mark a r store b) (store b)
mark-Alike a r b store = elim (Bool-cases (b == a)) [
  | inl e ↦ rw (e, sym ((==_iff b a).0 e)) (record { fds = refl; asked = refl; indices = refl })
  | inr e ↦ rw e (record { fds = refl; asked = refl; indices = refl })
]

mark_all-Alike : (rs : List Report) (store : Store) (b : ℕ) → Alike (mark_all rs store b) (store b)
unfolding mark_all
mark_all-Alike [] store b = record { fds = refl; asked = refl; indices = refl }
mark_all-Alike ((a, r) ∷ rs) store b =
    let one : Alike (mark a r store b) (store b) = mark-Alike a r b store in
    let rest : Alike (mark_all rs (mark a r store) b) (mark a r store b) =
      mark_all-Alike rs (mark a r store) b in
    record {
      fds = rest.fds ∙ one.fds;
      asked = rest.asked ∙ one.asked;
      indices = rest.indices ∙ one.indices;
    }

all_known-mark :
    (rs : List Report) (channels : ChannelMap) (store : Store) (a r : ℕ)
    → all_known rs channels (mark a r store) ≡ all_known rs channels store
unfolding all_known
all_known-mark [] channels store a r = refl
all_known-mark ((b, s) ∷ rs) channels store a r = rw (all_known-mark rs channels store a r) (
    ap (λ fd. is_channel (channels fd) b && all_known rs channels store)
      (mark-Alike a r b store).fds)

fill_lem :
    (rs : List Report) (p : EPollPoller)
    → all_known rs p.channels p.store ≡ true
    → fill rs p ≡ some (map (λ r. r.0) rs, record p { store = mark_all rs p.store })
unfolding fill all_known mark_all
fill_lem [] p h = refl
fill_lem ((a, r) ∷ rs) p h =
    let (known, others) = &&_split (is_channel (p.channels (p.store a).fd) a) _ h in
    rw
      (
        known,
        fill_lem rs (record p { store = mark a r p.store })
            (all_known-mark rs p.channels p.store a r ∙ others),
      )
      refl

watches-mark_all :
    (rs : List Report) (o : Option ℕ) (store : Store)
    → watches o (mark_all rs store) ≡ watches o store
watches-mark_all rs none store = refl
watches-mark_all rs (some a) store = ap (λ i. is_index i added) (mark_all-Alike rs store a).indices

marked-IsValid :
    (rs : List Report) (p : EPollPoller)
    → IsValid p
    → IsValid (record p { store = mark_all rs p.store })
marked-IsValid rs p v = record {
  named = λ fd a e. (mark_all-Alike rs p.store a).fds ∙ v.named fd a e;
  known = λ fd a e. ap is_known (mark_all-Alike rs p.store a).indices ∙ v.known fd a e;
  entered = λ a e.
      ap p.channels (mark_all-Alike rs p.store a).fds
      ∙ v.entered a (ap is_new (sym (mark_all-Alike rs p.store a).indices) ∙ e);
  legal = v.legal;
  watched = λ fd. v.watched fd ∙ ap not (sym (watches-mark_all rs (p.channels fd) p.store));
}

resized-IsValid : (n : ℕ) (p : EPollPoller) → IsValid p → IsValid (record p { events_size = n })
resized-IsValid n p v = record {
  named = v.named;
  known = v.known;
  entered = v.entered;
  legal = v.legal;
  watched = v.watched;
}

-- A poll that finds events, on a valid poller that has the channel of every report and room for
-- the reports, passes every assertion. It hands over the channels of the reports in their order,
-- leaves the poller valid with each report written to its channel, and leaves room for more
-- reports than there were.
pub poll_lem :
    (r : Report) (rs : List Report) (p : EPollPoller)
    → IsValid p
    → all_known (r ∷ rs) p.channels p.store ≡ true
    → length (r ∷ rs) ≤ p.events_size
    → (p' : EPollPoller) × (poll (r ∷ rs) p ≡ some (map (λ s. s.0) (r ∷ rs), p'))
      × IsValid p'
      × (p'.store ≡ mark_all (r ∷ rs) p.store)
      × (p'.calls ≡ p.calls)
      × (length (r ∷ rs) < p'.events_size)
unfolding poll fill_active_channels
poll_lem r rs p v h room =
    let marked : EPollPoller = record p { store = mark_all (r ∷ rs) p.store } in
    let w : IsValid marked = marked-IsValid (r ∷ rs) p v in
    let fits : leb (length (r ∷ rs)) p.events_size ≡ true = le→leb _ _ room in
    elim (Bool-cases (length (r ∷ rs) == p.events_size)) [
      | inl e ↦ (
        record marked { events_size = p.events_size * 2 },
        rw (fits, fill_lem (r ∷ rs) p h, e) refl,
        resized-IsValid (p.events_size * 2) marked w,
        refl,
        refl,
        ground arith,
      )
      | inr e ↦ (marked, rw (fits, fill_lem (r ∷ rs) p h, e) refl, w, refl, refl, ground arith)
    ]
