-- ===== src/TimerQueue/Pass.antt =====
-- `handleRead` of networker/net/TimerQueue.cpp: a whole pass over the timers that are due, with
-- callbacks that add and cancel timers.
use network_program_base_fra.Prelude.{
  ℕ, ◌+◌, ◌≡◌, refl, ap, ◌∙◌, inl, inr, Bool, true, false, Option, some, none, List, [], ◌∷◌, arith,
  Bool-cases, if◌then◌else◌, update,
}
use network_program_base_fra.TimerQueue.{
  Timer, TimerQueue, is_earliest, add_timer_in_loop, add_timer, reset_timerfd, cancel_in_loop,
  Request, adds, cancels, serve, run_each, handle_read, get_expired,
}
use network_program_base_fra.TimerQueue.PairSet.{Pair, member, member-insert}
use network_program_base_fra.TimerQueue.Valid.{IsValid, inserted, insert_timer_lem, others-IsValid}
use network_program_base_fra.TimerQueue.Cancel.{IsDetached, update-IsValid, cancel_lem}
use network_program_base_fra.TimerQueue.Expiry.{
  Pending, AddressesFit, Due, with_sets, get_expired_lem,
}
use network_program_base_fra.TimerQueue.Arming.{fire_at, reset_timerfd_lem}
use network_program_base_fra.TimerQueue.Cycle.{Settled, reset_lem}

-- No active timer stands at an address where the store holds none.
free-IsDetached : (q : TimerQueue) (addr : ℕ) → IsValid q → q.store addr ≡ none → IsDetached addr q
free-IsDetached q addr v free s = elim (Bool-cases (member (addr, s) q.active)) [
  | inl there ↦ let (timer, e, _, _) = v.active_of addr s there in cc
  | inr away ↦ away
]

-- Timers that wait in the store are left alone.
abbrev pub Keeps : TimerQueue → TimerQueue → Type 0
Keeps q q' =
    (a : ℕ) (timer : Timer)
    → q.store a ≡ some timer
    → IsDetached a q
    → (q'.store a ≡ some timer) × IsDetached a q'

Pending-Keeps : (es : List Pair) (q q' : TimerQueue) → Keeps q q' → Pending es q → Pending es q'
Pending-Keeps [] q q' k p = tt
Pending-Keeps ((t, addr) ∷ es) q q' k ((timer, e, at), out, apart, p) =
    let (e', out') = k addr timer e out in ((timer, e', at), out', apart, Pending-Keeps es q q' k p)

armed :
    (b : Bool) (clock when : ℕ) (q : TimerQueue)
    → (if b then reset_timerfd clock when q else q)
      ≡ record q { expires_at = if b then some (fire_at clock when) else q.expires_at }
armed true clock when q = reset_timerfd_lem clock when q
armed false clock when q = refl

-- On a valid queue, with the new object at a free address, addTimer in the loop's thread fails no
-- assertion and returns the address with the next sequence number. The queue stays valid, that
-- timer is active, timers that wait in the store are untouched, and the descriptor is set for the
-- new timer if insert reports a change, else left alone.
pub add_timer_lem :
    (clock addr when delta : ℕ) (repeat : Bool) (q : TimerQueue)
    → IsValid q
    → q.store addr ≡ none
    → (q' : TimerQueue) × (add_timer clock addr when delta repeat q
        ≡ some ((addr, q.num_created + 1), q'))
      × IsValid q'
      × (member (addr, q.num_created + 1) q'.active ≡ true)
      × Keeps q q'
      × (q'.expires_at
          ≡ (if is_earliest when q.timers then some (fire_at clock when) else q.expires_at))
unfolding add_timer add_timer_in_loop
add_timer_lem clock addr when delta repeat q v free =
    let sequence : ℕ = q.num_created + 1 in
    let timer : Timer = record {
      expiration = when;
      delta = delta;
      repeat = repeat;
      sequence = sequence;
    } in
    let p : TimerQueue = record q {
      store = update q.store addr (some timer);
      num_created = sequence;
    } in
    let out : IsDetached addr q = free-IsDetached q addr v free in
    let placed : p.store addr ≡ some timer = ground arith in
    let w =
      others-IsValid (record q { store = update q.store addr (some timer) }) q.canceling q.calling
        q.expires_at sequence (update-IsValid q addr (some timer) v out) in
    let (e, u) = insert_timer_lem p addr timer w placed (out sequence) in
    let x : Option ℕ =
      if is_earliest when q.timers then some (fire_at clock when) else q.expires_at in
    (
      record (inserted addr timer p) { expires_at = x },
      rw (e, placed)
          (ap (λ r. some ((addr, sequence), r))
            (armed (is_earliest when q.timers) clock when (inserted addr timer p))),
      others-IsValid (inserted addr timer p) q.canceling q.calling x sequence u,
      ground (arith, member-insert (addr, sequence) (addr, sequence) q.active),
      (λ a other f away. (
        ground arith,
        λ s. ground (arith, away s, member-insert (a, s) (addr, sequence) q.active),
      )),
      refl,
    )

cancel-Keeps :
    (id : Pair) (q : TimerQueue)
    → IsValid q
    → (q' : TimerQueue) × (cancel_in_loop id q ≡ some q') × IsValid q' × Keeps q q'
cancel-Keeps id q v =
    let (q', e, w, sets, _, still, _) = cancel_lem id q v in
    (q', e, w, λ a timer f away. (still a away ∙ f, λ s. sets (a, s) ∙ ground (arith, away s)))

-- Every object that the callbacks create lies at an address that is free at that moment.
abbrev pub Fresh : ℕ → List Request → TimerQueue → Type 0
Fresh clock [] q = Unit {0}
Fresh clock (adds addr when delta repeat ∷ rs) q =
    (q.store addr ≡ none)
    × ((id : Pair) (q' : TimerQueue)
        → add_timer clock addr when delta repeat q ≡ some (id, q')
        → Fresh clock rs q')
Fresh clock (cancels id ∷ rs) q =
    (q' : TimerQueue) → cancel_in_loop id q ≡ some q' → Fresh clock rs q'

Keeps-trans : (q p r : TimerQueue) → Keeps q p → Keeps p r → Keeps q r
Keeps-trans q p r h k a timer e out = let (f, out') = h a timer e out in k a timer f out'

serve_lem :
    (clock : ℕ) (rs : List Request) (q : TimerQueue)
    → IsValid q
    → Fresh clock rs q
    → (q' : TimerQueue) × (serve clock rs q ≡ some q') × IsValid q' × Keeps q q'
unfolding serve
serve_lem clock [] q v f = (q, refl, v, λ a timer e out. (e, out))
serve_lem clock (adds addr when delta repeat ∷ rs) q v f =
    let (p, e, w, _, k, _) = add_timer_lem clock addr when delta repeat q v f.0 in
    let (r, g, u, l) = serve_lem clock rs p w (f.1 _ p e) in (r, rw (e) g, u, Keeps-trans q p r k l)
serve_lem clock (cancels id ∷ rs) q v f =
    let (p, e, w, k) = cancel-Keeps id q v in
    let (r, g, u, l) = serve_lem clock rs p w (f p e) in (r, rw (e) g, u, Keeps-trans q p r k l)

Pending-others :
    (es : List Pair) (q : TimerQueue) (c : List Pair) (k : Bool)
    → Pending es q
    → Pending es (record q { canceling = c; calling = k })
Pending-others [] q c k p = tt
Pending-others (e ∷ es) q c k (f, out, apart, p) = (f, out, apart, Pending-others es q c k p)

module _ (callback : ℕ → List Request) where
  abbrev pub FreshEach : ℕ → List Pair → TimerQueue → Type 0
  FreshEach clock [] q = Unit {0}
  FreshEach clock ((t, addr) ∷ es) q =
      Fresh clock (callback addr) q
      × ((q' : TimerQueue) → serve clock (callback addr) q ≡ some q' → FreshEach clock es q')

  run_each_lem :
      (clock : ℕ) (es : List Pair) (q : TimerQueue)
      → IsValid q
      → Pending es q
      → FreshEach clock es q
      → (q' : TimerQueue) × (run_each callback clock es q ≡ some q') × IsValid q' × Keeps q q'
  unfolding run_each
  run_each_lem clock [] q v p f = (q, refl, v, λ a timer e out. (e, out))
  run_each_lem clock ((t, addr) ∷ es) q v ((timer, e, _), out, apart, p) f =
      let (q', g, w, k) = serve_lem clock (callback addr) q v f.0 in
      let (r, h, u, l) = run_each_lem clock es q' w (Pending-Keeps es q q' k p) (f.1 q' g) in
      (r, rw (e, g) h, u, Keeps-trans q q' r k l)

  -- From a valid queue, with no timer at the last address and new objects only at free addresses,
  -- a pass of handleRead over the due timers fails no assertion, whatever timers its callbacks add
  -- and cancel. It ends in a valid queue, outside a pass; the timers taken out were due; of these,
  -- those that repeat and are not in the canceled set after the callbacks are active again with
  -- the restarted expiration, and the others are deleted.
  pub handle_read_lem :
      (now : ℕ) (q : TimerQueue)
      → IsValid q
      → AddressesFit q.timers
      → ((expired : List Pair) (p : TimerQueue)
          → get_expired now (record q { expires_at = none }) ≡ some (expired, p)
          → FreshEach now expired (record p { calling = true; canceling = [] }))
      → (expired : List Pair) × (p r q' : TimerQueue) × (get_expired now
            (record q { expires_at = none })
          ≡ some (expired, p))
        × (run_each callback now expired (record p { calling = true; canceling = [] }) ≡ some r)
        × (handle_read callback now q ≡ some q')
        × IsValid q'
        × Due now expired
        × Settled now expired (record r { calling = false }) q'
        × (q'.calling ≡ false)
  unfolding handle_read
  handle_read_lem now q v fit fresh =
      let (expired, rest, after, e, _, due, _, w, p) =
        get_expired_lem now (record q { expires_at = none })
          (others-IsValid q q.canceling q.calling none q.num_created v) fit in
      let p1 : TimerQueue = with_sets (record q { expires_at = none }) rest after in
      let p2 : TimerQueue = record p1 { calling = true; canceling = [] } in
      let (p3, f, w3, k) =
        run_each_lem now expired p2 (others-IsValid p1 [] true none q.num_created w)
          (Pending-others expired p1 [] true p) (fresh expired p1 e) in
      let p4 : TimerQueue = record p3 { calling = false } in
      let (q', g, w', settled, idle) =
        reset_lem now now expired p4
          (others-IsValid p3 p3.canceling false p3.expires_at p3.num_created w3)
          (Pending-others expired p3 p3.canceling false
            (Pending-Keeps expired p2 p3 k (Pending-others expired p1 [] true p))) in
      (expired, p1, p3, q', e, f, rw (e, f, g) refl, w', due, settled, idle)
