-- ===== src/TcpServer/Steps.antt =====
-- Each functor of the server and each event keeps what is known of its connections
-- (networker/net/TcpServer.cpp).
use network_program_base_fra.Prelude.{
  ℕ, ◌^◌, ◌≤◌, ◌<◌, ◌≡◌, ◌⊎◌, inl, inr, refl, sym, subst, true, false, some, List, [], ◌∷◌, ◌++◌,
  length, ◌==◌, ==_iff, Bool-cases, arith,
}
use network_program_base_fra.TcpServer.{Functor, listens, System, queue_in_loop, take_first}
use network_program_base_fra.TcpServer.Queue.{
  is_establish, is_remove, is_destroy, total-append, total-take_first, home, Placed, append-Placed,
  take_first-Placed,
}
use network_program_base_fra.TcpServer.Valid.{
  Track, track, in_map, Idle, Fine, Ready, ValidWith, IsValid,
}

module _ (f g : Functor) (s s' : System) (v : ValidWith f s)
    (same_next : s'.server.next_conn_id ≡ s.server.next_conn_id)
    (same_port : s'.server.ip_port ≡ s.server.ip_port) (ready : Ready s'.server.thread_pool)
    (placed : Placed s'.server.base_loop s'.loops s'.queued) where
  -- Nothing changes for any connection but `b`.
  pub moved :
      (b : ℕ)
      → 0 < b
      → b < s.server.next_conn_id
      → Fine (track g s' b) (in_map s' b)
      → ((a : ℕ) → (a == b) ≡ false → track g s' a ≡ track f s a)
      → ((a : ℕ) → a < 2 ^ 31 → (a == b) ≡ false → in_map s' a ≡ in_map s a)
      → ValidWith g s'
  moved b low high fine same same_map = record {
    positive = subst (λ n. 0 < n) (sym same_next) v.positive;
    bounded = subst (λ n. n < 2 ^ 31) (sym same_next) v.bounded;
    short = subst (λ p. length p ≤ 40) (sym same_port) v.short;
    ready = ready;
    placed = placed;
    tracked = λ a l h. elim (Bool-cases (a == b)) [
      | inl e ↦ subst (λ c. Fine (track g s' c) (in_map s' c)) (sym ((==_iff a b).0 e)) fine
      | inr e ↦
          let old : a < s.server.next_conn_id = subst (λ n. a < n) same_next h in
          let below : a < 2 ^ 31 = omega (arith, v.bounded) in
          subst (λ m. Fine (track g s' a) m) (sym (same_map a below e))
            (subst (λ t. Fine t (in_map s a)) (sym (same a e)) (v.tracked a l old))
    ];
    unborn = λ a h. elim (Bool-cases (a == b)) [
      | inl e ↦ absurd (apart a e (subst (λ n. (a ≡ 0) ⊎ (n ≤ a)) same_next h))
      | inr e ↦
          subst Idle (sym (same a e)) (v.unborn a (subst (λ n. (a ≡ 0) ⊎ (n ≤ a)) same_next h))
    ];
  }
    where
      apart : (a : ℕ) → (a == b) ≡ true → (a ≡ 0) ⊎ (s.server.next_conn_id ≤ a) → ⊥
      apart a e (inl h) = ground arith
      apart a e (inr h) = ground arith

  -- Nothing changes at all.
  pub stays :
      ((a : ℕ) → track g s' a ≡ track f s a) → ((a : ℕ) → in_map s' a ≡ in_map s a) → ValidWith g s'
  stays same same_map = record {
    positive = subst (λ n. 0 < n) (sym same_next) v.positive;
    bounded = subst (λ n. n < 2 ^ 31) (sym same_next) v.bounded;
    short = subst (λ p. length p ≤ 40) (sym same_port) v.short;
    ready = ready;
    placed = placed;
    tracked = λ a l h.
        subst (λ m. Fine (track g s' a) m) (sym (same_map a))
          (subst (λ t. Fine t (in_map s a)) (sym (same a))
            (v.tracked a l (subst (λ n. a < n) same_next h)));
    unborn =
        λ a h. subst Idle (sym (same a)) (v.unborn a (subst (λ n. (a ≡ 0) ⊎ (n ≤ a)) same_next h));
  }

-- Two tracks are the same when their numbers are.
pub track_eq :
    (t u : Track)
    → t.state ≡ u.state
    → t.to_establish ≡ u.to_establish
    → t.to_remove ≡ u.to_remove
    → t.to_destroy ≡ u.to_destroy
    → t.gone ≡ u.gone
    → t.watching ≡ u.watching
    → t ≡ u
track_eq t u s e r d g w = rw (s, e, r, d, g, w) refl

pub queue_in_loop-IsValid :
    (l : ℕ) (f : Functor) (s : System)
    → ValidWith f s
    → l ≡ home s.server.base_loop s.loops f
    → IsValid (queue_in_loop l f s)
unfolding queue_in_loop
queue_in_loop-IsValid l f s v h =
    stays f listens s (queue_in_loop l f s) v refl refl v.ready
      (subst (λ k. Placed s.server.base_loop s.loops (s.queued ++ (k, f) ∷ [])) (sym h)
        (append-Placed s.server.base_loop s.loops s.queued f v.placed))
      (λ a.
        track_eq _ _ refl (omega (arith, total-append (is_establish a) s.queued l f))
          (omega (arith, total-append (is_remove a) s.queued l f))
          (omega (arith, total-append (is_destroy a) s.queued l f)) refl refl)
      (λ a. refl)

-- The functor that a loop takes is to run in that loop.
pub take_first-ValidWith :
    (l : ℕ) (f : Functor) (rest : List (ℕ × Functor)) (s : System)
    → IsValid s
    → take_first l s.queued ≡ some (f, rest)
    → ValidWith f (record s { queued = rest }) × (l ≡ home s.server.base_loop s.loops f)
take_first-ValidWith l f rest s v e =
    let (here, placed) =
      take_first-Placed s.server.base_loop s.loops l s.queued rest f v.placed e in
    (
      stays listens f s (record s { queued = rest }) v refl refl v.ready placed
          (λ a.
            track_eq _ _ refl (omega (arith, total-take_first (is_establish a) l s.queued rest f e))
              (omega (arith, total-take_first (is_remove a) l s.queued rest f e))
              (omega (arith, total-take_first (is_destroy a) l s.queued rest f e)) refl refl)
          (λ a. refl),
      here,
    )
