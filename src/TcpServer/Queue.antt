-- ===== src/TcpServer/Queue.antt =====
-- Counting in the queue of functors of the server's loops (networker/net/TcpServer.cpp).
use network_program_base_fra.Prelude.{
  ℕ, ◌+◌, ◌≡◌, refl, sym, ap, ◌∙◌, Bool, true, false, Option, some, some_inj, List, [], ◌∷◌, ◌++◌,
  ◌==◌, ==_iff, subst, update, Bool-cases, inl, inr, ◌>>=◌, >>=-eq-some, arith,
}
use network_program_base_fra.TcpServer.{
  Functor, listens, establishes, removes, destroys, take_first,
}

abbrev pub one_if : Bool → ℕ
one_if true = 1
one_if false = 0

-- Whether a functor is the one that establishes, removes or destroys a connection.
abbrev pub is_establish : ℕ → Functor → ℕ
is_establish a listens = 0
is_establish a (establishes b) = one_if (a == b)
is_establish a (removes b) = 0
is_establish a (destroys b) = 0

abbrev pub is_remove : ℕ → Functor → ℕ
is_remove a listens = 0
is_remove a (establishes b) = 0
is_remove a (removes b) = one_if (a == b)
is_remove a (destroys b) = 0

abbrev pub is_destroy : ℕ → Functor → ℕ
is_destroy a listens = 0
is_destroy a (establishes b) = 0
is_destroy a (removes b) = 0
is_destroy a (destroys b) = one_if (a == b)

-- How many of the queued functors are of a kind.
abbrev pub total : (Functor → ℕ) → List (ℕ × Functor) → ℕ
total w [] = 0
total w ((l, f) ∷ fs) = w f + total w fs

pub total-append :
    (w : Functor → ℕ) (fs : List (ℕ × Functor)) (l : ℕ) (f : Functor)
    → total w (fs ++ (l, f) ∷ []) ≡ w f + total w fs
total-append w [] l f = refl
total-append w ((k, g) ∷ fs) l f = omega (arith, total-append w fs l f)

pub total-take_first :
    (w : Functor → ℕ) (l : ℕ) (fs rest : List (ℕ × Functor)) (f : Functor)
    → take_first l fs ≡ some (f, rest)
    → total w fs ≡ w f + total w rest
unfolding take_first
total-take_first w l [] rest f e = absurd (ground arith)
total-take_first w l ((k, g) ∷ fs) rest f e = elim (Bool-cases (k == l)) [
  | inl h ↦
      let here : take_first l ((k, g) ∷ fs) ≡ some (g, fs) = rw h refl in
      ap (λ q. w q.0 + total w q.1) (some_inj (sym here ∙ e))
  | inr h ↦
      let put_back : Functor × List (ℕ × Functor) → Option (Functor × List (ℕ × Functor)) =
        λ q. some (q.0, (k, g) ∷ q.1) in
      let here : take_first l ((k, g) ∷ fs) ≡ (take_first l fs >>= put_back) = rw h refl in
      let (q, e1, e2) = >>=-eq-some (take_first l fs) put_back (sym here ∙ e) in
      let counted : total w fs ≡ w q.0 + total w q.1 = total-take_first w l fs q.1 q.0 e1 in
      let same : w q.0 + (w g + total w q.1) ≡ w f + total w rest =
        ap (λ r. w r.0 + total w r.1) (some_inj e2) in
      omega arith
]

-- The loop in which the assertions of a functor want it to run.
abbrev pub home : ℕ → (ℕ → ℕ) → Functor → ℕ
home base loops listens = base
home base loops (establishes a) = loops a
home base loops (removes a) = base
home base loops (destroys a) = loops a

abbrev pub Placed : ℕ → (ℕ → ℕ) → List (ℕ × Functor) → Type 0
Placed base loops [] = Unit
Placed base loops ((l, f) ∷ fs) = (l ≡ home base loops f) × Placed base loops fs

pub append-Placed :
    (base : ℕ) (loops : ℕ → ℕ) (fs : List (ℕ × Functor)) (f : Functor)
    → Placed base loops fs
    → Placed base loops (fs ++ (home base loops f, f) ∷ [])
append-Placed base loops [] f p = (refl, tt)
append-Placed base loops ((k, g) ∷ fs) f (h, p) = (h, append-Placed base loops fs f p)

-- The functor that a loop takes is in the loop where it is to run.
pub take_first-Placed :
    (base : ℕ) (loops : ℕ → ℕ) (l : ℕ) (fs rest : List (ℕ × Functor)) (f : Functor)
    → Placed base loops fs
    → take_first l fs ≡ some (f, rest)
    → (l ≡ home base loops f) × Placed base loops rest
unfolding take_first
take_first-Placed base loops l [] rest f p e = absurd (ground arith)
take_first-Placed base loops l ((k, g) ∷ fs) rest f (h, p) e = elim (Bool-cases (k == l)) [
  | inl same ↦
      let here : take_first l ((k, g) ∷ fs) ≡ some (g, fs) = rw same refl in
      subst (λ q. (l ≡ home base loops q.0) × Placed base loops q.1) (some_inj (sym here ∙ e))
        (sym ((==_iff k l).0 same) ∙ h, p)
  | inr other ↦
      let put_back : Functor × List (ℕ × Functor) → Option (Functor × List (ℕ × Functor)) =
        λ q. some (q.0, (k, g) ∷ q.1) in
      let here : take_first l ((k, g) ∷ fs) ≡ (take_first l fs >>= put_back) = rw other refl in
      let (q, e1, e2) = >>=-eq-some (take_first l fs) put_back (sym here ∙ e) in
      let (m, n) = take_first-Placed base loops l fs q.1 q.0 p e1 in
      subst (λ r. (l ≡ home base loops r.0) × Placed base loops r.1) (some_inj e2) (m, (h, n))
]

other : (a b : ℕ) → one_if (a == b) ≡ 0 → (b == a) ≡ false
other a b h = ground arith

away : (loops : ℕ → ℕ) (a l b : ℕ) → (b == a) ≡ false → update loops a l b ≡ loops b
away loops a l b e = rw e refl

-- A connection that has no functor gets its loop.
pub update-Placed :
    (base : ℕ) (loops : ℕ → ℕ) (a l : ℕ) (fs : List (ℕ × Functor))
    → total (is_establish a) fs ≡ 0
    → total (is_destroy a) fs ≡ 0
    → Placed base loops fs
    → Placed base (update loops a l) fs
update-Placed base loops a l [] e d p = tt
update-Placed base loops a l ((k, listens) ∷ fs) e d (h, p) =
    (h, update-Placed base loops a l fs (omega arith) (omega arith) p)
update-Placed base loops a l ((k, removes b) ∷ fs) e d (h, p) =
    (h, update-Placed base loops a l fs (omega arith) (omega arith) p)
update-Placed base loops a l ((k, establishes b) ∷ fs) e d (h, p) = (
  h ∙ sym (away loops a l b (other a b (omega arith))),
  update-Placed base loops a l fs (omega arith) (omega arith) p,
)
update-Placed base loops a l ((k, destroys b) ∷ fs) e d (h, p) = (
  h ∙ sym (away loops a l b (other a b (omega arith))),
  update-Placed base loops a l fs (omega arith) (omega arith) p,
)
